-- ===== src/Network/Dial.antt =====
-- pkg/network/resolver.go: NewDNSResolver, whose resolver asks one server, and the resolver of the tests.
use fqdn_egress_operator.Base.{
  ℕ, ◌*◌, Text, bytes, Bool, true, List, ◌∷◌, ◌++◌, any, ◌==◌, if◌then◌else◌,
}
use fqdn_egress_operator.Api.Reason.{NetworkType}
use fqdn_egress_operator.Api.Status.{second}
use fqdn_egress_operator.Network.Result.{Result}

-- net.JoinHostPort: a host with a colon, an IPv6 address, stands in brackets
unfoldable pub join_host_port : Text → Text → Text
join_host_port host port =
    if any (λ c. c == b':') host
    then b'[' ∷ (host ++ (bytes "]:" ++ port))
    else host ++ (b':' ∷ port)

-- The net.Resolver: the address that its Dial connects to, whichever server Go asks for
pub record ResolverConfig : Type 0 where
  pub prefer_go : Bool
  pub dial_timeout : ℕ
  pub dial_address : Text → Text → Text

-- NewDNSResolver
unfoldable pub new_dns_resolver : Text → ResolverConfig
unfolding join_host_port
new_dns_resolver upstream_dns = record {
  prefer_go = true;
  dial_timeout = 3 * second;
  dial_address = λ network address. join_host_port upstream_dns (bytes "53");
}

-- FakeDNSResolver.Resolve
unfoldable pub fake_resolve : List Result → ℕ → ℕ → NetworkType → List Text → List Result
fake_resolve results timeout max_concurrent network fqdns = results
