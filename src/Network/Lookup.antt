-- ===== src/Network/Lookup.antt =====
-- pkg/network/resolver.go: DNSResolver.lookupIP. The resolver of the interface Resolver is the argument
-- `answer`: what its LookupIP returns for a network and a host.
pub mod Allowed
use mathlib.Core.Path.{subst}
use fqdn_egress_operator.Base.{
  Text, bytes, true, false, not, List, [], ◌++◌, map, ◌⊎◌, inl, inr, if◌then◌else◌, none, some, ◌≡◌,
  refl, ap, ◌∙◌, sym, arith, is_some, All, All-of_mem, Memᴰ, mem-map_elim, Bool-cases, length,
  length-map,
}
use fqdn_egress_operator.Api.Ip.{Ip, to4}
use fqdn_egress_operator.Api.Fqdn.{valid}
use fqdn_egress_operator.Api.Reason.{NetworkType, resolver_string, invalid_format}
use fqdn_egress_operator.Api.Types.{Cidr}
use fqdn_egress_operator.Network.Errors.{
  GoError, new_lookup_error, resolution_reason, as_lookup_error,
}
use fqdn_egress_operator.Network.Result.{Result, new_result}

-- A slice and an error of which one is nil
abbrev pub Answer : Type 0 → Type 0
Answer A = A ⊎ GoError

abbrev pub Resolver : Type 0
Resolver = Text → Text → Answer (List Ip)

-- The CIDR of one address: /32 for IPv4, else /128
unfoldable pub host_cidr : Ip → Cidr
host_cidr ip = record { ip = ip; prefix = if is_some (to4 ip) then 32 else 128 }

-- DNSResolver.lookupIP
unfoldable pub lookup_ip : Resolver → NetworkType → Text → Answer (List Cidr)
unfolding host_cidr
lookup_ip resolver network host =
    if not (valid host)
    then inr
        (new_lookup_error invalid_format (bytes "Received invalid FQDN '" ++ (host ++ bytes "'")))
    else elim (resolver (resolver_string network) host) [
      | inl ips ↦ inl (map host_cidr ips)
      | inr err ↦ inr err
    ]

-- `NewDNSResolverResult(rFQDN, cidrs, err)` with what lookupIP returned
unfoldable pub result_of : Text → Answer (List Cidr) → Result
result_of fqdn (inl cidrs) = new_result fqdn cidrs none
result_of fqdn (inr err) = new_result fqdn [] (some err)

-- The prefix is the one of a single address of its family.
abbrev pub IsHost : Cidr → Type 0
IsHost c = c.prefix ≡ (if is_some (to4 c.ip) then 32 else 128)

host_cidr-IsHost : (ip : Ip) → IsHost (host_cidr ip)
unfolding host_cidr
host_cidr-IsHost ip = refl

Answer-cases : {A : Type 0} (a : Answer A) → ((x : A) × (a ≡ inl x)) ⊎ ((e : GoError) × (a ≡ inr e))
Answer-cases (inl x) = inl (x, refl)
Answer-cases (inr e) = inr (e, refl)

abbrev refused : Text → GoError
refused host =
    new_lookup_error invalid_format (bytes "Received invalid FQDN '" ++ (host ++ bytes "'"))

refused_reason : (host : Text) → resolution_reason (some (refused host)) ≡ invalid_format
unfolding resolution_reason as_lookup_error
refused_reason host = refl

answered :
    (resolver : Resolver) (network : NetworkType) (host : Text) (cidrs : List Cidr)
    → lookup_ip resolver network host ≡ inl cidrs
    → (valid host ≡ true)
      × (ips : List Ip) × (resolver (resolver_string network) host ≡ inl ips)
      × (map host_cidr ips ≡ cidrs)
unfolding lookup_ip
answered resolver network host cidrs h = elim (Bool-cases (valid host)) [
  | inr v ↦ absurd (ground (arith, h, v))
  | inl v ↦ elim (Answer-cases (resolver (resolver_string network) host)) [
    | inl (ips, q) ↦ (v, ips, q, ground (arith, v, q, h))
    | inr (e, q) ↦ absurd (ground (arith, v, q, h))
  ]
]

-- An FQDN that is not valid is reported as InvalidFormat with no address, whatever the resolver would
-- say; for a valid one every CIDR is a single address (/32 for IPv4, else /128), and there are as many
-- as addresses in the answer.
pub lookup_ip_lem :
    (resolver : Resolver) (network : NetworkType) (host : Text)
    → (valid host ≡ false
        → (err : GoError) × (lookup_ip resolver network host ≡ inr err)
          × (resolution_reason (some err) ≡ invalid_format))
      × ((cidrs : List Cidr)
          → lookup_ip resolver network host ≡ inl cidrs
          → (valid host ≡ true)
            × ((ips : List Ip) × (resolver (resolver_string network) host ≡ inl ips)
                × (length cidrs ≡ length ips)
                × All IsHost cidrs))
unfolding lookup_ip
lookup_ip_lem resolver network host = (
  λ h. (refused host, rw h refl, refused_reason host),
  λ cidrs h.
      let (ok, ips, q, same) = answered resolver network host cidrs h in
      (
        ok,
        (
          ips,
          q,
          ap length (sym same) ∙ length-map host_cidr ips,
          All-of_mem IsHost cidrs λ c m.
              let (ip, n, e) = mem-map_elim host_cidr ips (subst (Memᴰ c) (sym same) m) in
              subst IsHost e (host_cidr-IsHost ip),
        ),
      ),
)
