-- ===== src/Network/Result.antt =====
-- pkg/network/resolver.go: DNSResolverResult, and the order of its CIDRs.
pub mod Order
use fqdn_egress_operator.Base.{
  ℕ, ◌+◌, Text, str_eq, str_lt, Bool, List, [], ◌∷◌, ◌++◌, Option, ltb, if◌then◌else◌, ◌==◌, length,
}
use fqdn_egress_operator.Base.Sort.{sort_by}
use fqdn_egress_operator.Base.Dict.{Dict, put}
use fqdn_egress_operator.Api.Ip.{to16}
use fqdn_egress_operator.Api.Types.{Cidr}
use fqdn_egress_operator.Api.Reason.{ResolutionReason}
use fqdn_egress_operator.Network.Errors.{GoError, resolution_reason, resolution_message}

-- DNSResolverResult
pub record Result : Type 0 where
  pub fqdn : Text
  pub error : Option GoError
  pub status : ResolutionReason
  pub message : Text
  pub cidrs : List Cidr

-- The less of NewDNSResolverResult: bytes.Compare of the 16-byte forms, then the prefix
unfoldable pub cidr_less : Cidr → Cidr → Bool
cidr_less a b =
    if str_eq (to16 a.ip) (to16 b.ip) then ltb a.prefix b.prefix else str_lt (to16 a.ip) (to16 b.ip)

-- NewDNSResolverResult
unfoldable pub new_result : Text → List Cidr → Option GoError → Result
unfolding cidr_less
new_result fqdn cidrs err = record {
  fqdn = fqdn;
  error = err;
  status = resolution_reason err;
  message = resolution_message err;
  cidrs = sort_by cidr_less cidrs;
}

unfoldable pub total_cidrs : List Result → ℕ
total_cidrs [] = 0
total_cidrs (r ∷ rest) = length r.cidrs + total_cidrs rest

unfoldable pub append_cidrs : List Result → List Cidr
append_cidrs [] = []
append_cidrs (r ∷ rest) = r.cidrs ++ append_cidrs rest

-- DNSResolverResultList.CIDRs
unfoldable pub all_cidrs : List Result → List Cidr
unfolding total_cidrs append_cidrs
all_cidrs rl = if total_cidrs rl == 0 then [] else append_cidrs rl

-- DNSResolverResultList.LookupTable
unfoldable pub lookup_from : List Result → Dict Result → Dict Result
lookup_from [] m = m
lookup_from (r ∷ rest) m = lookup_from rest (put r.fqdn r m)

unfoldable pub lookup_table : List Result → Dict Result
unfolding lookup_from
lookup_table rl = lookup_from rl []
