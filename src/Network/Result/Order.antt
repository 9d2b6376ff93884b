-- ===== src/Network/Result/Order.antt =====
-- NewDNSResolverResult: the order of the CIDRs.
use mathlib.Core.List.{Permᴰ}
use fqdn_egress_operator.Base.{
  Text, [], ◌∷◌, ◌≤◌, sym, All, All-of_mem, All_mem, str_lt, str_lt_irrefl, str_lt_trans,
  str_lt_total, str_eq_refl, true, false, List, Option, ◌≡◌, arith, str_eq_iff,
}
use fqdn_egress_operator.Base.Sort.{
  sort_by-perm, sort_by-IsSorted, IsSorted, StrictOrder, str_order,
}
use fqdn_egress_operator.Api.Ip.{to16}
use fqdn_egress_operator.Api.Types.{Cidr}
use fqdn_egress_operator.Network.Errors.{GoError}
use fqdn_egress_operator.Network.Result.{cidr_less, new_result}

less_irrefl : (a : Cidr) → cidr_less a a ≡ false
unfolding cidr_less
less_irrefl a = ground (arith, str_eq_refl (to16 a.ip))

less_trans : (a b c : Cidr) → cidr_less a b ≡ true → cidr_less b c ≡ true → cidr_less a c ≡ true
unfolding cidr_less
less_trans a b c h k =
    let x = to16 a.ip in
    let y = to16 b.ip in
    let z = to16 c.ip in
    ground (
      arith,
      str_eq_iff x y,
      str_eq_iff y z,
      str_eq_iff x z,
      str_lt_trans x y z,
      str_lt_trans y x y,
      str_lt_irrefl y,
      str_lt_irrefl x,
    )

less_neg_trans :
    (a b c : Cidr) → cidr_less a b ≡ false → cidr_less b c ≡ false → cidr_less a c ≡ false
unfolding cidr_less
less_neg_trans a b c h k =
    let x = to16 a.ip in
    let y = to16 b.ip in
    let z = to16 c.ip in
    ground (
      arith,
      str_eq_iff x y,
      str_eq_iff y z,
      str_eq_iff x z,
      str_order.neg_trans x y z,
      str_lt_total x y,
      str_lt_total y z,
      str_lt_trans y z y,
      str_lt_trans x y x,
      str_lt_irrefl y,
      str_lt_trans z y x,
      str_lt_trans x z x,
      str_lt_irrefl x,
      str_lt_trans y x z,
      str_lt_trans z x y,
      str_lt_trans x z y,
    )

cidr_order : StrictOrder cidr_less
cidr_order = record { irrefl = less_irrefl; trans = less_trans; neg_trans = less_neg_trans }

-- Each CIDR is not after a later one: its 16-byte address is not behind in the order of the bytes, and
-- where the addresses are the same, its prefix is not longer.
abbrev pub Ascending : List Cidr → Type 0
Ascending [] = Unit
Ascending (a ∷ rest) =
    All
      (λ (b : Cidr).
        (str_lt (to16 b.ip) (to16 a.ip) ≡ false) × (to16 a.ip ≡ to16 b.ip → a.prefix ≤ b.prefix))
      rest
    × Ascending rest

not_after :
    (a b : Cidr)
    → cidr_less b a ≡ false
    → (str_lt (to16 b.ip) (to16 a.ip) ≡ false) × (to16 a.ip ≡ to16 b.ip → a.prefix ≤ b.prefix)
unfolding cidr_less
not_after a b h = (
  ground (arith, h, str_eq_iff (to16 b.ip) (to16 a.ip), str_lt_irrefl (to16 a.ip)),
  λ e. ground (arith, h, str_eq_iff (to16 b.ip) (to16 a.ip), sym e),
)

IsSorted-Ascending : (cidrs : List Cidr) → IsSorted cidr_less cidrs → Ascending cidrs
IsSorted-Ascending [] h = tt
IsSorted-Ascending (a ∷ rest) h = (
  All-of_mem _ rest λ b m. not_after a b (All_mem (λ b. cidr_less b a ≡ false) rest h.0 m),
  IsSorted-Ascending rest h.1,
)

-- A result holds exactly the CIDRs that were resolved, as often, in ascending order of their 16-byte
-- addresses, byte by byte, and then of their prefixes.
pub new_result-cidrs :
    (fqdn : Text) (cidrs : List Cidr) (err : Option GoError)
    → Permᴰ (new_result fqdn cidrs err).cidrs cidrs × Ascending (new_result fqdn cidrs err).cidrs
unfolding new_result
new_result-cidrs fqdn cidrs err = (
  sort_by-perm cidr_less cidrs,
  IsSorted-Ascending _ (sort_by-IsSorted cidr_less cidr_order cidrs),
)
