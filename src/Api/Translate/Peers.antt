-- ===== src/Api/Translate/Peers.antt =====
-- getPeers against the statuses that hold the addresses.

use mathlib.Core.Path.{subst}
use fqdn_egress_operator.Base.{
  not, is_some, All, All_mem, All-of_mem, mem-perm, mem-map_elim, map, str_lt, refl, sym,
  Bool-cases, ◌++◌, Text, str_eq, eq_of_str_eq, str_lt_irrefl, str_lt_trans, Bool, true, false,
  ◌&&◌, List, [], ◌∷◌, Option, none, some, ◌≡◌, ap, ◌∙◌, any, any-append, any-perm, arith,
  Option-cases, inl, inr,
}
use fqdn_egress_operator.Base.Sort.{
  sort_by, sort_by-perm, sort_by-IsSorted, IsSorted, StrictOrder, str_order,
}
use fqdn_egress_operator.Base.Dict.{Dict, get}
use fqdn_egress_operator.Multi.{Peer}
use fqdn_egress_operator.Api.Ip.{is_private}
use fqdn_egress_operator.Utils.Dedupe.Traffic.{peer_is}
use fqdn_egress_operator.Api.Types.{AddressEntry, FqdnStatus}
use fqdn_egress_operator.Api.Translate.{
  NetText, new_cidr, is_allowed, blocks_private, peer_less, address_peers, fqdn_peers, get_peers,
}

All-append : {A : Type 0} (P : A → Type 0) (xs ys : List A) → All P xs → All P ys → All P (xs ++ ys)
All-append P [] ys h k = k
All-append P (x ∷ xs) ys h k = (h.0, All-append P xs ys h.1 k)

-- The status of the FQDN, if there is one, holds the address.
unfoldable pub holds : Dict FqdnStatus → Text → Text → Bool
holds ips c fqdn = elim (get fqdn ips) [
  | none ↦ false
  | some status ↦ any (λ (e : AddressEntry). str_eq e.address c) status.addresses
]

module _ (net : NetText) (global_block : Bool) (rule_block : Option Bool) (c : Text) where
  any-address_peers :
      (entries : List AddressEntry)
      → any (peer_is c) (address_peers net global_block rule_block entries) ≡ (
          is_allowed net c global_block rule_block
          && any (λ (e : AddressEntry). str_eq e.address c) entries)
  unfolding address_peers any peer_is
  any-address_peers [] = ground arith
  any-address_peers (e ∷ rest) = ground (
    arith,
    any-address_peers rest,
    eq_of_str_eq e.address c,
    ap (λ (a : Text). is_allowed net a global_block rule_block),
  )

  any-fqdn_peers :
      (fqdns : List Text) (ips : Dict FqdnStatus)
      → any (peer_is c) (fqdn_peers net fqdns ips global_block rule_block)
        ≡ (is_allowed net c global_block rule_block && any (holds ips c) fqdns)
  unfolding fqdn_peers any holds
  any-fqdn_peers [] ips = ground arith
  any-fqdn_peers (f ∷ rest) ips = elim (Option-cases (get f ips)) [
    | inl e ↦ ground (arith, e, any-fqdn_peers rest ips)
    | inr (status, e) ↦
        let here = address_peers net global_block rule_block status.addresses in
        let more = fqdn_peers net rest ips global_block rule_block in
        ground (
          arith,
          e,
          any-append (peer_is c) here more,
          any-address_peers status.addresses,
          any-fqdn_peers rest ips,
        )
  ]

-- The order that sorts the peers.
less_neg_trans :
    (x y z : Peer) → peer_less x y ≡ false → peer_less y z ≡ false → peer_less x z ≡ false
unfolding peer_less
less_neg_trans x y z h k = elim (Option-cases x.ip_block) [
  | inl e ↦ ground (arith, e)
  | inr (a, e) ↦ elim (Option-cases y.ip_block) [
    | inl f ↦ ground (arith, e, f)
    | inr (b, f) ↦ elim (Option-cases z.ip_block) [
      | inl g ↦ ground (arith, e, f, g)
      | inr (d, g) ↦ ground (arith, e, f, g, str_order.neg_trans a.cidr b.cidr d.cidr)
    ]
  ]
]

less_trans : (x y z : Peer) → peer_less x y ≡ true → peer_less y z ≡ true → peer_less x z ≡ true
unfolding peer_less
less_trans x y z h k = elim (Option-cases x.ip_block) [
  | inl e ↦ ground (arith, e)
  | inr (a, e) ↦ elim (Option-cases y.ip_block) [
    | inl f ↦ ground (arith, e, f)
    | inr (b, f) ↦ elim (Option-cases z.ip_block) [
      | inl g ↦ ground (arith, e, f, g)
      | inr (d, g) ↦ ground (arith, e, f, g, str_lt_trans a.cidr b.cidr d.cidr)
    ]
  ]
]

less_irrefl : (x : Peer) → peer_less x x ≡ false
unfolding peer_less
less_irrefl x = elim (Option-cases x.ip_block) [
  | inl e ↦ ground (arith, e)
  | inr (a, e) ↦ ground (arith, e, str_lt_irrefl a.cidr)
]

peer_order : StrictOrder peer_less
peer_order = record { irrefl = less_irrefl; trans = less_trans; neg_trans = less_neg_trans }

pub get_peers-is_allowed :
    (net : NetText) (fqdns : List Text) (ips : Dict FqdnStatus) (global_block : Bool)
    (rule_block : Option Bool) (c : Text)
    → any (peer_is c) (get_peers net fqdns ips global_block rule_block)
      ≡ (is_allowed net c global_block rule_block && any (holds ips c) fqdns)
unfolding get_peers
get_peers-is_allowed net fqdns ips global_block rule_block c =
    any-perm (peer_is c) (sort_by-perm peer_less _)
    ∙ any-fqdn_peers net global_block rule_block c fqdns ips

-- The filter: the CIDR parses, and its address is not a private one where the rule, or else the policy,
-- blocks those.
abbrev pub lets_through : NetText → Text → Bool → Option Bool → Bool
lets_through net c global_block rule_block = elim (net.parse_cidr c) [
  | none ↦ false
  | some parsed ↦ not (is_private parsed.ip && elim rule_block [ none ↦ global_block | some b ↦ b ])
]

is_allowed-lets_through :
    (net : NetText) (c : Text) (global_block : Bool) (rule_block : Option Bool)
    → is_allowed net c global_block rule_block ≡ lets_through net c global_block rule_block
unfolding is_allowed blocks_private new_cidr
is_allowed-lets_through net c global_block rule_block = elim (Option-cases (net.parse_cidr c)) [
  | inl e ↦ ground (arith, e)
  | inr (parsed, e) ↦ elim (Option-cases rule_block) [
    | inl f ↦ ground (arith, e, f)
    | inr (b, f) ↦ ground (arith, e, f)
  ]
]

-- The text of a peer's CIDR
abbrev pub cidr_text : Peer → Text
cidr_text p = elim p.ip_block [ none ↦ [] | some b ↦ b.cidr ]

address_peers-blocks :
    (net : NetText) (global_block : Bool) (rule_block : Option Bool) (entries : List AddressEntry)
    → All
        (λ (p : Peer). is_some p.ip_block ≡ true)
        (address_peers net global_block rule_block entries)
unfolding address_peers
address_peers-blocks net global_block rule_block [] = tt
address_peers-blocks net global_block rule_block (e ∷ rest) =
    let more = address_peers-blocks net global_block rule_block rest in
    elim (Bool-cases (is_allowed net e.address global_block rule_block)) [
      | inl q ↦ rw q (refl, more)
      | inr q ↦ rw q more
    ]

fqdn_peers-blocks :
    (net : NetText) (fqdns : List Text) (ips : Dict FqdnStatus) (global_block : Bool)
    (rule_block : Option Bool)
    → All
        (λ (p : Peer). is_some p.ip_block ≡ true)
        (fqdn_peers net fqdns ips global_block rule_block)
unfolding fqdn_peers
fqdn_peers-blocks net [] ips global_block rule_block = tt
fqdn_peers-blocks net (f ∷ rest) ips global_block rule_block =
    let Block : Peer → Type 0 = λ p. is_some p.ip_block ≡ true in
    let others = fqdn_peers net rest ips global_block rule_block in
    let more = fqdn_peers-blocks net rest ips global_block rule_block in
    elim (Option-cases (get f ips)) [
      | inl q ↦
          let same : fqdn_peers net (f ∷ rest) ips global_block rule_block ≡ others =
            ground (arith, q) in
          subst (All Block) (sym same) more
      | inr (status, q) ↦
          let here = address_peers net global_block rule_block status.addresses in
          let same : fqdn_peers net (f ∷ rest) ips global_block rule_block ≡ here ++ others =
            ground (arith, q) in
          subst (All Block) (sym same) (
            All-append Block here others
              (address_peers-blocks net global_block rule_block status.addresses) more)
    ]

in_order_of_text :
    (p q : Peer)
    → is_some p.ip_block ≡ true
    → is_some q.ip_block ≡ true
    → peer_less q p ≡ false
    → str_lt (cidr_text q) (cidr_text p) ≡ false
unfolding peer_less
in_order_of_text p q h k less = elim (Option-cases p.ip_block) [
  | inl e ↦ absurd (ground (arith, e, h))
  | inr (a, e) ↦ elim (Option-cases q.ip_block) [
    | inl f ↦ absurd (ground (arith, f, k))
    | inr (b, f) ↦ ground (arith, e, f, less)
  ]
]

IsSorted-texts :
    (peers : List Peer)
    → All (λ (p : Peer). is_some p.ip_block ≡ true) peers
    → IsSorted peer_less peers
    → IsSorted str_lt (map cidr_text peers)
IsSorted-texts [] h k = tt
IsSorted-texts (p ∷ rest) h k = (
  All-of_mem _ (map cidr_text rest) λ c m.
      let (q, n, e) = mem-map_elim cidr_text rest m in
      subst (λ t. str_lt t (cidr_text p) ≡ false) e
        (in_order_of_text p q h.0 (All_mem (λ (p : Peer). is_some p.ip_block ≡ true) rest h.1 n)
          (All_mem (λ y. peer_less y p ≡ false) rest k.0 n)),
  IsSorted-texts rest h.1 k.1,
)

-- A CIDR is among the peers of a rule exactly when the status of some FQDN of the rule holds it and the
-- filter lets it through, that is, it parses and is not a private address that the rule, or else the
-- policy, blocks; and the peers are in ascending order of the bytes of their CIDRs.
pub get_peers_lem :
    (net : NetText) (fqdns : List Text) (ips : Dict FqdnStatus) (global_block : Bool)
    (rule_block : Option Bool)
    → ((c : Text)
        → any (peer_is c) (get_peers net fqdns ips global_block rule_block)
          ≡ (lets_through net c global_block rule_block && any (holds ips c) fqdns))
      × IsSorted str_lt (map cidr_text (get_peers net fqdns ips global_block rule_block))
unfolding get_peers
get_peers_lem net fqdns ips global_block rule_block =
    let found = fqdn_peers net fqdns ips global_block rule_block in
    let blocks =
      All-of_mem (λ (p : Peer). is_some p.ip_block ≡ true) (sort_by peer_less found)
        λ p m.
          All_mem (λ (p : Peer). is_some p.ip_block ≡ true) found
            (fqdn_peers-blocks net fqdns ips global_block rule_block)
            (mem-perm (sort_by-perm peer_less found) m) in
    (
      λ c.
          get_peers-is_allowed net fqdns ips global_block rule_block c
          ∙ (ap (λ b. b && any (holds ips c) fqdns)
              (is_allowed-lets_through net c global_block rule_block)),
      IsSorted-texts (sort_by peer_less found) blocks (sort_by-IsSorted peer_less peer_order _),
    )
