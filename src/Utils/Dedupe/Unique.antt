-- ===== src/Utils/Dedupe/Unique.antt =====
-- RemoveDuplicateCIDRsInMultiNetworkPolicy: how often a CIDR stands in the result.
use mathlib.Core.Option
use mathlib.Core.Path.{subst}
use fqdn_egress_operator.Base.{
  ℕ, ◌+◌, Text, str_eq, eq_of_str_eq, str_eq_refl, str_lt, Bool, ◌||◌, List, [], ◌∷◌, map,
  if◌then◌else◌, ◌≡◌, ◌≢◌, refl, ap, sym, ◌∙◌, inl, inr, any, any_intro, arith, Bool-cases,
  Option-cases, is_some, All, All-of_mem, mem-map_elim,
}
use fqdn_egress_operator.Base.Sum.{
  sum_over, count_if, sum_over-perm, sum_over-add, sum_over_congr, sum_over_zero, sum_over_test,
  sum_over-map, count_if-perm, count_if-map,
}
use fqdn_egress_operator.Base.Sort.{sort_by, sort_by-perm}
use fqdn_egress_operator.Base.Dict.{Dict, get, put, UniqueKeys, keys, put-UniqueKeys}
use fqdn_egress_operator.Base.Keys.{keys-perm, count-keys, count-entries, is_some-put}
use fqdn_egress_operator.Base.Range.{RangeOrder}
use fqdn_egress_operator.Multi.{PortPrinter, Peer, Rule}
use fqdn_egress_operator.Utils.Dedupe.{
  PortSet, Grouping, cidr_peer, build_rule, regroup, dedupe, collect, add_peer, add_peers,
  absorb_all, add_rule_ports, entry_of,
}
use fqdn_egress_operator.Utils.Dedupe.Traffic.{peer_is}
use fqdn_egress_operator.Utils.Dedupe.Absorb.{is_some-get-absorb_all, absorb_all-UniqueKeys}
use fqdn_egress_operator.Utils.Dedupe.Group.{
  grouping_of, cidrs_of, groups, filled, filled-UniqueKeys, get-filled, is_some-filled,
}

-- How many peers of the rules are the CIDR.
unfoldable pub occurrences : Text → List Rule → ℕ
occurrences c rules = sum_over (λ r. count_if (peer_is c) r.to) rules

-- The CIDR stands in some peer of some rule.
unfoldable pub has_cidr : Text → List Rule → Bool
has_cidr c rules = any (λ r. any (peer_is c) r.to) rules

-- One grouping is counted under its own fingerprint, and there only.
count-one :
    (c : Text) (g : Grouping) (fs : List Text)
    → count_if (str_eq g.fingerprint) fs ≡ 1
    → sum_over (λ f. if str_eq g.fingerprint f then (if str_eq g.cidr c then 1 else 0) else 0) fs
      ≡ (if str_eq g.cidr c then 1 else 0)
count-one c g fs h = elim (Bool-cases (str_eq g.cidr c)) [
  | inl e ↦ rw e (sum_over_test (str_eq g.fingerprint) fs ∙ h)
  | inr e ↦ rw e (sum_over_zero _ fs λ f. ground arith)
]

-- Summed over the fingerprints, each grouping counts once.
count-groupings :
    (c : Text) (fs : List Text) (gs : List Grouping)
    → All (λ g. count_if (str_eq g.fingerprint) fs ≡ 1) gs
    → sum_over (λ f. count_if (λ d. str_eq d c) (cidrs_of f gs)) fs
      ≡ count_if (λ g. str_eq g.cidr c) gs
unfolding count_if cidrs_of
count-groupings c fs [] h = sum_over_zero _ fs (λ f. refl)
count-groupings c fs (g ∷ gs) h =
    sum_over_congr _
      (λ f.
        (if str_eq g.fingerprint f then (if str_eq g.cidr c then 1 else 0) else 0)
        + count_if (λ d. str_eq d c) (cidrs_of f gs))
      fs (λ f. ground arith)
    ∙ (sum_over-add _ _ fs ∙ omega (arith, count-one c g fs h.0, count-groupings c fs gs h.1))

module _ (pp : PortPrinter) where
  is_some-add_peer :
      (rule : Rule) (peer : Peer) (m : Dict PortSet) (c : Text)
      → c ≢ []
      → is_some (get c (add_peer pp rule m peer)) ≡ (is_some (get c m) || peer_is c peer)
  unfolding add_peer peer_is
  is_some-add_peer rule peer m c h = elim (Option-cases peer.ip_block) [
    | inl e ↦ ground (arith, e)
    | inr (block, e) ↦ ground (
      arith,
      e,
      eq_of_str_eq block.cidr [],
      eq_of_str_eq block.cidr c,
      is_some-put block.cidr c (add_rule_ports pp rule (entry_of m block.cidr)) m,
    )
  ]

  add_peer-UniqueKeys :
      (rule : Rule) (peer : Peer) (m : Dict PortSet)
      → UniqueKeys m
      → UniqueKeys (add_peer pp rule m peer)
  unfolding add_peer
  add_peer-UniqueKeys rule peer m u = elim (Option-cases peer.ip_block) [
    | inl e ↦ let same : add_peer pp rule m peer ≡ m = ground arith in subst UniqueKeys (sym same) u
    | inr (block, e) ↦
        let new = add_rule_ports pp rule (entry_of m block.cidr) in
        elim (Bool-cases (str_eq block.cidr [])) [
          | inl n ↦
              let same : add_peer pp rule m peer ≡ m = ground arith in subst UniqueKeys (sym same) u
          | inr n ↦
              let same : add_peer pp rule m peer ≡ put block.cidr new m = ground arith in
              subst UniqueKeys (sym same) (put-UniqueKeys block.cidr new m u)
        ]
  ]

  is_some-add_peers :
      (rule : Rule) (peers : List Peer) (m : Dict PortSet) (c : Text)
      → c ≢ []
      → is_some (get c (add_peers pp rule peers m)) ≡ (is_some (get c m) || any (peer_is c) peers)
  unfolding add_peers any
  is_some-add_peers rule [] m c h = ground arith
  is_some-add_peers rule (peer ∷ rest) m c h =
      is_some-add_peers rule rest (add_peer pp rule m peer) c h
      ∙ ground (arith, is_some-add_peer rule peer m c h)

  add_peers-UniqueKeys :
      (rule : Rule) (peers : List Peer) (m : Dict PortSet)
      → UniqueKeys m
      → UniqueKeys (add_peers pp rule peers m)
  unfolding add_peers
  add_peers-UniqueKeys rule [] m u = u
  add_peers-UniqueKeys rule (peer ∷ rest) m u =
      add_peers-UniqueKeys rule rest _ (add_peer-UniqueKeys rule peer m u)

  -- Phase 1 has an entry for exactly the CIDRs of the rules.
  pub is_some-collect :
      (rules : List Rule) (m : Dict PortSet) (c : Text)
      → c ≢ []
      → is_some (get c (collect pp rules m)) ≡ (is_some (get c m) || has_cidr c rules)
  unfolding collect has_cidr any
  is_some-collect [] m c h = ground arith
  is_some-collect (rule ∷ rest) m c h =
      is_some-collect rest (add_peers pp rule rule.to m) c h
      ∙ ground (arith, is_some-add_peers rule rule.to m c h)

  pub collect-UniqueKeys :
      (rules : List Rule) (m : Dict PortSet) → UniqueKeys m → UniqueKeys (collect pp rules m)
  unfolding collect
  collect-UniqueKeys [] m u = u
  collect-UniqueKeys (rule ∷ rest) m u =
      collect-UniqueKeys rest _ (add_peers-UniqueKeys rule rule.to m u)

module _ (pp : PortPrinter) (o : RangeOrder) (m : Dict PortSet) (unique : UniqueKeys m) where
  abbrev visited : Dict PortSet
  visited = o.range 1 m

  abbrev fingerprints : List Text
  fingerprints = keys (filled pp o visited)

  -- Each CIDR's fingerprint is one of the fingerprints, once.
  fingerprint_once :
      All
        (λ (g : Grouping). count_if (str_eq g.fingerprint) fingerprints ≡ 1)
        (map (grouping_of pp o) visited)
  fingerprint_once = All-of_mem _ _ λ g n.
      let (e, k, same) = mem-map_elim (grouping_of pp o) visited n in
      let f = g.fingerprint in
      let present =
        is_some-filled pp o visited f
        ∙ any_intro (λ d. str_eq (grouping_of pp o d).fingerprint f) visited k
            (ap (λ (x : Grouping). str_eq x.fingerprint f) same ∙ str_eq_refl f) in
      count-keys f (filled pp o visited) (filled-UniqueKeys pp o visited) ∙ rw present

  occurrences-build_rule :
      (c f : Text)
      → count_if (peer_is c) (build_rule (filled pp o visited) (groups pp o visited).slices f).to
        ≡ count_if (λ d. str_eq d c) (cidrs_of f (map (grouping_of pp o) visited))
  unfolding build_rule peer_is
  occurrences-build_rule c f =
      let cs = Option.get_or (get f (filled pp o visited)) [] in
      count_if-map (peer_is c) cidr_peer (sort_by str_lt cs)
      ∙ (count_if-perm (λ (d : Text). str_eq d c) (sort_by-perm str_lt cs)
          ∙ ap (count_if (λ (d : Text). str_eq d c)) (get-filled pp o visited f))

  occurrences-regroup :
      (c : Text) → occurrences c (regroup pp o m) ≡ (if is_some (get c m) then 1 else 0)
  unfolding occurrences regroup
  occurrences-regroup c =
      let build = build_rule (filled pp o visited) (groups pp o visited).slices in
      let n = λ (r : Rule). count_if (peer_is c) r.to in
      sum_over-map n build _
      ∙ (sum_over-perm (λ (f : Text). n (build f)) (sort_by-perm str_lt _)
          ∙ (sum_over-perm (λ (f : Text). n (build f))
                (keys-perm _ _ (o.range-perm 4 (filled pp o visited)))
              ∙ (sum_over_congr _
                    (λ f. count_if (λ d. str_eq d c) (cidrs_of f (map (grouping_of pp o) visited)))
                    fingerprints (occurrences-build_rule c)
                  ∙ (count-groupings c fingerprints (map (grouping_of pp o) visited)
                        fingerprint_once
                      ∙ (count_if-map (λ (g : Grouping). str_eq g.cidr c) (grouping_of pp o) visited
                          ∙ (count_if-perm (λ (e : Text × PortSet). str_eq e.0 c) (o.range-perm 1 m)
                              ∙ count-entries c m unique))))))

-- After the deduplication a CIDR that some rule names (and that is not empty) stands in exactly one
-- peer of exactly one rule, and any other CIDR in none.
pub occurrences-dedupe :
    (pp : PortPrinter) (o : RangeOrder) (rules : List Rule) (c : Text)
    → c ≢ []
    → occurrences c (dedupe pp o rules) ≡ (if has_cidr c rules then 1 else 0)
unfolding dedupe
occurrences-dedupe pp o rules c h =
    let m = collect pp rules [] in
    let u = collect-UniqueKeys pp rules [] tt in
    let found = is_some-get-absorb_all c m ∙ is_some-collect pp rules [] c h in
    occurrences-regroup pp o (absorb_all m) (absorb_all-UniqueKeys m u) c
    ∙ rw found (unfold get in ground arith)
