-- ===== src/Utils/Dedupe/Rules.antt =====
-- Phase 1 of the deduplication over peers and rules.

use mathlib.Core.Path.{subst}
use fqdn_egress_operator.Base.{
  Text, str_eq, eq_of_str_eq, Bool, true, false, ◌&&◌, ◌||◌, List, [], ◌∷◌, none, some,
  if◌then◌else◌, ◌≡◌, ap, sym, inl, inr, any, arith, All, All_mem, ◌≢◌, Bool-cases, Option-cases,
}
use fqdn_egress_operator.Base.Dict.{Dict, get, put, get-put, UniqueKeys, put-UniqueKeys, mem-get}
use fqdn_egress_operator.Multi.{PortPrinter, Port, IpBlock, Peer, Rule}
use fqdn_egress_operator.Utils.Dedupe.{
  PortSet, add_rule_ports, entry_of, add_peer, add_peers, collect,
}
use fqdn_egress_operator.Utils.Dedupe.Traffic.{Traffic, peer_is, ports_allow, egress_allows}
use fqdn_egress_operator.Utils.Dedupe.Collect.{
  map_allows, Universe, Keyed, IsGood, AllGood, add_rule_ports-IsGood, set_allows-add_rule_ports,
}

entry_of-put :
    (k c : Text) (ps : PortSet) (m : Dict PortSet)
    → entry_of (put k ps m) c ≡ (if str_eq k c then ps else entry_of m c)
unfolding entry_of
entry_of-put k c ps m = ground (arith, get-put k c ps m)

module _ (pp : PortPrinter) (U : Port → Type 0) (universe : Universe pp U) where
  put-AllGood :
      (k : Text) (ps : PortSet) (m : Dict PortSet)
      → IsGood pp U ps
      → AllGood pp U m
      → AllGood pp U (put k ps m)
  unfolding put
  put-AllGood k ps [] g h = (g, tt)
  put-AllGood k ps ((j, w) ∷ m) g h = elim (Bool-cases (str_eq j k)) [
    | inl e ↦ rw e (g, h.1)
    | inr e ↦ rw e (h.0, put-AllGood k ps m g h.1)
  ]

  -- The entry of a CIDR, new or not, is keyed.
  entry_of-Keyed :
      (m : Dict PortSet) (c : Text)
      → AllGood pp U m
      → Keyed pp U (entry_of m c).ports × UniqueKeys (entry_of m c).ports
  unfolding entry_of
  entry_of-Keyed m c h = elim (Option-cases (get c m)) [
    | inl e ↦ rw e (tt, tt)
    | inr (ps, e) ↦
        let g : IsGood pp U ps =
          All_mem (λ (e : Text × PortSet). IsGood pp U e.1) m h (mem-get c ps m e) in
        rw e (g.keyed, g.unique)
  ]

  -- What one more peer of a rule keeps, and adds.
  record Adds (rule : Rule) (peer : Peer) (m m' : Dict PortSet) : Type 0 where
    good : AllGood pp U m'
    unique : UniqueKeys m'
    allows :
        (t : Traffic) (c : Text)
        → c ≢ []
        → map_allows t c m' ≡ (map_allows t c m || (peer_is c peer && ports_allow rule.ports t))

  add_block :
      (rule : Rule) (peer : Peer) (block : IpBlock) (m : Dict PortSet)
      → All U rule.ports
      → AllGood pp U m
      → UniqueKeys m
      → peer.ip_block ≡ some block
      → str_eq block.cidr [] ≡ false
      → Adds rule peer m (put block.cidr (add_rule_ports pp rule (entry_of m block.cidr)) m)
  unfolding map_allows peer_is
  add_block rule peer block m u g k e n =
      let b = block.cidr in
      let old = entry_of-Keyed m b g in
      let new = add_rule_ports pp rule (entry_of m b) in
      record {
        good =
            put-AllGood b new m
              (add_rule_ports-IsGood pp U universe rule (entry_of m b) u old.0 old.1) g;
        unique = put-UniqueKeys b new m k;
        allows = λ t c h. ground (
          arith,
          e,
          entry_of-put b c new m,
          eq_of_str_eq b c,
          ap (entry_of m),
          set_allows-add_rule_ports pp U universe t rule (entry_of m b) u old.0,
        );
      }

  -- A peer that is skipped adds nothing.
  skipped :
      (rule : Rule) (peer : Peer) (m m' : Dict PortSet)
      → AllGood pp U m
      → UniqueKeys m
      → m' ≡ m
      → ((c : Text) → c ≢ [] → peer_is c peer ≡ false)
      → Adds rule peer m m'
  skipped rule peer m m' g k e n =
      rw e (record { good = g; unique = k; allows = λ t c h. let p = n c h in ground arith })

  peer_is_blank :
      (peer : Peer) (block : IpBlock) (c : Text)
      → peer.ip_block ≡ some block
      → str_eq block.cidr [] ≡ true
      → c ≢ []
      → peer_is c peer ≡ false
  unfolding peer_is
  peer_is_blank peer block c e n h =
      ground (arith, eq_of_str_eq block.cidr [] n, eq_of_str_eq block.cidr c)

  peer_is-none : (peer : Peer) (c : Text) → peer.ip_block ≡ none → peer_is c peer ≡ false
  unfolding peer_is
  peer_is-none peer c e = ground arith

  add_peer-Adds :
      (rule : Rule) (peer : Peer) (m : Dict PortSet)
      → All U rule.ports
      → AllGood pp U m
      → UniqueKeys m
      → Adds rule peer m (add_peer pp rule m peer)
  unfolding add_peer
  add_peer-Adds rule peer m u g k = elim (Option-cases peer.ip_block) [
    | inl e ↦ skipped rule peer m _ g k (ground arith) (λ c h. peer_is-none peer c e)
    | inr (block, e) ↦ elim (Bool-cases (str_eq block.cidr [])) [
      | inl n ↦ skipped rule peer m _ g k (ground arith) (λ c h. peer_is_blank peer block c e n h)
      | inr n ↦
          let same : add_peer pp rule m peer
              ≡ put block.cidr (add_rule_ports pp rule (entry_of m block.cidr)) m =
            ground arith in
          subst (Adds rule peer m) (sym same) (add_block rule peer block m u g k e n)
    ]
  ]

  -- What a list of peers, or a list of rules, keeps and adds.
  pub record Gathers (more : Text → Traffic → Bool) (m m' : Dict PortSet) : Type 0 where
    pub good : AllGood pp U m'
    pub unique : UniqueKeys m'
    pub allows :
        (t : Traffic) (c : Text) → c ≢ [] → map_allows t c m' ≡ (map_allows t c m || more c t)

  add_peers-Gathers :
      (rule : Rule) (peers : List Peer) (m : Dict PortSet)
      → All U rule.ports
      → AllGood pp U m
      → UniqueKeys m
      → Gathers
          (λ c t. any (peer_is c) peers && ports_allow rule.ports t)
          m
          (add_peers pp rule peers m)
  unfolding add_peers any
  add_peers-Gathers rule [] m u g k = record {
    good = g;
    unique = k;
    allows = λ t c h. ground arith;
  }
  add_peers-Gathers rule (peer ∷ rest) m u g k =
      let now = add_peer-Adds rule peer m u g k in
      let later = add_peers-Gathers rule rest (add_peer pp rule m peer) u now.good now.unique in
      record {
        good = later.good;
        unique = later.unique;
        allows = λ t c h. let p = now.allows t c h in let q = later.allows t c h in ground arith;
      }

  collect-Gathers :
      (rules : List Rule) (m : Dict PortSet)
      → All (λ (r : Rule). All U r.ports) rules
      → AllGood pp U m
      → UniqueKeys m
      → Gathers (λ c t. egress_allows rules c t) m (collect pp rules m)
  unfolding collect egress_allows any
  collect-Gathers [] m u g k = record { good = g; unique = k; allows = λ t c h. ground arith }
  collect-Gathers (rule ∷ rest) m u g k =
      let now = add_peers-Gathers rule rule.to m u.0 g k in
      let later = collect-Gathers rest (add_peers pp rule rule.to m) u.1 now.good now.unique in
      record {
        good = later.good;
        unique = later.unique;
        allows = λ t c h. let p = now.allows t c h in let q = later.allows t c h in ground arith;
      }

  -- Phase 1 from the empty map: good port sets, one to a CIDR, that allow what the rules allow.
  pub collect_lem :
      (rules : List Rule)
      → All (λ (r : Rule). All U r.ports) rules
      → Gathers (λ c t. egress_allows rules c t) [] (collect pp rules [])
  collect_lem rules u = collect-Gathers rules [] u tt tt
