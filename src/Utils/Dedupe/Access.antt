-- ===== src/Utils/Dedupe/Access.antt =====
-- RemoveDuplicateCIDRsInMultiNetworkPolicy against the traffic that rules allow.
use mathlib.Core.Option
use mathlib.Core.List.Permᴰ as PermD
use fqdn_egress_operator.Base.{
  Text, str_eq, eq_of_str_eq, str_eq_refl, str_lt, Bool, true, false, ◌&&◌, ◌||◌, List, [], ◌∷◌,
  map, ◌≡◌, ◌≢◌, refl, ap, sym, ◌∙◌, inl, inr, any, any-perm, any-map, any_elim, any_intro,
  mem-perm, arith, Memᴰ, Option-cases, Option, none, some, Bool-ext, All, All_mem, All-of_mem,
}
use fqdn_egress_operator.Base.Sort.{sort_by, sort_by-perm}
use fqdn_egress_operator.Base.Dict.{Dict, get, UniqueKeys, keys, get-mem, mem-get}
use fqdn_egress_operator.Base.Keys.{keys-perm, mem-keys}
use fqdn_egress_operator.Base.Range.{RangeOrder}
use fqdn_egress_operator.Multi.{PortPrinter, Port, Rule}
use fqdn_egress_operator.Utils.Dedupe.{
  PortSet, port_slice, no_groups, cidr_peer, build_rule, regroup, dedupe, collect, absorb_all,
  entry_of,
}
use fqdn_egress_operator.Utils.Dedupe.Traffic.{
  Traffic, peer_is, ports_allow, rule_allows, egress_allows, IsSupported, AllSupported, HasPort,
  KeysAgree,
}
use fqdn_egress_operator.Utils.Dedupe.Collect.{set_allows, map_allows, Universe, IsGood, AllGood}
use fqdn_egress_operator.Utils.Dedupe.Rules.{collect_lem}
use fqdn_egress_operator.Utils.Dedupe.Absorb.{
  get_of_is_some, absorb_all-AllGood, map_allows-absorb_all, absorb_all-UniqueKeys,
}
use fqdn_egress_operator.Utils.Dedupe.Slices.{port_slice-All, port_slice_allows, fingerprint_allows}
use fqdn_egress_operator.Utils.Dedupe.Group.{
  grouping_of, cidrs_of, groups, filled, get-filled, is_some-filled, slices-group, slices_some,
}

module _ (pp : PortPrinter) (o : RangeOrder) where
  any-cidrs_of :
      (c f : Text) (m : Dict PortSet)
      → any (λ d. str_eq d c) (cidrs_of f (map (grouping_of pp o) m))
        ≡ any (λ e. str_eq (grouping_of pp o e).fingerprint f && str_eq e.0 c) m
  unfolding any cidrs_of
  any-cidrs_of c f [] = refl
  any-cidrs_of c f ((d, ps) ∷ m) = ground (arith, any-cidrs_of c f m)

  any-peers :
      (c : Text) (cs : List Text) → any (peer_is c) (map cidr_peer cs) ≡ any (λ d. str_eq d c) cs
  unfolding peer_is
  any-peers c cs = any-map (peer_is c) cidr_peer cs

  -- What the rule of a fingerprint allows.
  build_rule_allows :
      (c : Text) (t : Traffic) (f : Text) (m : Dict PortSet)
      → rule_allows c t (build_rule (filled pp o m) (groups pp o m).slices f) ≡ (
          any (λ e. str_eq (grouping_of pp o e).fingerprint f && str_eq e.0 c) m
          && ports_allow (Option.get_or (get f (groups pp o m).slices) []) t)
  unfolding rule_allows build_rule
  build_rule_allows c t f m =
      let cs = Option.get_or (get f (filled pp o m)) [] in
      let p =
        any-peers c (sort_by str_lt cs)
        ∙ (any-perm (λ (d : Text). str_eq d c) (sort_by-perm str_lt cs)
            ∙ (ap (any (λ (d : Text). str_eq d c)) (get-filled pp o m f) ∙ any-cidrs_of c f m)) in
      ap (λ (b : Bool). b && ports_allow (Option.get_or (get f (groups pp o m).slices) []) t) p

map_allows-some :
    (t : Traffic) (c : Text) (ps : PortSet) (m : Dict PortSet)
    → get c m ≡ some ps
    → map_allows t c m ≡ set_allows t ps
unfolding map_allows entry_of
map_allows-some t c ps m e = rw e refl

nothing_allowed :
    (t : Traffic) (c : Text) (m : Dict PortSet) → get c m ≡ none → map_allows t c m ≡ false
unfolding map_allows entry_of set_allows any
nothing_allowed t c m e = rw e refl

module _ (pp : PortPrinter) (o : RangeOrder) (U : Port → Type 0) (universe : Universe pp U)
    (m : Dict PortSet) (good : AllGood pp U m) (unique : UniqueKeys m) where
  abbrev visited : Dict PortSet
  visited = o.range 1 m

  IsGood-at : (e : Text × PortSet) → Memᴰ e visited → IsGood pp U e.1
  IsGood-at e h =
      All_mem (λ (e : Text × PortSet). IsGood pp U e.1) m good (mem-perm (o.range-perm 1 m) h)

  -- The ports recorded for a fingerprint are those of each CIDR that has it.
  slice_of_fingerprint :
      (t : Traffic) (e : Text × PortSet)
      → Memᴰ e visited
      → ports_allow
          (Option.get_or (get (grouping_of pp o e).fingerprint (groups pp o visited).slices) [])
          t
        ≡ set_allows t e.1
  slice_of_fingerprint t e h =
      let f = (grouping_of pp o e).fingerprint in
      let (s, found) =
        slices_some pp o f visited no_groups
          (any_intro (λ d. str_eq (grouping_of pp o d).fingerprint f) visited h (str_eq_refl f)) in
      elim (slices-group pp o f s visited no_groups found) [
        | inl none_yet ↦ absurd (unfold get in ground (arith, none_yet))
        | inr (d, n, same_f, same_s) ↦
            let p =
              fingerprint_allows pp U universe t (port_slice pp o d.1) (port_slice pp o e.1)
                (port_slice-All pp o U d.1 (IsGood-at d n))
                (port_slice-All pp o U e.1 (IsGood-at e h)) same_f in
            let q = port_slice_allows pp o U t e.1 (IsGood-at e h) in
            let r : Option.get_or (get f (groups pp o visited).slices) [] ≡ port_slice pp o d.1 =
              ap (λ (x : Option (List Port)). Option.get_or x []) found ∙ sym same_s in
            ap (λ (ps : List Port). ports_allow ps t) r ∙ (p ∙ q)
      ]

  -- The rules after phase 4, as a test over the fingerprints.
  regroup_as_any :
      (c : Text) (t : Traffic)
      → egress_allows (regroup pp o m) c t
        ≡ any
            (λ f. rule_allows c t (build_rule (filled pp o visited) (groups pp o visited).slices f))
            (keys (filled pp o visited))
  unfolding egress_allows regroup
  regroup_as_any c t =
      let test = λ (f : Text).
        rule_allows c t (build_rule (filled pp o visited) (groups pp o visited).slices f) in
      any-map (rule_allows c t) (build_rule (filled pp o visited) (groups pp o visited).slices) _
      ∙ (any-perm test (sort_by-perm str_lt _)
          ∙ any-perm test (keys-perm _ _ (o.range-perm 4 (filled pp o visited))))

  regroup_sound :
      (c : Text) (t : Traffic) → egress_allows (regroup pp o m) c t ≡ true → map_allows t c m ≡ true
  regroup_sound c t h =
      let (f, in_keys, ok) =
        any_elim _ (keys (filled pp o visited)) (sym (regroup_as_any c t) ∙ h) in
      let both = sym (build_rule_allows pp o c t f visited) ∙ ok in
      let (e, n, at_e) =
        any_elim (λ e. str_eq (grouping_of pp o e).fingerprint f && str_eq e.0 c) visited
          (ground (arith, both)) in
      let same_f : (grouping_of pp o e).fingerprint ≡ f =
        eq_of_str_eq (grouping_of pp o e).fingerprint f (ground arith) in
      let same_c : e.0 ≡ c = eq_of_str_eq e.0 c (ground arith) in
      let allowed : ports_allow (Option.get_or (get f (groups pp o visited).slices) []) t ≡ true =
        ground (arith, both) in
      let set : set_allows t e.1 ≡ true =
        sym (slice_of_fingerprint t e n)
        ∙ (ap (λ (g : Text). ports_allow (Option.get_or (get g (groups pp o visited).slices) []) t)
              same_f
            ∙ allowed) in
      let at_key = get-mem e.0 e.1 m unique (mem-perm (o.range-perm 1 m) n) in
      let at_c : get c m ≡ some e.1 = ap (λ (k : Text). get k m) (sym same_c) ∙ at_key in
      map_allows-some t c e.1 m at_c ∙ set

  regroup_complete :
      (c : Text) (t : Traffic) → map_allows t c m ≡ true → egress_allows (regroup pp o m) c t ≡ true
  regroup_complete c t h = elim (Option-cases (get c m)) [
    | inl e ↦ absurd (cc (nothing_allowed t c m e, h))
    | inr (ps, e) ↦
        let n = mem-perm (PermD.symm (o.range-perm 1 m)) (mem-get c ps m e) in
        let f = (grouping_of pp o (c, ps)).fingerprint in
        let present =
          is_some-filled pp o visited f
          ∙ any_intro (λ d. str_eq (grouping_of pp o d).fingerprint f) visited n (str_eq_refl f) in
        let (cs, found) = get_of_is_some f (filled pp o visited) present in
        let set = sym (map_allows-some t c ps m e) ∙ h in
        let listed =
          any_intro (λ d. str_eq (grouping_of pp o d).fingerprint f && str_eq d.0 c) visited n
            (ground (arith, str_eq_refl f, str_eq_refl c)) in
        let allowed = slice_of_fingerprint t (c, ps) n ∙ set in
        regroup_as_any c t
        ∙ any_intro _ (keys (filled pp o visited))
            (mem-keys f cs (filled pp o visited) (mem-get f cs _ found))
            (build_rule_allows pp o c t f visited ∙ ground (arith, listed, allowed))
  ]

  -- Phases 2 to 4 allow what the port sets allow.
  pub regroup_allows :
      (c : Text) (t : Traffic) → egress_allows (regroup pp o m) c t ≡ map_allows t c m
  regroup_allows c t = Bool-ext _ _ (regroup_sound c t) (regroup_complete c t)

module _ (pp : PortPrinter) (rules : List Rule) (supported : AllSupported rules)
    (agree : KeysAgree pp rules) where
  HasPort-IsSupported : (p : Port) → HasPort rules p → IsSupported p
  HasPort-IsSupported p (r, m, n) =
      All_mem IsSupported r.ports
        (All_mem (λ (r : Rule). All IsSupported r.ports) rules supported m) n

  pub rules_universe : Universe pp (HasPort rules)
  rules_universe = record { supported = HasPort-IsSupported; agree = agree }

  pub ports_of_rules : All (λ (r : Rule). All (HasPort rules) r.ports) rules
  ports_of_rules = All-of_mem _ rules λ r m. All-of_mem (HasPort rules) r.ports λ p n. (r, m, n)

-- The deduplication keeps the traffic that the egress rules allow: to a CIDR that is not empty, the new
-- rules allow exactly what the old ones allowed, whatever order the runtime gives to the maps. The
-- ports are TCP, UDP or SCTP with a number or none, and no two ports of the policy have the same
-- protocol and port and different end ports.
pub egress_allows-dedupe :
    (pp : PortPrinter) (o : RangeOrder) (rules : List Rule) (c : Text) (t : Traffic)
    → AllSupported rules
    → KeysAgree pp rules
    → c ≢ []
    → egress_allows (dedupe pp o rules) c t ≡ egress_allows rules c t
unfolding dedupe
egress_allows-dedupe pp o rules c t supported agree h =
    let U = HasPort rules in
    let universe = rules_universe pp rules supported agree in
    let g = collect_lem pp U universe rules (ports_of_rules pp rules supported agree) in
    let m = collect pp rules [] in
    regroup_allows pp o U universe (absorb_all m) (absorb_all-AllGood pp U universe m g.good)
      (absorb_all-UniqueKeys m g.unique) c t
    ∙ (map_allows-absorb_all pp U universe t c m g.good
        ∙ (g.allows t c h
            ∙ ap (λ (b : Bool). b || egress_allows rules c t)
                (nothing_allowed t c [] (unfold get in refl))))
