-- ===== src/Utils/Dedupe/Order.antt =====
-- RemoveDuplicateCIDRsInMultiNetworkPolicy under two orders in which Go visits its maps.
use mathlib.Core.List.{Permᴰ}
use mathlib.Core.List.Permᴰ as PermD
use mathlib.Core.Path.{subst}
use mathlib.Core.Option
use fqdn_egress_operator.Base.{
  ◌<◌, Text, str_eq, str_eq_iff, str_lt, Bool, true, List, [], ◌∷◌, map, Option, if◌then◌else◌, ◌≡◌,
  refl, ap, sym, ◌∙◌, inl, inr, any, any-perm, any_congr, arith, All_mem, Memᴰ, Bool-cases,
  mem-perm, map-perm,
}
use fqdn_egress_operator.Base.Counts.{perm_of_counts}
use fqdn_egress_operator.Base.Keys.{keys-perm, count-keys}
use fqdn_egress_operator.Base.Sum.{count_if}
use fqdn_egress_operator.Base.Sort.{
  sort_by, sort_by-perm, sort_by_of_perm, str_order, str-Comparable,
}
use fqdn_egress_operator.Base.Dict.{Dict, get, keys}
use fqdn_egress_operator.Base.Range.{RangeOrder}
use fqdn_egress_operator.Multi.{PortPrinter, Port, Rule}
use fqdn_egress_operator.Utils.Dedupe.{
  single_port_key, ports_fingerprint, PortSet, Grouping, port_slice, build_rule, regroup, dedupe,
  collect, absorb_all, no_groups,
}
use fqdn_egress_operator.Utils.Dedupe.Traffic.{AllSupported, HasPort, KeysAgree}
use fqdn_egress_operator.Utils.Dedupe.Collect.{Universe, IsGood, AllGood}
use fqdn_egress_operator.Utils.Dedupe.Access.{rules_universe, ports_of_rules}
use fqdn_egress_operator.Utils.Dedupe.Rules.{collect_lem}
use fqdn_egress_operator.Utils.Dedupe.Absorb.{absorb_all-AllGood}
use fqdn_egress_operator.Utils.Dedupe.Group.{
  grouping_of, cidrs_of, groups, filled, filled-UniqueKeys, get-filled, is_some-filled, slices_some,
  slices-group,
}
use fqdn_egress_operator.Utils.Dedupe.Sorted.{OnePerKey, port_slice_order, fingerprint_slice}

count_of_mem : (f : Text) (xs : List Text) → Memᴰ f xs → 0 < count_if (str_eq f) xs
unfolding count_if
count_of_mem f [] m = elim m [ ]
count_of_mem f (x ∷ xs) (Memᴰ.head e) = ground (arith, str_eq_iff f x, e)
count_of_mem f (x ∷ xs) (Memᴰ.tail m) = omega (arith, count_of_mem f xs m)

map_congr :
    {A B : Type 0} (f g : A → B) (xs : List A)
    → ((x : A) → Memᴰ x xs → f x ≡ g x)
    → map f xs ≡ map g xs
map_congr f g [] h = refl
map_congr f g (x ∷ xs) h = cc (h x (Memᴰ.head refl), map_congr f g xs (λ y m. h y (Memᴰ.tail m)))

-- One step of `cidrs_of`
abbrev add_cidr : Text → Grouping → List Text → List Text
add_cidr f g rest = if str_eq g.fingerprint f then g.cidr ∷ rest else rest

add_cidr-perm :
    (f : Text) (g : Grouping) {xs ys : List Text}
    → Permᴰ xs ys
    → Permᴰ (add_cidr f g xs) (add_cidr f g ys)
add_cidr-perm f g d = elim (Bool-cases (str_eq g.fingerprint f)) [
  | inl t ↦ rw t (Permᴰ.cons refl d)
  | inr t ↦ rw t d
]

add_cidr-swap :
    (f : Text) (g h : Grouping) (xs : List Text)
    → Permᴰ (add_cidr f g (add_cidr f h xs)) (add_cidr f h (add_cidr f g xs))
add_cidr-swap f g h xs = elim (Bool-cases (str_eq g.fingerprint f)) [
  | inr t ↦ rw t (PermD.refl (add_cidr f h xs))
  | inl t ↦ elim (Bool-cases (str_eq h.fingerprint f)) [
    | inr u ↦ rw (t, u) (PermD.refl (g.cidr ∷ xs))
    | inl u ↦ rw (t, u) (Permᴰ.swap refl refl)
  ]
]

cidrs_of-perm :
    (f : Text) {gs hs : List Grouping} → Permᴰ gs hs → Permᴰ (cidrs_of f gs) (cidrs_of f hs)
unfolding cidrs_of
cidrs_of-perm f Permᴰ.nil = Permᴰ.nil
cidrs_of-perm f (Permᴰ.cons {a = a} {l₁ = gs} {l₂ = hs} e d) =
    subst (λ (g : Grouping). Permᴰ (cidrs_of f (a ∷ gs)) (cidrs_of f (g ∷ hs))) e
      (add_cidr-perm f a (cidrs_of-perm f d))
cidrs_of-perm f (Permᴰ.swap {a = a} {b = b} {b' = b'} {l = gs} e d) =
    subst (λ (g : Grouping). Permᴰ (cidrs_of f (a ∷ b ∷ gs)) (cidrs_of f (g ∷ b' ∷ gs))) d
      (subst (λ (h : Grouping). Permᴰ (cidrs_of f (a ∷ b ∷ gs)) (cidrs_of f (b ∷ h ∷ gs))) e
        (add_cidr-swap f a b (cidrs_of f gs)))
cidrs_of-perm f (Permᴰ.trans d e) = Permᴰ.trans (cidrs_of-perm f d) (cidrs_of-perm f e)

module _ (pp : PortPrinter) (U : Port → Type 0) (universe : Universe pp U) (one : OnePerKey pp U)
    (o o' : RangeOrder) (m : Dict PortSet) (good : AllGood pp U m) where
  IsGood-visited : (r : RangeOrder) (e : Text × PortSet) → Memᴰ e (r.range 1 m) → IsGood pp U e.1
  IsGood-visited r e n =
      All_mem (λ (e : Text × PortSet). IsGood pp U e.1) m good (mem-perm (r.range-perm 1 m) n)

  visits-perm : Permᴰ (o.range 1 m) (o'.range 1 m)
  visits-perm = Permᴰ.trans (o.range-perm 1 m) (PermD.symm (o'.range-perm 1 m))

  grouping_same :
      (e : Text × PortSet) → Memᴰ e (o.range 1 m) → grouping_of pp o e ≡ grouping_of pp o' e
  grouping_same e n =
      ap (λ (ps : List Port). record { cidr = e.0; fingerprint = ports_fingerprint pp ps })
        (port_slice_order pp U universe one o o' e.1 (IsGood-visited o e n))

  groupings-perm :
      Permᴰ (map (grouping_of pp o) (o.range 1 m)) (map (grouping_of pp o') (o'.range 1 m))
  groupings-perm =
      subst (λ (l : List Grouping). Permᴰ l (map (grouping_of pp o') (o'.range 1 m)))
        (sym (map_congr (grouping_of pp o) (grouping_of pp o') (o.range 1 m) grouping_same))
        (map-perm (grouping_of pp o') visits-perm)

  has_fingerprint_same :
      (f : Text)
      → any (λ e. str_eq (grouping_of pp o e).fingerprint f) (o.range 1 m)
        ≡ any (λ e. str_eq (grouping_of pp o' e).fingerprint f) (o'.range 1 m)
  has_fingerprint_same f =
      any_congr (λ e. str_eq (grouping_of pp o e).fingerprint f)
        (λ e. str_eq (grouping_of pp o' e).fingerprint f) (o.range 1 m)
        (λ e n. ap (λ (g : Grouping). str_eq g.fingerprint f) (grouping_same e n))
      ∙ any-perm (λ e. str_eq (grouping_of pp o' e).fingerprint f) visits-perm

  count-fingerprints :
      (r : RangeOrder) (f : Text)
      → count_if (str_eq f) (keys (filled pp r (r.range 1 m)))
        ≡ (if any (λ e. str_eq (grouping_of pp r e).fingerprint f) (r.range 1 m) then 1 else 0)
  count-fingerprints r f =
      count-keys f (filled pp r (r.range 1 m)) (filled-UniqueKeys pp r (r.range 1 m))
      ∙ ap (λ (b : Bool). if b then 1 else 0) (is_some-filled pp r (r.range 1 m) f)

  fingerprints-perm : Permᴰ (keys (filled pp o (o.range 1 m))) (keys (filled pp o' (o'.range 1 m)))
  fingerprints-perm =
      perm_of_counts (keys (filled pp o (o.range 1 m))) (keys (filled pp o' (o'.range 1 m))) λ f.
        count-fingerprints o f
        ∙ (ap (λ (b : Bool). if b then 1 else 0) (has_fingerprint_same f)
            ∙ sym (count-fingerprints o' f))

  fingerprint_visited :
      (f : Text)
      → Memᴰ f (keys (filled pp o (o.range 1 m)))
      → any (λ e. str_eq (grouping_of pp o e).fingerprint f) (o.range 1 m) ≡ true
  fingerprint_visited f n =
      ground (arith, count_of_mem f (keys (filled pp o (o.range 1 m))) n, count-fingerprints o f)

  -- The slice that phase 2 keeps for a fingerprint is the one of some CIDR that has it.
  kept_slice :
      (r : RangeOrder) (f : Text)
      → any (λ e. str_eq (grouping_of pp r e).fingerprint f) (r.range 1 m) ≡ true
      → (e : Text × PortSet) × Memᴰ e (r.range 1 m)
        × ((grouping_of pp r e).fingerprint ≡ f)
        × (Option.get_or (get f (groups pp r (r.range 1 m)).slices) [] ≡ port_slice pp r e.1)
  kept_slice r f h =
      let (s, found) = slices_some pp r f (r.range 1 m) no_groups h in
      elim (slices-group pp r f s (r.range 1 m) no_groups found) [
        | inl none_yet ↦ absurd (unfold get in ground (arith, none_yet))
        | inr (e, n, same_f, same_s) ↦
            (e, n, same_f, ap (λ (x : Option (List Port)). Option.get_or x []) found ∙ sym same_s)
      ]

  slices_same :
      (f : Text)
      → any (λ e. str_eq (grouping_of pp o e).fingerprint f) (o.range 1 m) ≡ true
      → Option.get_or (get f (groups pp o (o.range 1 m)).slices) []
        ≡ Option.get_or (get f (groups pp o' (o'.range 1 m)).slices) []
  slices_same f h =
      let (d, n, fd, sd) = kept_slice o f h in
      let (e, k, fe, se) = kept_slice o' f (sym (has_fingerprint_same f) ∙ h) in
      let e_good = IsGood-visited o' e k in
      let across = port_slice_order pp U universe one o o' e.1 e_good in
      let prints : ports_fingerprint pp (port_slice pp o d.1)
          ≡ ports_fingerprint pp (port_slice pp o e.1) =
        fd ∙ (sym fe ∙ ap (ports_fingerprint pp) (sym across)) in
      sd
      ∙ (fingerprint_slice pp U universe one o d.1 e.1 (IsGood-visited o d n) e_good prints
          ∙ (across ∙ sym se))

  rules_same :
      (f : Text)
      → any (λ e. str_eq (grouping_of pp o e).fingerprint f) (o.range 1 m) ≡ true
      → build_rule (filled pp o (o.range 1 m)) (groups pp o (o.range 1 m)).slices f
        ≡ build_rule (filled pp o' (o'.range 1 m)) (groups pp o' (o'.range 1 m)).slices f
  unfolding build_rule
  rules_same f h =
      let cidrs =
        sort_by_of_perm str_lt str_order (cidrs_of-perm f groupings-perm)
          (λ x y _ _. str-Comparable x y) in
      let to =
        ap (sort_by str_lt) (get-filled pp o (o.range 1 m) f)
        ∙ (cidrs ∙ ap (sort_by str_lt) (sym (get-filled pp o' (o'.range 1 m) f))) in
      cc (slices_same f h, to)

  regroup_order : regroup pp o m ≡ regroup pp o' m
  unfolding regroup
  regroup_order =
      let all = keys-perm _ _ (o.range-perm 4 (filled pp o (o.range 1 m))) in
      let all' = keys-perm _ _ (o'.range-perm 4 (filled pp o' (o'.range 1 m))) in
      let fs = sort_by str_lt (keys (o.range 4 (filled pp o (o.range 1 m)))) in
      let order =
        sort_by_of_perm str_lt str_order
          (Permᴰ.trans all (Permᴰ.trans fingerprints-perm (PermD.symm all')))
          (λ x y _ _. str-Comparable x y) in
      map_congr (build_rule (filled pp o (o.range 1 m)) (groups pp o (o.range 1 m)).slices)
        (build_rule (filled pp o' (o'.range 1 m)) (groups pp o' (o'.range 1 m)).slices) fs
        (λ f n.
          rules_same f (fingerprint_visited f (mem-perm all (mem-perm (sort_by-perm str_lt _) n))))
      ∙ ap (map (build_rule (filled pp o' (o'.range 1 m)) (groups pp o' (o'.range 1 m)).slices))
          order

-- No two ports of the section that differ have one protocol and port.
abbrev pub KeysDetermine : PortPrinter → List Rule → Type 0
KeysDetermine pp rules =
    (p q : Port)
    → HasPort rules p
    → HasPort rules q
    → single_port_key pp p ≡ single_port_key pp q
    → p ≡ q

-- The deduplicated rules are the same whatever order the runtime gives to the maps. The ports are
-- TCP, UDP or SCTP with a number or none, and no two different ports of the policy have the same
-- protocol and port.
pub dedupe_order :
    (pp : PortPrinter) (o o' : RangeOrder) (rules : List Rule)
    → AllSupported rules
    → KeysDetermine pp rules
    → dedupe pp o rules ≡ dedupe pp o' rules
unfolding dedupe
dedupe_order pp o o' rules supported determine =
    let agree : KeysAgree pp rules =
      λ p q h k e. ap (λ (x : Port). x.end_port) (determine p q h k e) in
    let universe = rules_universe pp rules supported agree in
    let g =
      collect_lem pp (HasPort rules) universe rules (ports_of_rules pp rules supported agree) in
    let m = collect pp rules [] in
    regroup_order pp (HasPort rules) universe determine o o' (absorb_all m)
      (absorb_all-AllGood pp (HasPort rules) universe m g.good)
