-- ===== src/Utils/Dedupe/Group.antt =====
-- Phases 2 and 3: which CIDRs stand under a fingerprint, and with which ports.
use mathlib.Core.Option
use mathlib.Core.List.{append-nil, append_assoc}
use fqdn_egress_operator.Base.{
  ℕ, ◌+◌, Text, str_eq, str_eq_iff, eq_of_str_eq, true, ◌||◌, List, [], ◌∷◌, ◌++◌, map,
  if◌then◌else◌, ◌≡◌, refl, ap, sym, ◌∙◌, inl, inr, ◌⊎◌, any, any-perm, any-map, arith, Memᴰ,
  Bool-cases, Option-cases, Option, some, is_some,
}
use fqdn_egress_operator.Base.Dict.{Dict, get, put, get-put, UniqueKeys, put-UniqueKeys}
use fqdn_egress_operator.Base.Keys.{any-keys, is_some-put}
use fqdn_egress_operator.Base.Range.{RangeOrder}
use fqdn_egress_operator.Multi.{PortPrinter, Port}
use fqdn_egress_operator.Utils.Dedupe.{
  ports_fingerprint, PortSet, port_slice, Grouping, Groups, no_groups, group_one, group,
  start_cidrs, fill_cidrs,
}

-- The grouping that phase 2 makes of a CIDR and its port set.
abbrev pub grouping_of : PortPrinter → RangeOrder → Text × PortSet → Grouping
grouping_of pp o e = record { cidr = e.0; fingerprint = ports_fingerprint pp (port_slice pp o e.1) }

-- The CIDRs under a fingerprint, in order.
unfoldable pub cidrs_of : Text → List Grouping → List Text
cidrs_of f [] = []
cidrs_of f (g ∷ gs) =
    let rest = cidrs_of f gs in if str_eq g.fingerprint f then g.cidr ∷ rest else rest

module _ (pp : PortPrinter) (o : RangeOrder) where
  pub groupings-group :
      (m : Dict PortSet) (g : Groups)
      → (group pp o m g).groupings ≡ g.groupings ++ map (grouping_of pp o) m
  unfolding group group_one
  groupings-group [] g = sym (append-nil g.groupings)
  groupings-group ((c, ps) ∷ m) g =
      groupings-group m (group_one pp o c ps g) ∙ append_assoc g.groupings _ _

  pub is_some-counts :
      (f : Text) (m : Dict PortSet) (g : Groups)
      → is_some (get f (group pp o m g).counts)
        ≡ (is_some (get f g.counts) || any (λ e. str_eq (grouping_of pp o e).fingerprint f) m)
  unfolding group any group_one
  is_some-counts f [] g = ground arith
  is_some-counts f ((c, ps) ∷ m) g =
      let k = (grouping_of pp o (c, ps)).fingerprint in
      let p = is_some-put k f (Option.get_or (get k g.counts) 0 + 1) g.counts in
      is_some-counts f m (group_one pp o c ps g) ∙ ground (arith, p)

  is_some-slices :
      (f : Text) (m : Dict PortSet) (g : Groups)
      → is_some (get f (group pp o m g).slices)
        ≡ (is_some (get f g.slices) || any (λ e. str_eq (grouping_of pp o e).fingerprint f) m)
  unfolding group any group_one
  is_some-slices f [] g = ground arith
  is_some-slices f ((c, ps) ∷ m) g =
      let k = (grouping_of pp o (c, ps)).fingerprint in
      let p = is_some-put k f (port_slice pp o ps) g.slices in
      is_some-slices f m (group_one pp o c ps g)
      ∙ ground
          (arith, p, str_eq_iff k f, λ (e : k ≡ f). ap (λ (j : Text). is_some (get j g.slices)) e)

  slices-group_one :
      (f : Text) (s : List Port) (c : Text) (ps : PortSet) (g : Groups)
      → get f (group_one pp o c ps g).slices ≡ some s
      → (get f g.slices ≡ some s)
        ⊎ (((grouping_of pp o (c, ps)).fingerprint ≡ f) × (port_slice pp o ps ≡ s))
  unfolding group_one
  slices-group_one f s c ps g h =
      let k = (grouping_of pp o (c, ps)).fingerprint in
      ground (arith, get-put k f (port_slice pp o ps) g.slices, eq_of_str_eq k f)

  -- A slice that phase 2 records is the slice of a CIDR of that fingerprint.
  pub slices-group :
      (f : Text) (s : List Port) (m : Dict PortSet) (g : Groups)
      → get f (group pp o m g).slices ≡ some s
      → (get f g.slices ≡ some s)
        ⊎ ((e : Text × PortSet) × Memᴰ e m
            × ((grouping_of pp o e).fingerprint ≡ f)
            × (port_slice pp o e.1 ≡ s))
  unfolding group
  slices-group f s [] g h = inl h
  slices-group f s ((c, ps) ∷ m) g h = elim (slices-group f s m (group_one pp o c ps g) h) [
    | inr (e, n, p, q) ↦ inr (e, Memᴰ.tail n, p, q)
    | inl k ↦ first k
  ]
    where
      first :
          get f (group_one pp o c ps g).slices ≡ some s
          → (get f g.slices ≡ some s)
            ⊎ ((e : Text × PortSet) × Memᴰ e ((c, ps) ∷ m)
                × ((grouping_of pp o e).fingerprint ≡ f)
                × (port_slice pp o e.1 ≡ s))
      first k = elim (slices-group_one f s c ps g k) [
        | inl q ↦ inl q
        | inr q ↦ inr ((c, ps), Memᴰ.head refl, q.0, q.1)
      ]

  -- Every fingerprint of a CIDR has a slice.
  pub slices_some :
      (f : Text) (m : Dict PortSet) (g : Groups)
      → any (λ e. str_eq (grouping_of pp o e).fingerprint f) m ≡ true
      → (s : List Port) × (get f (group pp o m g).slices ≡ some s)
  slices_some f m g h = elim (Option-cases (get f (group pp o m g).slices)) [
    | inr q ↦ q
    | inl e ↦ absurd (ground (arith, is_some-slices f m g))
  ]

-- Phase 3 puts every CIDR under its fingerprint, after those that were there.
pub get-fill_cidrs :
    (f : Text) (gs : List Grouping) (m : Dict (List Text))
    → Option.get_or (get f (fill_cidrs gs m)) [] ≡ Option.get_or (get f m) [] ++ cidrs_of f gs
unfolding fill_cidrs cidrs_of
get-fill_cidrs f [] m = sym (append-nil (Option.get_or (get f m) []))
get-fill_cidrs f (g ∷ gs) m =
    let k = g.fingerprint in
    let before = Option.get_or (get k m) [] in
    let m' = put k (before ++ (g.cidr ∷ [])) m in
    let now = get-put k f (before ++ (g.cidr ∷ [])) m in
    elim (Bool-cases (str_eq k f)) [
      | inl e ↦
          let q = eq_of_str_eq k f e in
          let hit : get f m' ≡ some (before ++ (g.cidr ∷ [])) = now ∙ rw e in
          rw e (
            get-fill_cidrs f gs m'
            ∙ (ap (λ (x : Option (List Text)). Option.get_or x [] ++ cidrs_of f gs) hit
                ∙ (append_assoc before (g.cidr ∷ []) (cidrs_of f gs)
                    ∙ ap (λ (j : Text). Option.get_or (get j m) [] ++ (g.cidr ∷ cidrs_of f gs)) q)))
      | inr e ↦
          let miss : get f m' ≡ get f m = now ∙ rw e in
          rw e (
            get-fill_cidrs f gs m'
            ∙ ap (λ (x : Option (List Text)). Option.get_or x [] ++ cidrs_of f gs) miss)
    ]

pub is_some-fill_cidrs :
    (f : Text) (gs : List Grouping) (m : Dict (List Text))
    → is_some (get f (fill_cidrs gs m))
      ≡ (is_some (get f m) || any (λ g. str_eq g.fingerprint f) gs)
unfolding fill_cidrs any
is_some-fill_cidrs f [] m = ground arith
is_some-fill_cidrs f (g ∷ gs) m =
    let k = g.fingerprint in
    let v = Option.get_or (get k m) [] ++ (g.cidr ∷ []) in
    is_some-fill_cidrs f gs (put k v m) ∙ ground (arith, is_some-put k f v m)

pub fill_cidrs-UniqueKeys :
    (gs : List Grouping) (m : Dict (List Text)) → UniqueKeys m → UniqueKeys (fill_cidrs gs m)
unfolding fill_cidrs
fill_cidrs-UniqueKeys [] m u = u
fill_cidrs-UniqueKeys (g ∷ gs) m u = fill_cidrs-UniqueKeys gs _ (put-UniqueKeys g.fingerprint _ m u)

start_cidrs-UniqueKeys :
    (cs : Dict ℕ) (m : Dict (List Text)) → UniqueKeys m → UniqueKeys (start_cidrs cs m)
unfolding start_cidrs
start_cidrs-UniqueKeys [] m u = u
start_cidrs-UniqueKeys ((f, n) ∷ cs) m u = start_cidrs-UniqueKeys cs _ (put-UniqueKeys f [] m u)

get-start_cidrs :
    (f : Text) (cs : Dict ℕ) (m : Dict (List Text))
    → ((j : Text) → Option.get_or (get j m) [] ≡ [])
    → Option.get_or (get f (start_cidrs cs m)) [] ≡ []
unfolding start_cidrs
get-start_cidrs f [] m h = h f
get-start_cidrs f ((k, n) ∷ cs) m h =
    get-start_cidrs f cs (put k [] m) λ j. ground (arith, get-put k j [] m, h j)

is_some-start_cidrs :
    (f : Text) (cs : Dict ℕ) (m : Dict (List Text))
    → is_some (get f (start_cidrs cs m))
      ≡ (is_some (get f m) || any (λ (e : Text × ℕ). str_eq e.0 f) cs)
unfolding start_cidrs any
is_some-start_cidrs f [] m = ground arith
is_some-start_cidrs f ((k, n) ∷ cs) m =
    is_some-start_cidrs f cs (put k [] m) ∙ ground (arith, is_some-put {V = List Text} k f [] m)

module _ (pp : PortPrinter) (o : RangeOrder) (m : Dict PortSet) where
  abbrev pub groups : Groups
  groups = group pp o m no_groups

  -- The map of phase 3: every fingerprint with its CIDRs.
  abbrev pub filled : Dict (List Text)
  filled = fill_cidrs groups.groupings (start_cidrs (o.range 3 groups.counts) [])

  pub filled-UniqueKeys : UniqueKeys filled
  filled-UniqueKeys = fill_cidrs-UniqueKeys groups.groupings _ (start_cidrs-UniqueKeys _ [] tt)

  -- Under a fingerprint stand the CIDRs that have it.
  pub get-filled :
      (f : Text) → Option.get_or (get f filled) [] ≡ cidrs_of f (map (grouping_of pp o) m)
  get-filled f =
      get-fill_cidrs f groups.groupings (start_cidrs (o.range 3 groups.counts) [])
      ∙ (ap (λ (l : List Text). l ++ cidrs_of f groups.groupings)
            (get-start_cidrs f (o.range 3 groups.counts) [] (λ j. unfold get in refl))
          ∙ ap (cidrs_of f) (groupings-group pp o m _))

  -- The fingerprints are those of the CIDRs.
  pub is_some-filled :
      (f : Text) → is_some (get f filled) ≡ any (λ e. str_eq (grouping_of pp o e).fingerprint f) m
  is_some-filled f =
      let start = is_some-start_cidrs f (o.range 3 groups.counts) [] in
      let order = any-perm (λ (e : Text × ℕ). str_eq e.0 f) (o.range-perm 3 groups.counts) in
      let counted = any-keys f groups.counts ∙ is_some-counts pp o f m no_groups in
      let grouped =
        ap (any (λ (g : Grouping). str_eq g.fingerprint f)) (groupings-group pp o m no_groups)
        ∙ any-map (λ (g : Grouping). str_eq g.fingerprint f) (grouping_of pp o) m in
      is_some-fill_cidrs f groups.groupings (start_cidrs (o.range 3 groups.counts) [])
      ∙ (unfold get in ground (arith, start, order, counted, grouped))
