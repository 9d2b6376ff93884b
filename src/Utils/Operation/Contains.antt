-- ===== src/Utils/Operation/Contains.antt =====
-- MapContains against the entries of the two maps.
use fqdn_egress_operator.Base.{
  suc, ◌≤◌, Text, str_eq, str_eq_iff, eq_of_str_eq, true, false, [], ◌∷◌, Option, none, some,
  length, ◌≡◌, ◌↔◌, refl, ap, sym, ◌∙◌, inl, inr, arith, All, All_mem, All-of_mem, mem-perm,
  Bool-cases,
}
use mathlib.Core.List.Permᴰ as PermD
use fqdn_egress_operator.Base.Dict.{
  Dict, get, get-mem, mem-get, UniqueKeys, delete_where, get-delete_where, delete_where-UniqueKeys,
}
use fqdn_egress_operator.Base.Range.{RangeOrder}
use fqdn_egress_operator.Utils.Operation.{has_value, contains_all, map_contains}

-- The key of an entry has its value in the map.
abbrev Has : Dict Text → Text × Text → Type 0
Has m e = get e.0 m ≡ some e.1

has_value_iff : (o : Option Text) (v : Text) → (has_value o v ≡ true) ↔ (o ≡ some v)
has_value_iff none v = ((λ h. absurd (cc h)), (λ h. absurd (cc h)))
has_value_iff (some a) v =
    ((λ h. ap some (eq_of_str_eq a v h)), λ h. ground (arith, h, str_eq_iff a v))

contains_all_iff : (m entries : Dict Text) → (contains_all m entries ≡ true) ↔ All (Has m) entries
unfolding contains_all
contains_all_iff m [] = ((λ _. tt), λ _. refl)
contains_all_iff m ((k, v) ∷ rest) =
    let ih = contains_all_iff m rest in
    let one = has_value_iff (get k m) v in
    (
      (λ h. elim (Bool-cases (has_value (get k m) v)) [
        | inl e ↦ (one.0 e, ih.0 (ground (arith, h, e)))
        | inr e ↦ absurd (ground (arith, h, e))
      ]),
      λ h. ground (arith, one.1 h.0, ih.1 h.1),
    )

delete_absent : (k : Text) (m : Dict Text) → get k m ≡ none → delete_where (str_eq k) m ≡ m
unfolding delete_where get
delete_absent k [] h = refl
delete_absent k ((j, w) ∷ m) h =
    ground (arith, h, str_eq_iff k j, str_eq_iff j k, delete_absent k m)

-- Without the one entry of a key, a map is one entry shorter.
length-delete :
    (k v : Text) (m : Dict Text)
    → UniqueKeys m
    → get k m ≡ some v
    → length m ≡ suc (length (delete_where (str_eq k) m))
unfolding delete_where get
length-delete k v [] u h = absurd (cc h)
length-delete k v ((j, w) ∷ m) u h = elim (Bool-cases (str_eq j k)) [
  | inl e ↦
      let gone : get k m ≡ none = ap (λ (t : Text). get t m) (sym (eq_of_str_eq j k e)) ∙ u.0 in
      ground (arith, e, str_eq_iff k j, str_eq_iff j k, ap length (delete_absent k m gone))
  | inr e ↦ ground (arith, e, str_eq_iff k j, str_eq_iff j k, h, length-delete k v m u.1)
]

-- A map whose entries all stand in another one is not longer.
length-contained :
    (sub sup : Dict Text)
    → UniqueKeys sub
    → UniqueKeys sup
    → All (Has sup) sub
    → length sub ≤ length sup
length-contained [] sup u w h = omega arith
length-contained ((k, v) ∷ rest) sup u w h =
    let left = delete_where (str_eq k) sup in
    let others : All (Has left) rest = All-of_mem (Has left) rest λ (j, x) n.
      let in_sup = All_mem (Has sup) rest h.1 n in
      let in_rest = get-mem j x rest u.1 n in
      ground (arith, get-delete_where (str_eq k) j sup, in_sup, other_key k j x rest u.0 in_rest) in
    omega (
      arith,
      length-contained rest left u.1 (delete_where-UniqueKeys (str_eq k) sup w) others,
      length-delete k v sup w h.0,
    )
  where
    other_key :
        (k j x : Text) (rest : Dict Text)
        → get k rest ≡ none
        → get j rest ≡ some x
        → str_eq k j ≡ false
    other_key k j x rest a b = elim (Bool-cases (str_eq k j)) [
      | inl e ↦ absurd (cc (a, b, ap (λ (t : Text). get t rest) (eq_of_str_eq k j e)))
      | inr e ↦ e
    ]

-- MapContains answers true exactly when every key of the subset has in the superset the value that it
-- has in the subset, whatever order the runtime gives to the map; for maps with each key once.
pub map_contains_iff :
    (o : RangeOrder) (superset subset : Dict Text)
    → UniqueKeys superset
    → UniqueKeys subset
    → (map_contains o superset subset ≡ true)
      ↔ ((k v : Text) → get k subset ≡ some v → get k superset ≡ some v)
unfolding map_contains
map_contains_iff o superset subset u w =
    let all = contains_all_iff superset (o.range 8 subset) in
    (
      (λ h k v e.
          let ok : contains_all superset (o.range 8 subset) ≡ true = ground (arith, h) in
          All_mem (Has superset) (o.range 8 subset) (all.0 ok)
            (mem-perm (PermD.symm (o.range-perm 8 subset)) (mem-get k v subset e))),
      λ h.
          let inside : All (Has superset) subset =
            All-of_mem (Has superset) subset λ (k, v) n. h k v (get-mem k v subset w n) in
          let visited =
            All-of_mem (Has superset) (o.range 8 subset)
              λ (k, v) n. h k v (get-mem k v subset w (mem-perm (o.range-perm 8 subset) n)) in
          ground (arith, length-contained subset superset w u inside, all.1 visited),
    )
