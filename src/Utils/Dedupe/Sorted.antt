-- ===== src/Utils/Dedupe/Sorted.antt =====
-- Port slices under two orders in which Go visits a port set, and under one fingerprint.
use mathlib.Core.List.{Permᴰ}
use mathlib.Core.List.Permᴰ as PermD
use mathlib.Core.Path.{subst}
use fqdn_egress_operator.Base.{
  Text, str_lt, Bool, not, ◌&&◌, List, [], ◌∷◌, map, null, ◌≡◌, refl, ap, sym, ◌∙◌, inl, inr, arith,
  All, All_mem, Memᴰ, Bool-cases, mem-map_elim, mem-perm,
}
use fqdn_egress_operator.Base.Sort.{
  insert_by, sort_by, sort_by-perm, sort_by_of_perm, str_order, str-Comparable, Comparable,
  StrictOrder,
}
use fqdn_egress_operator.Base.Dict.{Dict, values}
use fqdn_egress_operator.Base.Range.{RangeOrder}
use fqdn_egress_operator.Multi.{PortPrinter, Port}
use fqdn_egress_operator.Utils.Dedupe.{single_port_key, ports_fingerprint, PortSet, port_slice}
use fqdn_egress_operator.Utils.Dedupe.Collect.{Universe, IsGood, Keyed}
use fqdn_egress_operator.Utils.Dedupe.Slices.{fingerprint_same_keys, port_slice-All, values-perm}

-- Ports in the order of their keys, and the keys of a sorted list
module _ (pp : PortPrinter) where
  abbrev key : Port → Text
  key = single_port_key pp

  abbrev key_less : Port → Port → Bool
  key_less p q = str_lt (key p) (key q)

  map-insert_by :
      (p : Port) (ps : List Port)
      → map key (insert_by key_less p ps) ≡ insert_by str_lt (key p) (map key ps)
  unfolding insert_by
  map-insert_by p [] = refl
  map-insert_by p (q ∷ ps) = ground (arith, map-insert_by p ps)

  map-sort_by : (ps : List Port) → map key (sort_by key_less ps) ≡ sort_by str_lt (map key ps)
  unfolding sort_by
  map-sort_by [] = refl
  map-sort_by (p ∷ ps) =
      map-insert_by p (sort_by key_less ps) ∙ ap (insert_by str_lt (key p)) (map-sort_by ps)

  -- The keys of a sorted list are sorted already.
  sort_keys :
      (ps : List Port)
      → sort_by str_lt (map key (sort_by key_less ps)) ≡ map key (sort_by key_less ps)
  sort_keys ps =
      ap (sort_by str_lt) (map-sort_by ps)
      ∙ (sort_by_of_perm str_lt str_order (sort_by-perm str_lt (map key ps))
            (λ x y _ _. str-Comparable x y)
          ∙ sym (map-sort_by ps))

  key_order : StrictOrder key_less
  key_order = record {
    irrefl = λ p. str_order.irrefl (key p);
    trans = λ p q r. str_order.trans (key p) (key q) (key r);
    neg_trans = λ p q r. str_order.neg_trans (key p) (key q) (key r);
  }

-- What the ports of the policy need for a result that is one: a key has one port.
abbrev pub OnePerKey : PortPrinter → (Port → Type 0) → Type 0
OnePerKey pp U = (p q : Port) → U p → U q → single_port_key pp p ≡ single_port_key pp q → p ≡ q

module _ (pp : PortPrinter) (U : Port → Type 0) (universe : Universe pp U)
    (one : OnePerKey pp U) where
  same_keys :
      (ps qs : List Port)
      → All U ps
      → All U qs
      → map (single_port_key pp) ps ≡ map (single_port_key pp) qs
      → ps ≡ qs
  same_keys [] [] u v e = refl
  same_keys [] (q ∷ qs) u v e = absurd (cc e)
  same_keys (p ∷ ps) [] u v e = absurd (cc e)
  same_keys (p ∷ ps) (q ∷ qs) u v e =
      let tails : ps ≡ qs = same_keys ps qs u.1 v.1 (ground (arith, e)) in
      let heads : p ≡ q = one p q u.0 v.0 (ground (arith, e)) in cc (heads, tails)

  Keyed-mem :
      (m : Dict Port) {p : Port} → Keyed pp U m → Memᴰ p (map (λ (e : Text × Port). e.1) m) → U p
  Keyed-mem m k n =
      let (e, h, same) = mem-map_elim (λ (e : Text × Port). e.1) m n in
      subst U same (All_mem (λ (e : Text × Port). (e.0 ≡ single_port_key pp e.1) × U e.1) m k h).1

  compare_ports : (p q : Port) → U p → U q → Comparable (key_less pp) p q
  compare_ports p q u v = elim (str-Comparable (key pp p) (key pp q)) [
    | inl h ↦ inl h
    | inr h ↦ elim h [ inl l ↦ inr (inl l) | inr e ↦ inr (inr (one p q u v e)) ]
  ]

  -- The slice of a set does not depend on the order.
  pub port_slice_order :
      (o o' : RangeOrder) (ps : PortSet) → IsGood pp U ps → port_slice pp o ps ≡ port_slice pp o' ps
  unfolding port_slice
  port_slice_order o o' ps g = elim (Bool-cases (not ps.allow_all && not (null ps.ports))) [
    | inr e ↦ rw e refl
    | inl e ↦
        let same =
          sort_by_of_perm (key_less pp) (key_order pp)
            (Permᴰ.trans (values-perm pp o ps.ports) (PermD.symm (values-perm pp o' ps.ports)))
            (λ p q m n.
              compare_ports p q
                (Keyed-mem ps.ports g.keyed (mem-perm (values-perm pp o ps.ports) m))
                (Keyed-mem ps.ports g.keyed (mem-perm (values-perm pp o ps.ports) n))) in
        rw e same
  ]

  -- The slice of a set is in the order of its keys.
  port_slice-keys :
      (o : RangeOrder) (ps : PortSet)
      → sort_by str_lt (map (key pp) (port_slice pp o ps)) ≡ map (key pp) (port_slice pp o ps)
  unfolding port_slice
  port_slice-keys o ps = elim (Bool-cases (not ps.allow_all && not (null ps.ports))) [
    | inr e ↦ rw e (unfold sort_by in refl)
    | inl e ↦ rw e (sort_keys pp (values (o.range 2 ps.ports)))
  ]

  -- Sets of one fingerprint have one slice.
  pub fingerprint_slice :
      (o : RangeOrder) (ps qs : PortSet)
      → IsGood pp U ps
      → IsGood pp U qs
      → ports_fingerprint pp (port_slice pp o ps) ≡ ports_fingerprint pp (port_slice pp o qs)
      → port_slice pp o ps ≡ port_slice pp o qs
  fingerprint_slice o ps qs g h e =
      let u = port_slice-All pp o U ps g in
      let v = port_slice-All pp o U qs h in
      let keys_same =
        fingerprint_same_keys pp U universe (port_slice pp o ps) (port_slice pp o qs) u v e in
      same_keys (port_slice pp o ps) (port_slice pp o qs) u v
        (sym (port_slice-keys o ps) ∙ (keys_same ∙ port_slice-keys o qs))
