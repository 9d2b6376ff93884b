-- ===== src/Utils/Dedupe/Slices.antt =====
-- The port slice of a CIDR and its fingerprint (getPortsFingerprint).
use mathlib.Core.List.{Permᴰ}
use mathlib.Core.List.Permᴰ as PermD
use mathlib.Core.Path.{subst}
use fqdn_egress_operator.Base.{
  Text, bytes, str_lt, join, Bool, true, false, not, ◌&&◌, List, [], ◌∷◌, map, null, ◌≡◌, refl, ap,
  sym, ◌∙◌, inl, inr, any, any-append, any_intro, any_elim, any-perm, any-map, Bool-ext, mem-map,
  mem-map_elim, mem-perm, map-perm, arith, All, All_mem, All-of_mem, Memᴰ, Bool-cases, ◌==◌,
}
use fqdn_egress_operator.Base.Split.{Free, split, split-join}
use fqdn_egress_operator.Base.Sort.{sort_by, sort_by-perm}
use fqdn_egress_operator.Base.Dict.{Dict, values}
use fqdn_egress_operator.Base.Range.{RangeOrder}
use fqdn_egress_operator.Multi.{PortPrinter, Port}
use fqdn_egress_operator.Utils.Dedupe.{
  single_port_key, protocol_of, ports_fingerprint, PortSet, port_slice,
}
use fqdn_egress_operator.Utils.Dedupe.Traffic.{Traffic, port_matches, ports_allow}
use fqdn_egress_operator.Utils.Dedupe.Keys.{key_no_comma, key_matches}
use fqdn_egress_operator.Utils.Dedupe.Collect.{set_allows, Universe, IsGood}

values-map : (m : Dict Port) → values m ≡ map (λ (e : Text × Port). e.1) m
values-map [] = refl
values-map ((k, p) ∷ m) = ap (◌∷◌ p) (values-map m)

perm_of_eq {ℓ} : {A : Type ℓ} {xs ys : List A} → xs ≡ ys → Permᴰ xs ys
perm_of_eq {xs = xs} e = subst (Permᴰ xs) e (PermD.refl xs)

-- A text with a colon in it, among those that are joined.
has_colon : Text → Bool
has_colon s = any (λ c. c == b':') s

has_colon-join :
    (ks : List Text) {k : Text}
    → Memᴰ k ks
    → has_colon k ≡ true
    → has_colon (join ks (bytes ",")) ≡ true
unfolding has_colon join any
has_colon-join [] m h = elim m [ ]
has_colon-join (j ∷ []) (Memᴰ.head e) h = subst (λ (s : Text). has_colon s ≡ true) e h
has_colon-join (j ∷ []) (Memᴰ.tail m) h = elim m [ ]
has_colon-join (j ∷ i ∷ ks) (Memᴰ.head e) h =
    let g : has_colon j ≡ true = subst (λ (s : Text). has_colon s ≡ true) e h in
    any-append (λ c. c == b':') j _ ∙ rw g
has_colon-join (j ∷ i ∷ ks) (Memᴰ.tail m) h =
    let g = has_colon-join (i ∷ ks) m h in any-append (λ c. c == b':') j _ ∙ ground (arith, g)

-- The keys that are joined can be read back.
keys_of_join :
    (ks js : List Text) {k j : Text}
    → Memᴰ k ks
    → Memᴰ j js
    → All (Free b',') ks
    → All (Free b',') js
    → join ks (bytes ",") ≡ join js (bytes ",")
    → ks ≡ js
keys_of_join [] js m n f g e = elim m [ ]
keys_of_join (k ∷ ks) [] m n f g e = elim n [ ]
keys_of_join (k ∷ ks) (j ∷ js) m n f g e =
    sym (split-join b',' k ks f.0 f.1) ∙ (ap (split b',') e ∙ split-join b',' j js g.0 g.1)

module _ (pp : PortPrinter) (U : Port → Type 0) (universe : Universe pp U) where
  sorted_keys : List Port → List Text
  sorted_keys ports = sort_by str_lt (map (single_port_key pp) ports)

  mem-sorted_keys :
      (ports : List Port) {q : Port}
      → Memᴰ q ports
      → Memᴰ (single_port_key pp q) (sorted_keys ports)
  unfolding sorted_keys
  mem-sorted_keys ports m =
      mem-perm (PermD.symm (sort_by-perm str_lt _)) (mem-map (single_port_key pp) ports m)

  sorted_keys-mem :
      (ports : List Port) {k : Text}
      → Memᴰ k (sorted_keys ports)
      → (q : Port) × Memᴰ q ports × (single_port_key pp q ≡ k)
  unfolding sorted_keys
  sorted_keys-mem ports m =
      mem-map_elim (single_port_key pp) ports (mem-perm (sort_by-perm str_lt _) m)

  sorted_keys-Free : (ports : List Port) → All U ports → All (Free b',') (sorted_keys ports)
  sorted_keys-Free ports u = All-of_mem (Free b',') (sorted_keys ports) λ k m.
      let (q, n, e) = sorted_keys-mem ports m in
      subst (Free b',') e (key_no_comma pp q (universe.supported q (All_mem U ports u n)))

  key_has_colon : (q : Port) → has_colon (single_port_key pp q) ≡ true
  unfolding single_port_key has_colon any
  key_has_colon q = any-append (λ c. c == b':') (protocol_of q) _ ∙ ground arith

  -- One half: every port of the one list has a port of its key in the other.
  half :
      (t : Traffic) (ps qs : List Port)
      → All U ps
      → All U qs
      → sorted_keys ps ≡ sorted_keys qs
      → any (port_matches t) ps ≡ true
      → any (port_matches t) qs ≡ true
  half t ps qs u v e h =
      let (p, m, matches) = any_elim (port_matches t) ps h in
      let (q, n, k) =
        sorted_keys-mem qs (subst (Memᴰ (single_port_key pp p)) e (mem-sorted_keys ps m)) in
      let up = All_mem U ps u m in
      let uq = All_mem U qs v n in
      any_intro (port_matches t) qs n (
        key_matches pp q p t (universe.supported q uq) (universe.supported p up) k
          (universe.agree q p uq up k)
        ∙ matches)

  fingerprint_keys :
      (p q : Port) (ps qs : List Port)
      → All U (p ∷ ps)
      → All U (q ∷ qs)
      → ports_fingerprint pp (p ∷ ps) ≡ ports_fingerprint pp (q ∷ qs)
      → sorted_keys (p ∷ ps) ≡ sorted_keys (q ∷ qs)
  fingerprint_keys p q ps qs u v e =
      keys_of_join (sorted_keys (p ∷ ps)) (sorted_keys (q ∷ qs))
        (mem-sorted_keys (p ∷ ps) (Memᴰ.head refl)) (mem-sorted_keys (q ∷ qs) (Memᴰ.head refl))
        (sorted_keys-Free (p ∷ ps) u) (sorted_keys-Free (q ∷ qs) v)
        (unfold ports_fingerprint sorted_keys in e)

  fingerprint_has_colon :
      (p : Port) (ps : List Port) → has_colon (ports_fingerprint pp (p ∷ ps)) ≡ true
  fingerprint_has_colon p ps =
      let m = mem-sorted_keys (p ∷ ps) (Memᴰ.head refl) in
      unfold ports_fingerprint sorted_keys in
      has_colon-join (sorted_keys (p ∷ ps)) m (key_has_colon p)

  no_colon : has_colon (ports_fingerprint pp []) ≡ false
  unfolding ports_fingerprint has_colon any
  no_colon = refl

  -- Ports of one fingerprint allow the same traffic.
  pub fingerprint_allows :
      (t : Traffic) (ps qs : List Port)
      → All U ps
      → All U qs
      → ports_fingerprint pp ps ≡ ports_fingerprint pp qs
      → ports_allow ps t ≡ ports_allow qs t
  unfolding ports_allow
  fingerprint_allows t [] [] u v e = refl
  fingerprint_allows t [] (q ∷ qs) u v e =
      absurd (cc (no_colon, fingerprint_has_colon q qs, ap has_colon e))
  fingerprint_allows t (p ∷ ps) [] u v e =
      absurd (cc (no_colon, fingerprint_has_colon p ps, ap has_colon e))
  fingerprint_allows t (p ∷ ps) (q ∷ qs) u v e =
      let k = fingerprint_keys p q ps qs u v e in
      Bool-ext _ _ (half t (p ∷ ps) (q ∷ qs) u v k) (half t (q ∷ qs) (p ∷ ps) v u (sym k))

  -- Ports of one fingerprint have the same keys.
  pub fingerprint_same_keys :
      (ps qs : List Port)
      → All U ps
      → All U qs
      → ports_fingerprint pp ps ≡ ports_fingerprint pp qs
      → sort_by str_lt (map (single_port_key pp) ps) ≡ sort_by str_lt (map (single_port_key pp) qs)
  unfolding sorted_keys
  fingerprint_same_keys [] [] u v e = refl
  fingerprint_same_keys [] (q ∷ qs) u v e =
      absurd (cc (no_colon, fingerprint_has_colon q qs, ap has_colon e))
  fingerprint_same_keys (p ∷ ps) [] u v e =
      absurd (cc (no_colon, fingerprint_has_colon p ps, ap has_colon e))
  fingerprint_same_keys (p ∷ ps) (q ∷ qs) u v e = fingerprint_keys p q ps qs u v e

null_of_mem {ℓ} : {A : Type ℓ} {x : A} (xs : List A) → Memᴰ x xs → null xs ≡ false
null_of_mem [] m = elim m [ ]
null_of_mem (y ∷ ys) m = refl

mem_of_null {ℓ} : {A : Type ℓ} (xs : List A) → null xs ≡ false → (x : A) × Memᴰ x xs
mem_of_null [] h = absurd (cc)
mem_of_null (x ∷ xs) h = (x, Memᴰ.head refl)

module _ (pp : PortPrinter) (o : RangeOrder) where
  abbrev by_key : Port → Port → Bool
  by_key p q = str_lt (single_port_key pp p) (single_port_key pp q)

  -- The ports of a set, in the order in which Go visits them
  pub values-perm :
      (m : Dict Port) → Permᴰ (values (o.range 2 m)) (map (λ (e : Text × Port). e.1) m)
  values-perm m =
      Permᴰ.trans (perm_of_eq (values-map (o.range 2 m)))
        (map-perm (λ (e : Text × Port). e.1) (o.range-perm 2 m))

  -- The slice of a set of some ports holds exactly these.
  listed-perm :
      (m : Dict Port)
      → Permᴰ (sort_by by_key (values (o.range 2 m))) (map (λ (e : Text × Port). e.1) m)
  listed-perm m = Permᴰ.trans (sort_by-perm by_key _) (values-perm m)

module _ (pp : PortPrinter) (o : RangeOrder) (U : Port → Type 0) where
  -- Every port of a slice is one of the policy's.
  pub port_slice-All : (ps : PortSet) → IsGood pp U ps → All U (port_slice pp o ps)
  unfolding port_slice
  port_slice-All ps g = elim (Bool-cases (not ps.allow_all && not (null ps.ports))) [
    | inr e ↦ rw e tt
    | inl e ↦ rw e (
        All-of_mem U _ λ q m.
          let (d, n, f) =
            mem-map_elim (λ (d : Text × Port). d.1) ps.ports
              (mem-perm (listed-perm pp o ps.ports) m) in
          subst U f
            (All_mem (λ (d : Text × Port). (d.0 ≡ single_port_key pp d.1) × U d.1) ps.ports g.keyed
              n).1)
  ]

  listed_allows :
      (t : Traffic) (m : Dict Port)
      → null m ≡ false
      → ports_allow (sort_by (by_key pp o) (values (o.range 2 m))) t
        ≡ any (λ (e : Text × Port). port_matches t e.1) m
  unfolding ports_allow
  listed_allows t m h =
      let (e, n) = mem_of_null m h in
      let filled =
        null_of_mem _
          (mem-perm (PermD.symm (listed-perm pp o m)) (mem-map (λ (e : Text × Port). e.1) m n)) in
      let same =
        any-perm (port_matches t) (listed-perm pp o m)
        ∙ any-map (port_matches t) (λ (e : Text × Port). e.1) m in
      rw filled same

  -- A slice allows what its set allows: a set with no ports left would allow everything, and there is
  -- none.
  pub port_slice_allows :
      (t : Traffic) (ps : PortSet)
      → IsGood pp U ps
      → ports_allow (port_slice pp o ps) t ≡ set_allows t ps
  unfolding port_slice set_allows
  port_slice_allows t ps g = elim (Bool-cases ps.allow_all) [
    | inl a ↦ unfold ports_allow in rw a refl
    | inr a ↦ let l = listed_allows t ps.ports (g.filled a) in rw (a, g.filled a) l
  ]
