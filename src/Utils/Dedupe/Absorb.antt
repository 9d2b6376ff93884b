-- ===== src/Utils/Dedupe/Absorb.antt =====
-- Phase 1.5 of the deduplication: keys that "proto:Any" covers.

use mathlib.Core.Path.{subst}
use fqdn_egress_operator.Base.{
  Text, bytes, str_eq, eq_of_str_eq, str_eq_refl, has_prefix, Bool, true, false, not, ◌&&◌, ◌||◌,
  [], ◌∷◌, ◌++◌, none, some, null, ◌≡◌, refl, ap, sym, ◌∙◌, inl, inr, any, any_intro, any_elim,
  Bool-ext, arith, All, All_mem, Memᴰ, Bool-cases, Option-cases, is_some,
}
use mathlib.Core.List.{append_assoc}
use fqdn_egress_operator.Base.Dict.{
  Dict, get, delete_where, get-delete_where, delete_where-UniqueKeys, UniqueKeys, mem-get,
}
use fqdn_egress_operator.Base.Split.{Free}
use fqdn_egress_operator.Multi.{PortPrinter, Port}
use fqdn_egress_operator.Utils.Dedupe.{
  protocol_of, port_of, single_port_key, PortSet, entry_of, absorb_protocol, absorb, absorb_all,
}
use fqdn_egress_operator.Utils.Dedupe.Traffic.{Traffic, port_matches}
use fqdn_egress_operator.Utils.Dedupe.Keys.{before_separator, prefix_rest, protocol-Free, any_port}
use fqdn_egress_operator.Utils.Dedupe.Collect.{
  set_allows, map_allows, Universe, Keyed, IsGood, AllGood,
}

module _ {V : Type 0} where
  mem-delete_where :
      (p : Text → Bool) (e : Text × V) (m : Dict V) → Memᴰ e (delete_where p m) → Memᴰ e m
  unfolding delete_where
  mem-delete_where p e [] h = h
  mem-delete_where p e ((j, v) ∷ m) h =
      let ih = mem-delete_where p e m in
      elim (Bool-cases (p j)) [ inl t ↦ Memᴰ.tail (ih (rw t at h)) | inr t ↦ keep ih (rw t at h) ]
    where
      keep :
          (Memᴰ e (delete_where p m) → Memᴰ e m)
          → Memᴰ e ((j, v) ∷ delete_where p m)
          → Memᴰ e ((j, v) ∷ m)
      keep ih (Memᴰ.head q) = Memᴰ.head q
      keep ih (Memᴰ.tail q) = Memᴰ.tail (ih q)

  mem-kept :
      (p : Text → Bool) (e : Text × V) (m : Dict V)
      → Memᴰ e m
      → p e.0 ≡ false
      → Memᴰ e (delete_where p m)
  unfolding delete_where
  mem-kept p e [] h k = h
  mem-kept p e ((j, v) ∷ m) (Memᴰ.head q) k =
      let t : p j ≡ false = ground (arith, q) in rw t (Memᴰ.head q)
  mem-kept p e ((j, v) ∷ m) (Memᴰ.tail q) k =
      let ih = mem-kept p e m q k in
      elim (Bool-cases (p j)) [ inl t ↦ rw t ih | inr t ↦ rw t (Memᴰ.tail ih) ]

  All-delete_where {κ} :
      (P : Text × V → Type κ) (p : Text → Bool) (m : Dict V) → All P m → All P (delete_where p m)
  unfolding delete_where
  All-delete_where P p [] h = tt
  All-delete_where P p ((j, v) ∷ m) h =
      let ih = All-delete_where P p m h.1 in
      elim (Bool-cases (p j)) [ inl t ↦ rw t ih | inr t ↦ rw t (h.0, ih) ]

  null_of_get : (k : Text) (v : V) (m : Dict V) → get k m ≡ some v → null m ≡ false
  unfolding get
  null_of_get k v [] h = absurd (cc)
  null_of_get k v (e ∷ m) h = refl

  pub get_of_is_some :
      (k : Text) (m : Dict V) → is_some (get k m) ≡ true → (v : V) × (get k m ≡ some v)
  get_of_is_some k m h = elim (Option-cases (get k m)) [ inl e ↦ absurd (ground arith) | inr q ↦ q ]

-- The keys that phase 1.5 takes away for a protocol.
abbrev covered : Text → Text → Bool
covered proto k = has_prefix k (proto ++ bytes ":") && not (str_eq k (proto ++ bytes ":Any"))

module _ (pp : PortPrinter) (U : Port → Type 0) (universe : Universe pp U) (proto : Text)
    (free : Free b':' proto) where
  -- A covered port is of the protocol.
  covered_protocol :
      (p : Port) → U p → covered proto (single_port_key pp p) ≡ true → protocol_of p ≡ proto
  unfolding single_port_key
  covered_protocol p u h =
      let (r, e) =
        prefix_rest (protocol_of p ++ (b':' ∷ port_of pp p)) (proto ++ bytes ":") (ground arith) in
      (before_separator b':' (protocol_of p) proto (port_of pp p) r
        (protocol-Free pp p (universe.supported p u)).0 free
        (e ∙ append_assoc proto (bytes ":") r)).0

  -- A port under the key "proto:Any" matches all traffic of the protocol.
  any_matches :
      (p : Port) (t : Traffic)
      → U p
      → single_port_key pp p ≡ proto ++ bytes ":Any"
      → proto ≡ t.protocol
      → port_matches t p ≡ true
  unfolding single_port_key port_matches
  any_matches p t u e f =
      let s = universe.supported p u in
      let k =
        before_separator b':' (protocol_of p) proto (port_of pp p) (bytes "Any")
          (protocol-Free pp p s).0 free e in
      let n = any_port pp p s k.1 in let q = k.0 ∙ f in rw (n, q, str_eq_refl) refl

  record Keeps (m m' : Dict Port) : Type 0 where
    keyed : Keyed pp U m'
    unique : UniqueKeys m'
    filled : null m' ≡ false
    matches :
        (t : Traffic)
        → any (λ (e : Text × Port). port_matches t e.1) m'
          ≡ any (λ (e : Text × Port). port_matches t e.1) m

  same_protocol : (t : Traffic) (p : Port) → port_matches t p ≡ true → protocol_of p ≡ t.protocol
  unfolding port_matches
  same_protocol t p h = eq_of_str_eq (protocol_of p) t.protocol (ground arith)

  any_key_stays : covered proto (proto ++ bytes ":Any") ≡ false
  any_key_stays = ground (arith, str_eq_refl (proto ++ bytes ":Any"))

  covers :
      (t : Traffic) (m : Dict Port) (q : Port)
      → Keyed pp U m
      → get (proto ++ bytes ":Any") m ≡ some q
      → any (λ (e : Text × Port). port_matches t e.1) m ≡ true
      → any (λ (e : Text × Port). port_matches t e.1) (delete_where (covered proto) m) ≡ true
  covers t m q k g h =
      let matches = λ (e : Text × Port). port_matches t e.1 in
      let (e, mem, yes') = any_elim matches m h in
      let at_e = All_mem (λ (e : Text × Port). (e.0 ≡ single_port_key pp e.1) × U e.1) m k mem in
      elim (Bool-cases (covered proto e.0)) [
        | inr c ↦ any_intro matches _ (mem-kept (covered proto) e m mem c) yes'
        | inl c ↦
            let mem_q = mem-get (proto ++ bytes ":Any") q m g in
            let at_q =
              All_mem (λ (e : Text × Port). (e.0 ≡ single_port_key pp e.1) × U e.1) m k mem_q in
            let proto_e =
              covered_protocol e.1 at_e.1 (subst (λ (j : Text). covered proto j ≡ true) at_e.0 c) in
            any_intro matches _
              (mem-kept (covered proto) (proto ++ bytes ":Any", q) m mem_q any_key_stays)
              (any_matches q t at_q.1 (sym at_q.0) (sym proto_e ∙ same_protocol t e.1 yes'))
      ]

  covered_matches :
      (t : Traffic) (m : Dict Port)
      → any (λ (e : Text × Port). port_matches t e.1) (delete_where (covered proto) m) ≡ true
      → any (λ (e : Text × Port). port_matches t e.1) m ≡ true
  covered_matches t m h =
      let matches = λ (e : Text × Port). port_matches t e.1 in
      let (e, mem, yes') = any_elim matches (delete_where (covered proto) m) h in
      any_intro matches m (mem-delete_where (covered proto) e m mem) yes'

  absorb_protocol-Keeps :
      (m : Dict Port)
      → Keyed pp U m
      → UniqueKeys m
      → null m ≡ false
      → Keeps m (absorb_protocol proto m)
  unfolding absorb_protocol
  absorb_protocol-Keeps m k u n = elim (Bool-cases (is_some (get (proto ++ bytes ":Any") m))) [
    | inr e ↦ rw e (record { keyed = k; unique = u; filled = n; matches = λ t. refl })
    | inl e ↦
        let (q, g) = get_of_is_some (proto ++ bytes ":Any") m e in
        rw e (record {
          keyed =
              All-delete_where (λ (e : Text × Port). (e.0 ≡ single_port_key pp e.1) × U e.1)
                (covered proto) m k;
          unique = delete_where-UniqueKeys (covered proto) m u;
          filled =
              null_of_get (proto ++ bytes ":Any") q (delete_where (covered proto) m) (
                get-delete_where (covered proto) (proto ++ bytes ":Any") m ∙ rw (any_key_stays, g));
          matches = λ t. Bool-ext _ _ (covered_matches t m) (covers t m q k g);
        })
  ]

module _ (pp : PortPrinter) (U : Port → Type 0) (universe : Universe pp U) where
  -- The same meaning, in a good port set.
  abbrev Same : PortSet → PortSet → Type 0
  Same ps qs = IsGood pp U qs × ((t : Traffic) → set_allows t qs ≡ set_allows t ps)

  absorb_ports : Dict Port → Dict Port
  absorb_ports m =
      absorb_protocol (bytes "SCTP")
        (absorb_protocol (bytes "UDP") (absorb_protocol (bytes "TCP") m))

  absorb_some :
      (ps : PortSet)
      → IsGood pp U ps
      → ps.allow_all ≡ false
      → Same ps (record ps { ports = absorb_ports ps.ports })
  unfolding set_allows absorb_ports
  absorb_some ps g a =
      let tcp =
        absorb_protocol-Keeps pp U universe (bytes "TCP") (unfold any in refl) ps.ports g.keyed
          g.unique (g.filled a) in
      let udp =
        absorb_protocol-Keeps pp U universe (bytes "UDP") (unfold any in refl) _ tcp.keyed
          tcp.unique tcp.filled in
      let sctp =
        absorb_protocol-Keeps pp U universe (bytes "SCTP") (unfold any in refl) _ udp.keyed
          udp.unique udp.filled in
      (
        record { keyed = sctp.keyed; unique = sctp.unique; filled = λ e. sctp.filled },
        λ t.
            ap (λ (b : Bool). ps.allow_all || b) (sctp.matches t ∙ (udp.matches t ∙ tcp.matches t)),
      )

  absorb-Same : (ps : PortSet) → IsGood pp U ps → Same ps (absorb ps)
  unfolding absorb absorb_ports
  absorb-Same ps g = elim (Bool-cases ps.allow_all) [
    | inl a ↦ let same : absorb ps ≡ ps = ground arith in subst (Same ps) (sym same) (g, λ t. refl)
    | inr a ↦
        let same : absorb ps ≡ record ps { ports = absorb_ports ps.ports } =
          ground (arith, g.filled a) in
        subst (Same ps) (sym same) (absorb_some ps g a)
  ]

  pub absorb_all-AllGood : (m : Dict PortSet) → AllGood pp U m → AllGood pp U (absorb_all m)
  unfolding absorb_all
  absorb_all-AllGood [] g = tt
  absorb_all-AllGood ((c, ps) ∷ m) g = ((absorb-Same ps g.0).0, absorb_all-AllGood m g.1)

  -- Phase 1.5 keeps what every CIDR is allowed.
  pub map_allows-absorb_all :
      (t : Traffic) (c : Text) (m : Dict PortSet)
      → AllGood pp U m
      → map_allows t c (absorb_all m) ≡ map_allows t c m
  unfolding absorb_all map_allows entry_of get
  map_allows-absorb_all t c [] g = refl
  map_allows-absorb_all t c ((d, ps) ∷ m) g = elim (Bool-cases (str_eq d c)) [
    | inl e ↦ rw e ((absorb-Same ps g.0).1 t)
    | inr e ↦ rw e (map_allows-absorb_all t c m g.1)
  ]

-- Phase 1.5 keeps the keys.
pub is_some-get-absorb_all :
    (c : Text) (m : Dict PortSet) → is_some (get c (absorb_all m)) ≡ is_some (get c m)
unfolding absorb_all get
is_some-get-absorb_all c [] = refl
is_some-get-absorb_all c ((d, ps) ∷ m) = ground (arith, is_some-get-absorb_all c m)

none_of_is_some : (c : Text) (m : Dict PortSet) → get c m ≡ none → get c (absorb_all m) ≡ none
none_of_is_some c m e = ground (arith, is_some-get-absorb_all c m, e)

pub absorb_all-UniqueKeys : (m : Dict PortSet) → UniqueKeys m → UniqueKeys (absorb_all m)
unfolding absorb_all
absorb_all-UniqueKeys [] u = tt
absorb_all-UniqueKeys ((d, ps) ∷ m) u = (none_of_is_some d m u.0, absorb_all-UniqueKeys m u.1)
