-- ===== src/Utils/Dedupe/Collect.antt =====
-- Phase 1 of the deduplication: the ports that are gathered for a CIDR.

use fqdn_egress_operator.Base.{
  Text, str_eq, eq_of_str_eq, Bool, false, ◌||◌, List, [], ◌∷◌, null, ◌≡◌, refl, sym, ◌∙◌, inl, inr,
  any, arith, All, Bool-cases,
}
use fqdn_egress_operator.Base.Dict.{Dict, put, UniqueKeys, put-UniqueKeys}
use fqdn_egress_operator.Multi.{PortPrinter, Port, Rule}
use fqdn_egress_operator.Utils.Dedupe.{
  single_port_key, PortSet, put_ports, add_rule_ports, entry_of,
}
use fqdn_egress_operator.Utils.Dedupe.Traffic.{Traffic, port_matches, ports_allow, IsSupported}
use fqdn_egress_operator.Utils.Dedupe.Keys.{key_matches}

-- What a port set allows.
unfoldable pub set_allows : Traffic → PortSet → Bool
set_allows t ps = ps.allow_all || any (λ (e : Text × Port). port_matches t e.1) ps.ports

-- What a map of port sets allows to a CIDR.
unfoldable pub map_allows : Traffic → Text → Dict PortSet → Bool
unfolding set_allows
map_allows t c m = set_allows t (entry_of m c)

-- The ports of a policy: supported, and with one end port for each key.
pub record Universe (pp : PortPrinter) (U : Port → Type 0) : Type 0 where
  pub supported : (p : Port) → U p → IsSupported p
  pub agree :
      (p q : Port)
      → U p
      → U q
      → single_port_key pp p ≡ single_port_key pp q
      → p.end_port ≡ q.end_port

module _ (pp : PortPrinter) (U : Port → Type 0) where
  -- Every port stands under its own key.
  abbrev pub Keyed : Dict Port → Type 0
  Keyed ports = All (λ (e : Text × Port). (e.0 ≡ single_port_key pp e.1) × U e.1) ports

  pub record IsGood (ps : PortSet) : Type 0 where
    pub keyed : Keyed ps.ports
    pub unique : UniqueKeys ps.ports
    pub filled : ps.allow_all ≡ false → null ps.ports ≡ false

  abbrev pub AllGood : Dict PortSet → Type 0
  AllGood m = All (λ (e : Text × PortSet). IsGood e.1) m

module _ (pp : PortPrinter) (U : Port → Type 0) (universe : Universe pp U) where
  put-Keyed :
      (p : Port) (m : Dict Port) → U p → Keyed pp U m → Keyed pp U (put (single_port_key pp p) p m)
  unfolding put
  put-Keyed p [] u h = ((refl, u), tt)
  put-Keyed p ((j, q) ∷ m) u h = elim (Bool-cases (str_eq j (single_port_key pp p))) [
    | inl e ↦ rw e ((eq_of_str_eq j (single_port_key pp p) e, u), h.1)
    | inr e ↦ rw e (h.0, put-Keyed p m u h.1)
  ]

  any-put :
      (t : Traffic) (p : Port) (m : Dict Port)
      → U p
      → Keyed pp U m
      → any (λ (e : Text × Port). port_matches t e.1) (put (single_port_key pp p) p m)
        ≡ (any (λ (e : Text × Port). port_matches t e.1) m || port_matches t p)
  unfolding put any
  any-put t p [] u h = ground arith
  any-put t p ((j, q) ∷ m) u h = elim (Bool-cases (str_eq j (single_port_key pp p))) [
    | inl e ↦
        let k : single_port_key pp q ≡ single_port_key pp p = sym h.0.0 ∙ eq_of_str_eq j _ e in
        let s =
          key_matches pp q p t (universe.supported q h.0.1) (universe.supported p u) k
            (universe.agree q p h.0.1 u k) in
        rw e (ground (arith, s))
    | inr e ↦ rw e (ground (arith, any-put t p m u h.1))
  ]

  null-put : (k : Text) (p : Port) (m : Dict Port) → null (put k p m) ≡ false
  unfolding put
  null-put k p [] = refl
  null-put k p ((j, q) ∷ m) = ground arith

  null-put_ports :
      (ps : List Port) (m : Dict Port) → null m ≡ false → null (put_ports pp ps m) ≡ false
  unfolding put_ports
  null-put_ports [] m h = h
  null-put_ports (p ∷ ps) m h = null-put_ports ps (put (single_port_key pp p) p m) (null-put _ p m)

  put_ports-Keyed :
      (ps : List Port) (m : Dict Port) → All U ps → Keyed pp U m → Keyed pp U (put_ports pp ps m)
  unfolding put_ports
  put_ports-Keyed [] m u h = h
  put_ports-Keyed (p ∷ ps) m u h =
      put_ports-Keyed ps (put (single_port_key pp p) p m) u.1 (put-Keyed p m u.0 h)

  put_ports-UniqueKeys :
      (ps : List Port) (m : Dict Port) → UniqueKeys m → UniqueKeys (put_ports pp ps m)
  unfolding put_ports
  put_ports-UniqueKeys [] m h = h
  put_ports-UniqueKeys (p ∷ ps) m h =
      put_ports-UniqueKeys ps (put (single_port_key pp p) p m) (put-UniqueKeys _ p m h)

  any-put_ports :
      (t : Traffic) (ps : List Port) (m : Dict Port)
      → All U ps
      → Keyed pp U m
      → any (λ (e : Text × Port). port_matches t e.1) (put_ports pp ps m)
        ≡ (any (λ (e : Text × Port). port_matches t e.1) m || any (port_matches t) ps)
  unfolding put_ports any
  any-put_ports t [] m u h = ground arith
  any-put_ports t (p ∷ ps) m u h =
      let later = any-put_ports t ps (put (single_port_key pp p) p m) u.1 (put-Keyed p m u.0 h) in
      let now = any-put t p m u.0 h in ground (arith, later, now)

  null-put_ports_rule :
      (ps : List Port) (m : Dict Port) → null ps ≡ false → null (put_ports pp ps m) ≡ false
  unfolding put_ports
  null-put_ports_rule [] m h = absurd (cc)
  null-put_ports_rule (p ∷ ps) m h =
      null-put_ports ps (put (single_port_key pp p) p m) (null-put _ p m)

  -- What a rule makes of a port set is good again.
  pub add_rule_ports-IsGood :
      (rule : Rule) (ps : PortSet)
      → All U rule.ports
      → Keyed pp U ps.ports
      → UniqueKeys ps.ports
      → IsGood pp U (add_rule_ports pp rule ps)
  unfolding add_rule_ports
  add_rule_ports-IsGood rule ps u h k = elim (Bool-cases ps.allow_all) [
    | inl a ↦ rw a (record { keyed = h; unique = k; filled = λ e. absurd (cc) })
    | inr a ↦ elim (Bool-cases (null rule.ports)) [
      | inl n ↦ rw (a, n) (record { keyed = tt; unique = tt; filled = λ e. absurd (cc) })
      | inr n ↦
          rw (a, n)
            (record {
              keyed = put_ports-Keyed rule.ports ps.ports u h;
              unique = put_ports-UniqueKeys rule.ports ps.ports k;
              filled = λ e. null-put_ports_rule rule.ports ps.ports n;
            })
    ]
  ]

  -- A rule adds what its ports allow.
  pub set_allows-add_rule_ports :
      (t : Traffic) (rule : Rule) (ps : PortSet)
      → All U rule.ports
      → Keyed pp U ps.ports
      → set_allows t (add_rule_ports pp rule ps) ≡ (set_allows t ps || ports_allow rule.ports t)
  unfolding add_rule_ports set_allows ports_allow any
  set_allows-add_rule_ports t rule ps u h = ground (arith, any-put_ports t rule.ports ps.ports u h)
