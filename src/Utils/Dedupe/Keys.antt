-- ===== src/Utils/Dedupe/Keys.antt =====
-- The keys of ports (getSinglePortKey), and what can be read back from them.
use fqdn_egress_operator.Base.{
  ℕ, Text, bytes, has_prefix, true, [], ◌∷◌, ◌++◌, none, some, ◌≡◌, refl, ap, sym, ◌∙◌, ◌⊎◌, inl,
  inr, any, any-append, arith, All, ◌≢◌,
}
use fqdn_egress_operator.Base.Decimal.{IsDigit, itoa, itoa-IsDigit, itoa-injective}
use fqdn_egress_operator.Base.Split.{Free}
use fqdn_egress_operator.Multi.{int_val, PortPrinter, Port}
use fqdn_egress_operator.Utils.Dedupe.{protocol_of, port_of, single_port_key}
use fqdn_egress_operator.Utils.Dedupe.Traffic.{Traffic, port_matches, IsSupported}

-- The text in front of the first separator is determined.
pub before_separator :
    (sep : ℕ) (a b x y : Text)
    → Free sep a
    → Free sep b
    → a ++ (sep ∷ x) ≡ b ++ (sep ∷ y)
    → (a ≡ b) × (x ≡ y)
unfolding any
before_separator sep [] [] x y fa fb e = (refl, cc)
before_separator sep [] (d ∷ b) x y fa fb e = absurd (ground arith)
before_separator sep (c ∷ a) [] x y fa fb e = absurd (ground arith)
before_separator sep (c ∷ a) (d ∷ b) x y fa fb e =
    let ih = before_separator sep a b x y (ground arith) (ground arith) (cc) in
    (ground (arith, ih.0), ih.1)

pub prefix_rest : (s p : Text) → has_prefix s p ≡ true → (r : Text) × (s ≡ p ++ r)
unfolding has_prefix
prefix_rest s [] h = (s, refl)
prefix_rest [] (d ∷ p) h = absurd (cc)
prefix_rest (c ∷ s) (d ∷ p) h =
    let (r, e) = prefix_rest s p (ground arith) in (r, ground (arith, e))

pub prefix_of_append : (p r : Text) → has_prefix (p ++ r) p ≡ true
unfolding has_prefix
prefix_of_append [] r = refl
prefix_of_append (c ∷ p) r = ground (arith, prefix_of_append p r)

digits_no_comma : (s : Text) → All IsDigit s → Free b',' s
unfolding any
digits_no_comma [] h = refl
digits_no_comma (c ∷ s) h = ground (arith, h.0, digits_no_comma s h.1)

digits-ne-any : (s : Text) → All IsDigit s → s ≢ bytes "Any"
digits-ne-any [] h e = cc
digits-ne-any (c ∷ s) h e = absurd (ground (arith, h.0))

module _ (pp : PortPrinter) where
  port_cases :
      (p : Port)
      → IsSupported p
      → ((p.port ≡ none) × (port_of pp p ≡ bytes "Any"))
        ⊎ ((n : ℕ) × (p.port ≡ some (int_val n)) × (port_of pp p ≡ itoa n))
  unfolding port_of
  port_cases p s = elim s.numbered [
    | inl e ↦ inl (e, rw e)
    | inr h ↦ inr (h.0, h.1, rw h.1 (pp.string_int h.0))
  ]

  -- A supported port that prints as "Any" has no number.
  pub any_port : (p : Port) → IsSupported p → port_of pp p ≡ bytes "Any" → p.port ≡ none
  any_port p s e = elim (port_cases p s) [
    | inl h ↦ h.0
    | inr h ↦ absurd (digits-ne-any (itoa h.0) (itoa-IsDigit h.0) (sym h.2 ∙ e))
  ]

  pub protocol-Free :
      (p : Port) → IsSupported p → Free b':' (protocol_of p) × Free b',' (protocol_of p)
  unfolding any
  protocol-Free p s = elim s.known_protocol [
    | inl e ↦ rw e (refl, refl)
    | inr (inl e) ↦ rw e (refl, refl)
    | inr (inr e) ↦ rw e (refl, refl)
  ]

  port_no_comma : (p : Port) → IsSupported p → Free b',' (port_of pp p)
  unfolding any
  port_no_comma p s = elim (port_cases p s) [
    | inl h ↦ rw h.1 refl
    | inr h ↦ rw h.2 (digits_no_comma (itoa h.0) (itoa-IsDigit h.0))
  ]

  -- A key holds no comma.
  pub key_no_comma : (p : Port) → IsSupported p → Free b',' (single_port_key pp p)
  unfolding single_port_key any
  key_no_comma p s =
      any-append _ (protocol_of p) (b':' ∷ port_of pp p)
      ∙ ground (arith, (protocol-Free p s).1, port_no_comma p s)

  -- A key tells the protocol and the port apart.
  pub key_parts :
      (p q : Port)
      → IsSupported p
      → IsSupported q
      → single_port_key pp p ≡ single_port_key pp q
      → (protocol_of p ≡ protocol_of q) × (port_of pp p ≡ port_of pp q)
  unfolding single_port_key
  key_parts p q s t e =
      before_separator b':' (protocol_of p) (protocol_of q) (port_of pp p) (port_of pp q)
        (protocol-Free p s).0 (protocol-Free q t).0 e

  pub port_of-injective :
      (p q : Port) → IsSupported p → IsSupported q → port_of pp p ≡ port_of pp q → p.port ≡ q.port
  unfolding port_of
  port_of-injective p q s t e = elim (port_cases p s) [
    | inl h ↦ elim (port_cases q t) [
      | inl k ↦ h.0 ∙ sym k.0
      | inr k ↦ absurd (digits-ne-any (itoa k.0) (itoa-IsDigit k.0) (sym k.2 ∙ (sym e ∙ h.1)))
    ]
    | inr h ↦ elim (port_cases q t) [
      | inl k ↦ absurd (digits-ne-any (itoa h.0) (itoa-IsDigit h.0) (sym h.2 ∙ (e ∙ k.1)))
      | inr k ↦
          h.1
          ∙ (ap (λ n. some (int_val n)) (itoa-injective h.0 k.0 (sym h.2 ∙ (e ∙ k.2))) ∙ sym k.1)
    ]
  ]

  -- Ports of one key and one end port match the same traffic.
  pub key_matches :
      (p q : Port) (t : Traffic)
      → IsSupported p
      → IsSupported q
      → single_port_key pp p ≡ single_port_key pp q
      → p.end_port ≡ q.end_port
      → port_matches t p ≡ port_matches t q
  unfolding port_matches
  key_matches p q t sp sq e f =
      let k = key_parts p q sp sq e in cc (k.0, port_of-injective p q sp sq k.1, f)
