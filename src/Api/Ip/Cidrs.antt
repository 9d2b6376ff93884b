-- ===== src/Api/Ip/Cidrs.antt =====
-- An IPv4 address or CIDR, printed and read again.
use fqdn_egress_operator.Base.{
  ℕ, ◌<◌, ◌≤◌, Text, Bool, false, List, [], ◌∷◌, ◌++◌, some, length, null, ltb, ◌==◌, join, ◌≡◌,
  refl, ap, sym, ◌∙◌, arith, Bool-cases, inl, inr, All, any, any-append,
}
use fqdn_egress_operator.Base.Decimal.{itoa, itoa-three_digits, three_digits, itoa-IsDigit, IsDigit}
use fqdn_egress_operator.Base.Split.{Free}
use fqdn_egress_operator.Api.Ip.Dotted.{
  V6Text, dotted, parse_fields, first_mark, parse_addr, cut, dtoi,
}

-- A number of at most 255 is read as the value of a field.
fields-three_digits :
    (fields : List ℕ) (n : ℕ) (s : Text)
    → n < 256
    → (k : ℕ) × (1 ≤ k)
      × (parse_fields fields 0 0 (three_digits n ++ s) ≡ parse_fields fields n k s)
unfolding parse_fields
fields-three_digits fields n s h = elim (Bool-cases (ltb n 10)) [
  | inl e ↦ (1, omega arith, ground (arith, e))
  | inr e ↦ elim (Bool-cases (ltb n 100)) [
    | inl k ↦ (2, omega arith, ground (arith, e, k))
    | inr k ↦ (3, omega arith, ground (arith, e, k))
  ]
]

itoa-not_null : (n : ℕ) (s : Text) → n < 1000 → null (itoa n ++ s) ≡ false
itoa-not_null n s h = ap (λ (t : Text). null (t ++ s)) (itoa-three_digits n h) ∙ ground arith

field_step :
    (fields : List ℕ) (n : ℕ) (s : Text)
    → n < 256
    → length fields < 3
    → null s ≡ false
    → parse_fields fields 0 0 (itoa n ++ (b'.' ∷ s)) ≡ parse_fields (fields ++ (n ∷ [])) 0 0 s
field_step fields n s h room more =
    let (k, some_digit, e) = fields-three_digits fields n (b'.' ∷ s) h in
    ap (λ (t : Text). parse_fields fields 0 0 (t ++ (b'.' ∷ s))) (itoa-three_digits n (omega arith))
    ∙ (e ∙ unfold parse_fields in ground arith)

append_nil : (s : Text) → s ++ [] ≡ s
append_nil [] = refl
append_nil (c ∷ s) = ap (◌∷◌ c) (append_nil s)

field_last :
    (fields : List ℕ) (n : ℕ)
    → n < 256
    → length fields ≡ 3
    → parse_fields fields 0 0 (itoa n) ≡ some (fields ++ (n ∷ []))
field_last fields n h full =
    let (k, some_digit, e) = fields-three_digits fields n [] h in
    ap (parse_fields fields 0 0)
      (itoa-three_digits n (omega arith) ∙ sym (append_nil (three_digits n)))
    ∙ (e ∙ unfold parse_fields in ground arith)

abbrev pub IsByte : ℕ → Type 0
IsByte n = n < 256

first_mark-digits : (s t : Text) → All IsDigit s → first_mark (s ++ (b'.' ∷ t)) ≡ some b'.'
unfolding first_mark
first_mark-digits [] t h = refl
first_mark-digits (c ∷ s) t h = ground (arith, first_mark-digits s t h.1, h.0)

digits-Free : (s : Text) → All IsDigit s → Free b'/' s
unfolding any
digits-Free [] h = refl
digits-Free (c ∷ s) h = ground (arith, digits-Free s h.1, h.0)

pub cut-Free : (sep : ℕ) (s t : Text) → Free sep s → cut sep (s ++ (sep ∷ t)) ≡ some (s, t)
unfolding cut any
cut-Free sep [] t h = ground arith
cut-Free sep (c ∷ s) t h =
    let rest : Free sep s = ground arith in ground (arith, cut-Free sep s t rest)

pub dtoi-itoa : (n : ℕ) → n < 1000 → dtoi (itoa n) ≡ some n
unfolding dtoi
dtoi-itoa n h = ap dtoi (itoa-three_digits n h) ∙ elim (Bool-cases (ltb n 10)) [
  | inl e ↦ ground (arith, e)
  | inr e ↦ elim (Bool-cases (ltb n 100)) [
    | inl k ↦ ground (arith, e, k)
    | inr k ↦ ground (arith, e, k)
  ]
]

abbrev pub IsV4 : ℕ → ℕ → ℕ → ℕ → Type 0
IsV4 a b c d = IsByte a × IsByte b × IsByte c × IsByte d

parse_fields-dotted :
    (a b c d : ℕ)
    → IsV4 a b c d
    → parse_fields [] 0 0 (dotted (a ∷ b ∷ c ∷ d ∷ [])) ≡ some (a ∷ b ∷ c ∷ d ∷ [])
unfolding dotted join
parse_fields-dotted a b c d (ha, hb, hc, hd) =
    let t4 : Text = itoa d in
    let t3 : Text = itoa c ++ (b'.' ∷ t4) in
    let t2 : Text = itoa b ++ (b'.' ∷ t3) in
    field_step [] a t2 ha (omega arith) (itoa-not_null b (b'.' ∷ t3) (omega arith))
    ∙ (field_step (a ∷ []) b t3 hb (omega arith) (itoa-not_null c (b'.' ∷ t4) (omega arith))
        ∙ (field_step (a ∷ b ∷ []) c t4 hc (omega arith)
              (ap null (sym (append_nil t4)) ∙ itoa-not_null d [] (omega arith))
            ∙ field_last (a ∷ b ∷ c ∷ []) d hd refl))

pub parse_addr-dotted :
    (v6 : V6Text) (a b c d : ℕ)
    → IsV4 a b c d
    → parse_addr v6 (dotted (a ∷ b ∷ c ∷ d ∷ [])) ≡ some (a ∷ b ∷ c ∷ d ∷ [])
unfolding parse_addr
parse_addr-dotted v6 a b c d h =
    let mark : first_mark (dotted (a ∷ b ∷ c ∷ d ∷ [])) ≡ some b'.' =
      unfold dotted join in
      first_mark-digits (itoa a) (itoa b ++ (b'.' ∷ (itoa c ++ (b'.' ∷ itoa d))))
        (itoa-IsDigit a) in
    ground (arith, mark, parse_fields-dotted a b c d h)

pub dotted-Free : (a b c d : ℕ) → Free b'/' (dotted (a ∷ b ∷ c ∷ d ∷ []))
unfolding dotted join any
dotted-Free a b c d =
    let slash : ℕ → Bool = λ x. x == b'/' in
    ground (
      arith,
      any-append slash (itoa a) (b'.' ∷ (itoa b ++ (b'.' ∷ (itoa c ++ (b'.' ∷ itoa d))))),
      any-append slash (itoa b) (b'.' ∷ (itoa c ++ (b'.' ∷ itoa d))),
      any-append slash (itoa c) (b'.' ∷ itoa d),
      digits-Free (itoa a) (itoa-IsDigit a),
      digits-Free (itoa b) (itoa-IsDigit b),
      digits-Free (itoa c) (itoa-IsDigit c),
      digits-Free (itoa d) (itoa-IsDigit d),
    )
