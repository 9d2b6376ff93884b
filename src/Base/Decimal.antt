-- ===== src/Base/Decimal.antt =====
-- strconv.Itoa, and `%d` of fmt, on a number that is not negative.
use Prim.Native.Nat.{◌/◌, ◌%◌}
use fqdn_egress_operator.Base.{
  ℕ, zero, suc, ◌+◌, ◌*◌, ◌-◌, ap, sym, ◌∙◌, ◌<◌, ◌≤◌, ◌≡◌, refl, [], ◌∷◌, arith, ltb, false,
  if◌then◌else◌, Text, All, bytes, Bool-cases, inl, inr,
}

-- The digits of `n`, the last one in front of `acc`. Each round divides by ten, so `n + 1` rounds
-- are enough.
digits_onto : ℕ → ℕ → Text → Text
digits_onto zero n acc = acc
digits_onto (suc f) n acc =
    let rest = digits_onto f (n / 10) ((48 + n % 10) ∷ acc) in
    if ltb n 10 then (48 + n) ∷ acc else rest

unfoldable pub itoa : ℕ → Text
unfolding digits_onto
itoa n = digits_onto (suc n) n []

abbrev pub IsDigit : ℕ → Type 0
IsDigit c = (48 ≤ c) × (c ≤ 57)

digits_onto-IsDigit : (f n : ℕ) (acc : Text) → All IsDigit acc → All IsDigit (digits_onto f n acc)
unfolding digits_onto
digits_onto-IsDigit zero n acc h = h
digits_onto-IsDigit (suc f) n acc h = elim (Bool-cases (ltb n 10)) [
  | inl e ↦ rw e ((omega arith, ground arith), h)
  | inr e ↦
      rw e (digits_onto-IsDigit f (n / 10) ((48 + n % 10) ∷ acc) ((omega arith, omega arith), h))
]

-- A printed number is a row of ASCII digits.
pub itoa-IsDigit : (n : ℕ) → All IsDigit (itoa n)
unfolding itoa
itoa-IsDigit n = digits_onto-IsDigit (suc n) n [] tt

-- The number that a row of digits stands for, with `v` in front of it.
read_onto : ℕ → Text → ℕ
read_onto v [] = v
read_onto v (c ∷ s) = read_onto (v * 10 + (c - 48)) s

read_onto-digits_onto :
    (f n : ℕ) (acc : Text) → n < f → read_onto 0 (digits_onto f n acc) ≡ read_onto n acc
unfolding digits_onto read_onto
read_onto-digits_onto zero n acc h = absurd (omega arith)
read_onto-digits_onto (suc f) n acc h = elim (Bool-cases (ltb n 10)) [
  | inl e ↦ rw e (ap (λ (v : ℕ). read_onto v acc) (omega arith))
  | inr e ↦ rw e (
      read_onto-digits_onto f (n / 10) ((48 + n % 10) ∷ acc) (ground arith)
      ∙ ap (λ (v : ℕ). read_onto v acc) (omega arith))
]

read-itoa : (n : ℕ) → read_onto 0 (itoa n) ≡ n
unfolding itoa read_onto
read-itoa n = read_onto-digits_onto (suc n) n [] (omega arith)

digits_onto-step :
    (f n : ℕ) (acc : Text)
    → digits_onto (suc f) n acc
      ≡ (if ltb n 10 then (48 + n) ∷ acc else digits_onto f (n / 10) ((48 + n % 10) ∷ acc))
unfolding digits_onto
digits_onto-step f n acc = refl

-- The digits of a number of two or three digits, and of one below a thousand.
abbrev many_digits : ℕ → Text
many_digits n =
    if ltb n 100
    then (48 + n / 10) ∷ (48 + n % 10) ∷ []
    else (48 + n / 10 / 10) ∷ (48 + n / 10 % 10) ∷ (48 + n % 10) ∷ []

abbrev pub three_digits : ℕ → Text
three_digits n = if ltb n 10 then (48 + n) ∷ [] else many_digits n

itoa-two_steps :
    (n : ℕ)
    → n < 1000
    → ltb n 10 ≡ false
    → digits_onto n (n / 10) ((48 + n % 10) ∷ []) ≡ many_digits n
itoa-two_steps zero h e = absurd (cc e)
itoa-two_steps (suc zero) h e = absurd (cc e)
itoa-two_steps (suc (suc m)) h e =
    let n : ℕ = suc (suc m) in
    let units : Text = (48 + n % 10) ∷ [] in
    digits_onto-step (suc m) (n / 10) units
    ∙ ground (arith, e, digits_onto-step m (n / 10 / 10) ((48 + n / 10 % 10) ∷ units))

pub itoa-three_digits : (n : ℕ) → n < 1000 → itoa n ≡ three_digits n
unfolding itoa
itoa-three_digits n h = elim (Bool-cases (ltb n 10)) [
  | inl e ↦ digits_onto-step n n [] ∙ rw e
  | inr e ↦ digits_onto-step n n [] ∙ rw e (itoa-two_steps n h e)
]

-- Two numbers that print alike are one.
pub itoa-injective : (m n : ℕ) → itoa m ≡ itoa n → m ≡ n
itoa-injective m n e = sym (read-itoa m) ∙ (ap (read_onto 0) e ∙ read-itoa n)

itoa_example : itoa 65535 ≡ bytes "65535"
unfolding itoa
itoa_example = refl

itoa_zero : itoa 0 ≡ bytes "0"
unfolding itoa
itoa_zero = refl
