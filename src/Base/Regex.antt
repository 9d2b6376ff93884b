-- ===== src/Base/Regex.antt =====
-- Regular expressions that are anchored at both ends, matched by derivatives.
use mathlib.Core.Path.{subst}
use fqdn_egress_operator.Base.{
  ℕ, ◌-◌, ◌≤◌, ◌≡◌, refl, ap, sym, ◌∙◌, inl, inr, Bool, true, false, ◌&&◌, ◌||◌, [], ◌∷◌, ◌++◌,
  length, All, arith, Bool-cases, if◌then◌else◌, Text, leb,
}

pub data Regex : Type 0 where
  empty : Regex
  eps : Regex
  class : (ℕ → Bool) → Regex
  seq : Regex → Regex → Regex
  alt : Regex → Regex → Regex
  -- `r{0,n}`
  upto : ℕ → Regex → Regex
  -- `r*`
  star : Regex → Regex

-- `r?`
abbrev pub opt : Regex → Regex
opt r = alt eps r

-- `r+`
abbrev pub plus : Regex → Regex
plus r = seq r (star r)

-- The empty text matches.
unfoldable pub nullable : Regex → Bool
nullable empty = false
nullable eps = true
nullable (class p) = false
nullable (seq r s) = nullable r && nullable s
nullable (alt r s) = nullable r || nullable s
nullable (upto n r) = true
nullable (star r) = true

abbrev times_less : ℕ → Regex → Regex → Regex
times_less n d r = if leb 1 n then seq d (upto (n - 1) r) else empty

-- What has to follow a first character.
unfoldable pub deriv : Regex → ℕ → Regex
unfolding nullable
deriv empty c = empty
deriv eps c = empty
deriv (class p) c = if p c then eps else empty
deriv (seq r s) c =
    let first = deriv r c in
    let second = deriv s c in alt (seq first s) (if nullable r then second else empty)
deriv (alt r s) c = alt (deriv r c) (deriv s c)
deriv (upto n r) c = times_less n (deriv r c) r
deriv (star r) c = seq (deriv r c) (star r)

-- MatchString, of an expression with ^ and $
unfoldable pub matches : Regex → Text → Bool
unfolding deriv
matches r [] = nullable r
matches r (c ∷ s) = matches (deriv r c) s

matches-empty : (s : Text) → matches empty s ≡ false
unfolding matches
matches-empty [] = refl
matches-empty (c ∷ s) = matches-empty s

pub matches-eps : (s : Text) → matches eps s ≡ true → s ≡ []
unfolding matches
matches-eps [] h = refl
matches-eps (c ∷ s) h = absurd (cc (matches-empty s, h))

pub matches-alt : (r q : Regex) (s : Text) → matches (alt r q) s ≡ (matches r s || matches q s)
unfolding matches
matches-alt r q [] = refl
matches-alt r q (c ∷ s) = matches-alt (deriv r c) (deriv q c) s

-- One character of a class.
pub matches-class :
    (p : ℕ → Bool) (s : Text) → matches (class p) s ≡ true → (c : ℕ) × (s ≡ c ∷ []) × (p c ≡ true)
unfolding matches
matches-class p [] h = absurd (cc h)
matches-class p (c ∷ s) h = elim (Bool-cases (p c)) [
  | inl e ↦ let rest : matches eps s ≡ true = rw e at h in (c, ap (◌∷◌ c) (matches-eps s rest), e)
  | inr e ↦ let rest : matches empty s ≡ true = rw e at h in absurd (cc (rest, matches-empty s))
]

pub class-matches : (p : ℕ → Bool) (c : ℕ) → p c ≡ true → matches (class p) (c ∷ []) ≡ true
unfolding matches
class-matches p c e = rw e refl

-- A text in two parts, one for each expression.
pub record Parts (r q : Regex) (s : Text) : Type 0 where
  pub first : Text
  pub second : Text
  pub whole : s ≡ first ++ second
  pub left : matches r first ≡ true
  pub right : matches q second ≡ true

seq-nullable :
    (r q : Regex) (s : Text) → nullable r ≡ true → matches q s ≡ true → matches (seq r q) s ≡ true
unfolding matches
seq-nullable r q [] h k = ground (arith, h, k)
seq-nullable r q (c ∷ s) h k =
    matches-alt (seq (deriv r c) q) (if nullable r then deriv q c else empty) s
    ∙ (rw h (ground (arith, k)))

pub seq-matches :
    (r q : Regex) (s t : Text)
    → matches r s ≡ true
    → matches q t ≡ true
    → matches (seq r q) (s ++ t) ≡ true
unfolding matches
seq-matches r q [] t h k = seq-nullable r q t h k
seq-matches r q (c ∷ s) t h k =
    matches-alt (seq (deriv r c) q) (if nullable r then deriv q c else empty) (s ++ t)
    ∙ ground (arith, seq-matches (deriv r c) q s t h k)

pub matches-seq : (r q : Regex) (s : Text) → matches (seq r q) s ≡ true → Parts r q s
unfolding matches
matches-seq r q [] h = record {
  first = [];
  second = [];
  whole = refl;
  left = ground arith;
  right = ground arith;
}
matches-seq r q (c ∷ s) h =
    let split = matches-alt (seq (deriv r c) q) (if nullable r then deriv q c else empty) s in
    elim (Bool-cases (matches (seq (deriv r c) q) s)) [
      | inl e ↦
          let ih = matches-seq (deriv r c) q s e in
          record {
            first = c ∷ ih.first;
            second = ih.second;
            whole = ap (◌∷◌ c) ih.whole;
            left = ih.left;
            right = ih.right;
          }
      | inr e ↦
          let rest : matches (if nullable r then deriv q c else empty) s ≡ true =
            ground (arith, sym split ∙ h, e) in
          elim (Bool-cases (nullable r)) [
            | inl n ↦ record {
              first = [];
              second = c ∷ s;
              whole = refl;
              left = n;
              right = rw n at rest;
            }
            | inr n ↦ absurd (cc (matches-empty s, rw n at rest))
          ]
    ]

abbrev pub Every : (ℕ → Bool) → Text → Type 0
Every p s = All (λ c. p c ≡ true) s

-- A first character of a class.
matches-seq_class :
    (p : ℕ → Bool) (q : Regex) (c : ℕ) (s : Text)
    → matches (seq (if p c then eps else empty) q) s ≡ true
    → (p c ≡ true) × (matches q s ≡ true)
matches-seq_class p q c s h = elim (Bool-cases (p c)) [
  | inl e ↦
      let parts = matches-seq eps q s (rw e at h) in
      let none_left = matches-eps parts.first parts.left in
      (
        e,
        subst (λ t. matches q t ≡ true)
            (ap (λ (t : Text). t ++ parts.second) (sym none_left) ∙ sym parts.whole) parts.right,
      )
  | inr e ↦
      let parts = matches-seq empty q s (rw e at h) in
      absurd (cc (matches-empty parts.first, parts.left))
]

seq_class-matches :
    (p : ℕ → Bool) (q : Regex) (c : ℕ) (s : Text)
    → p c ≡ true
    → matches q s ≡ true
    → matches (seq (if p c then eps else empty) q) s ≡ true
seq_class-matches p q c s e h = rw e (seq-matches eps q [] s (unfold matches in refl) h)

-- At most n characters of a class.
pub matches-upto_class :
    (n : ℕ) (p : ℕ → Bool) (s : Text)
    → matches (upto n (class p)) s ≡ true
    → (length s ≤ n) × Every p s
unfolding matches
matches-upto_class n p [] h = (omega arith, tt)
matches-upto_class n p (c ∷ s) h = elim (Bool-cases (leb 1 n)) [
  | inl e ↦
      let (here, rest) = matches-seq_class p (upto (n - 1) (class p)) c s (rw e at h) in
      let (fits, all) = matches-upto_class (n - 1) p s rest in
      (ground (arith, fits, e), (here, all))
  | inr e ↦ absurd (cc (matches-empty s, rw e at h))
]

pub upto_class-matches :
    (n : ℕ) (p : ℕ → Bool) (s : Text)
    → length s ≤ n
    → Every p s
    → matches (upto n (class p)) s ≡ true
unfolding matches
upto_class-matches n p [] l a = refl
upto_class-matches n p (c ∷ s) l a =
    let e : leb 1 n ≡ true = ground arith in
    rw e (
      seq_class-matches p (upto (n - 1) (class p)) c s a.0
        (upto_class-matches (n - 1) p s (omega arith) a.1))

-- Any number of characters of a class.
pub matches-star_class : (p : ℕ → Bool) (s : Text) → matches (star (class p)) s ≡ true → Every p s
unfolding matches
matches-star_class p [] h = tt
matches-star_class p (c ∷ s) h =
    let (here, rest) = matches-seq_class p (star (class p)) c s h in
    (here, matches-star_class p s rest)

pub star_class-matches : (p : ℕ → Bool) (s : Text) → Every p s → matches (star (class p)) s ≡ true
unfolding matches
star_class-matches p [] a = refl
star_class-matches p (c ∷ s) a =
    seq_class-matches p (star (class p)) c s a.0 (star_class-matches p s a.1)

-- One more text in front of a repetition.
pub star-matches :
    (r : Regex) (s t : Text)
    → matches r s ≡ true
    → matches (star r) t ≡ true
    → matches (star r) (s ++ t) ≡ true
unfolding matches
star-matches r [] t h k = k
star-matches r (c ∷ s) t h k = seq-matches (deriv r c) (star r) s t h k
