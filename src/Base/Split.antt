-- ===== src/Base/Split.antt =====
-- strings.Split, and what joins its parts again.
use fqdn_egress_operator.Base.{
  ℕ, ◌≡◌, refl, ap, ◌∙◌, ◌≢◌, Bool, true, false, List, [], ◌∷◌, ◌++◌, arith, any, ◌==◌, Text, All,
  join, Bool-cases, inl, inr,
}

-- One character in front of the parts that follow: a separator opens a new part.
unfoldable pub split_step : Bool → ℕ → List Text → List Text
split_step true c parts = [] ∷ parts
split_step false c [] = (c ∷ []) ∷ []
split_step false c (p ∷ parts) = (c ∷ p) ∷ parts

-- strings.Split(s, "."): the parts between the separators, one more than there are separators
unfoldable pub split : ℕ → Text → List Text
unfolding split_step
split sep [] = [] ∷ []
split sep (c ∷ s) = split_step (c == sep) c (split sep s)

-- The text holds no separator.
abbrev pub Free : ℕ → Text → Type 0
Free sep s = any (λ c. c == sep) s ≡ false

pub split-last : (sep : ℕ) (s : Text) → Free sep s → split sep s ≡ s ∷ []
unfolding split any
split-last sep [] h = refl
split-last sep (c ∷ s) h =
    let e : (c == sep) ≡ false = ground arith in
    let rest : Free sep s = ground arith in rw (e, split-last sep s rest)

pub split-append :
    (sep : ℕ) (p s : Text) → Free sep p → split sep (p ++ (sep ∷ s)) ≡ p ∷ split sep s
unfolding split any
split-append sep [] s h = ground arith
split-append sep (c ∷ p) s h =
    let e : (c == sep) ≡ false = ground arith in
    let rest : Free sep p = ground arith in rw (e, split-append sep p s rest)

-- Splitting a joined text gives the parts back.
pub split-join :
    (sep : ℕ) (l : Text) (labels : List Text)
    → Free sep l
    → All (Free sep) labels
    → split sep (join (l ∷ labels) (sep ∷ [])) ≡ l ∷ labels
unfolding join
split-join sep l [] h hs = split-last sep l h
split-join sep l (m ∷ labels) h hs =
    split-append sep l (join (m ∷ labels) (sep ∷ [])) h
    ∙ ap (◌∷◌ l) (split-join sep m labels hs.0 hs.1)

split-ne-nil : (sep : ℕ) (s : Text) → split sep s ≢ []
unfolding split
split-ne-nil sep [] e = cc
split-ne-nil sep (c ∷ s) e = elim (Bool-cases (c == sep)) [
  | inl t ↦ absurd (ground arith)
  | inr t ↦ absurd (ground arith)
]

join-split_step :
    (sep c : ℕ) (parts : List Text)
    → parts ≢ []
    → join (split_step (c == sep) c parts) (sep ∷ []) ≡ c ∷ join parts (sep ∷ [])
unfolding split_step join
join-split_step sep c [] h = absurd (h refl)
join-split_step sep c (p ∷ []) h = ground arith
join-split_step sep c (p ∷ q ∷ parts) h = ground arith

-- Joining the parts of a text gives the text back.
pub join-split : (sep : ℕ) (s : Text) → join (split sep s) (sep ∷ []) ≡ s
unfolding split
join-split sep [] = unfold join in refl
join-split sep (c ∷ s) =
    join-split_step sep c (split sep s) (split-ne-nil sep s) ∙ ap (◌∷◌ c) (join-split sep s)
