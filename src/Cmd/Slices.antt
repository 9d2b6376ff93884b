-- ===== src/Cmd/Slices.antt =====
-- Go's slices on a heap of arrays: append writes into the array that is there while its capacity lasts,
-- and copies to a new one after that.
use fqdn_egress_operator.Base.{
  ℕ, zero, suc, ◌-◌, ◌≤◌, List, [], ◌∷◌, ◌++◌, Option, none, some, length, ltb, if◌then◌else◌,
}

-- The array, the length and the capacity; the nil slice has capacity 0.
pub record Slice : Type 0 where
  pub array : ℕ
  pub len : ℕ
  pub cap : ℕ

abbrev pub nil_slice : Slice
nil_slice = record { array = 0; len = 0; cap = 0 }

-- The cells of each array; one that was never written holds the zero value.
abbrev pub Heap : Type 0 → Type 0
Heap A = List (List (Option A))

-- The capacity that append gives an array for a length: the elements fit.
pub record GrowLaws (grow : ℕ → ℕ) : Type 0 where
  pub fits : (n : ℕ) → n ≤ grow n

module _ {A : Type 0} where
  unfoldable pub set_cell : ℕ → A → List (Option A) → List (Option A)
  set_cell n x [] = []
  set_cell zero x (c ∷ cells) = some x ∷ cells
  set_cell (suc n) x (c ∷ cells) = c ∷ set_cell n x cells

  unfoldable pub set_in : ℕ → ℕ → A → Heap A → Heap A
  unfolding set_cell
  set_in a n x [] = []
  set_in zero n x (cells ∷ h) = set_cell n x cells ∷ h
  set_in (suc a) n x (cells ∷ h) = cells ∷ set_in a n x h

  unfoldable pub cells_of : ℕ → Heap A → List (Option A)
  cells_of a [] = []
  cells_of zero (cells ∷ h) = cells
  cells_of (suc a) (cells ∷ h) = cells_of a h

  abbrev pub zeros : ℕ → List (Option A)
  zeros zero = []
  zeros (suc n) = none ∷ zeros n

  -- The first n cells
  unfoldable pub copied : ℕ → List (Option A) → List (Option A)
  copied zero cells = []
  copied (suc n) [] = []
  copied (suc n) (c ∷ cells) = c ∷ copied n cells

  -- `append(s, x)`
  unfoldable pub append_one : (ℕ → ℕ) → A → Slice → Heap A → Slice × Heap A
  unfolding set_in cells_of copied
  append_one grow x s h =
      if ltb s.len s.cap then (record s { len = suc s.len }, set_in s.array s.len x h) else (
        record { array = length h; len = suc s.len; cap = grow (suc s.len) },
        h
            ++ ((copied s.len (cells_of s.array h)
                  ++ (some x ∷ zeros (grow (suc s.len) - suc s.len)))
                ∷ []),
      )

  abbrev pub present : List (Option A) → List A
  present [] = []
  present (none ∷ cells) = present cells
  present (some x ∷ cells) = x ∷ present cells

  -- What a loop over the slice meets
  unfoldable pub read_slice : Slice → Heap A → List A
  unfolding cells_of copied
  read_slice s h = present (copied s.len (cells_of s.array h))
