-- ===== src/Base/Sort.antt =====
-- sort.SliceStable, sort.Slice and sort.Strings: a stable insertion sort by a "less" test.
use mathlib.Core.List.{Permᴰ}
use mathlib.Core.List.Permᴰ as PermD
use fqdn_egress_operator.Base.{
  ◌≡◌, refl, sym, ◌∙◌, ◌⊎◌, inl, inr, Bool, true, false, List, [], ◌∷◌, Memᴰ, arith, if◌then◌else◌,
  Bool-cases, Text, str_lt, str_lt_irrefl, str_lt_trans, str_lt_total, All, mem-perm,
}

module _ {ℓ} {A : Type ℓ} where
  -- Before the first element that is not less than `x`.
  unfoldable pub insert_by : (A → A → Bool) → A → List A → List A
  insert_by less x [] = x ∷ []
  insert_by less x (y ∷ ys) =
      let rest = insert_by less x ys in if less y x then y ∷ rest else x ∷ y ∷ ys

  unfoldable pub sort_by : (A → A → Bool) → List A → List A
  unfolding insert_by
  sort_by less [] = []
  sort_by less (x ∷ xs) = insert_by less x (sort_by less xs)

module _ {ℓ} {A : Type ℓ} (less : A → A → Bool) where
  insert_by-perm : (x : A) (xs : List A) → Permᴰ (insert_by less x xs) (x ∷ xs)
  unfolding insert_by
  insert_by-perm x [] = Permᴰ.cons refl Permᴰ.nil
  insert_by-perm x (y ∷ ys) = elim (Bool-cases (less y x)) [
    | inl e ↦ rw e (Permᴰ.trans (Permᴰ.cons refl (insert_by-perm x ys)) (Permᴰ.swap refl refl))
    | inr e ↦ rw e (PermD.refl (x ∷ y ∷ ys))
  ]

  -- Sorting only reorders.
  pub sort_by-perm : (xs : List A) → Permᴰ (sort_by less xs) xs
  unfolding sort_by
  sort_by-perm [] = Permᴰ.nil
  sort_by-perm (x ∷ xs) =
      Permᴰ.trans (insert_by-perm x (sort_by less xs)) (Permᴰ.cons refl (sort_by-perm xs))

-- A strict order in which "neither is less" carries over.
pub record StrictOrder {ℓ} {A : Type ℓ} (less : A → A → Bool) : Type ℓ where
  pub irrefl : (x : A) → less x x ≡ false
  pub trans : (x y z : A) → less x y ≡ true → less y z ≡ true → less x z ≡ true
  pub neg_trans : (x y z : A) → less x y ≡ false → less y z ≡ false → less x z ≡ false

-- The order tells the two apart, or they are one.
abbrev pub Comparable {ℓ} : {A : Type ℓ} → (A → A → Bool) → A → A → Type ℓ
Comparable less x y = (less x y ≡ true) ⊎ (less y x ≡ true) ⊎ (x ≡ y)

-- No element is less than one before it.
abbrev pub IsSorted {ℓ} : {A : Type ℓ} → (A → A → Bool) → List A → Type ℓ
IsSorted less [] = Unit
IsSorted less (x ∷ xs) = All (λ y. less y x ≡ false) xs × IsSorted less xs

module _ {ℓ} {A : Type ℓ} (less : A → A → Bool) (o : StrictOrder less) where
  insert_by_lt :
      (x y : A) (zs : List A)
      → less x y ≡ true
      → insert_by less x (insert_by less y zs) ≡ insert_by less y (insert_by less x zs)
  unfolding insert_by
  insert_by_lt x y [] h = ground (arith, o.trans x y x h, o.irrefl x)
  insert_by_lt x y (z ∷ zs) h =
      ground (arith, o.trans z x y, o.trans x y x h, o.irrefl x, insert_by_lt x y zs h)

  insert_by_comm :
      (x y : A) (zs : List A)
      → Comparable less x y
      → insert_by less x (insert_by less y zs) ≡ insert_by less y (insert_by less x zs)
  insert_by_comm x y zs (inl h) = insert_by_lt x y zs h
  insert_by_comm x y zs (inr (inl h)) = sym (insert_by_lt y x zs h)
  insert_by_comm x y zs (inr (inr e)) = rw e

  -- Sorting forgets the order of a list whose elements the order tells apart.
  pub sort_by_of_perm :
      {xs ys : List A}
      → Permᴰ xs ys
      → ((x y : A) → Memᴰ x xs → Memᴰ y xs → Comparable less x y)
      → sort_by less xs ≡ sort_by less ys
  unfolding sort_by
  sort_by_of_perm Permᴰ.nil h = refl
  sort_by_of_perm (Permᴰ.cons e d) h =
      cc (e, sort_by_of_perm d (λ x y p q. h x y (Memᴰ.tail p) (Memᴰ.tail q)))
  sort_by_of_perm (Permᴰ.swap {a = a} {b = b} {l = l} e f) h =
      insert_by_comm a b (sort_by less l) (h a b (Memᴰ.head refl) (Memᴰ.tail (Memᴰ.head refl)))
      ∙ cc (e, f)
  sort_by_of_perm (Permᴰ.trans d e) h =
      sort_by_of_perm d h
      ∙ sort_by_of_perm e (λ x y p q. h x y (mem-perm (PermD.symm d) p) (mem-perm (PermD.symm d) q))

  All-insert_by {κ} :
      (P : A → Type κ) (x : A) (xs : List A) → P x → All P xs → All P (insert_by less x xs)
  unfolding insert_by
  All-insert_by P x [] p h = (p, tt)
  All-insert_by P x (y ∷ ys) p h = elim (Bool-cases (less y x)) [
    | inl e ↦ rw e (h.0, All-insert_by P x ys p h.1)
    | inr e ↦ rw e (p, h)
  ]

  not-less : (x y : A) → less x y ≡ true → less y x ≡ false
  not-less x y h = elim (Bool-cases (less y x)) [
    | inl e ↦ absurd (cc (o.irrefl x, o.trans x y x h e))
    | inr e ↦ e
  ]

  All-weaken :
      (x y : A) (zs : List A)
      → less y x ≡ false
      → All (λ z. less z y ≡ false) zs
      → All (λ z. less z x ≡ false) zs
  All-weaken x y [] e h = tt
  All-weaken x y (z ∷ zs) e h = (o.neg_trans z y x h.0 e, All-weaken x y zs e h.1)

  insert_by-IsSorted :
      (x : A) (xs : List A) → IsSorted less xs → IsSorted less (insert_by less x xs)
  unfolding insert_by
  insert_by-IsSorted x [] h = (tt, tt)
  insert_by-IsSorted x (y ∷ ys) h = elim (Bool-cases (less y x)) [
    | inl e ↦ rw e (
      All-insert_by (λ z. less z y ≡ false) x ys (not-less y x e) h.0,
      insert_by-IsSorted x ys h.1,
    )
    | inr e ↦ rw e ((e, All-weaken x y ys e h.0), h)
  ]

  -- The result is in order.
  pub sort_by-IsSorted : (xs : List A) → IsSorted less (sort_by less xs)
  unfolding sort_by
  sort_by-IsSorted [] = tt
  sort_by-IsSorted (x ∷ xs) = insert_by-IsSorted x (sort_by less xs) (sort_by-IsSorted xs)

-- Strings in the order of their bytes.
pub str_order : StrictOrder str_lt
str_order = record { irrefl = str_lt_irrefl; trans = str_lt_trans; neg_trans = str_lt_neg_trans }
  where
    str_lt_neg_trans : (x y z : Text) → str_lt x y ≡ false → str_lt y z ≡ false → str_lt x z ≡ false
    str_lt_neg_trans x y z h k = elim (Bool-cases (str_lt x z)) [
      | inl e ↦ elim (Bool-cases (str_lt y x)) [
        | inl f ↦ absurd (cc (str_lt_trans y x z f e))
        | inr f ↦ absurd (cc (str_lt_total x y h f))
      ]
      | inr e ↦ e
    ]

pub str-Comparable : (s t : Text) → Comparable str_lt s t
str-Comparable s t = elim (Bool-cases (str_lt s t)) [
  | inl e ↦ inl e
  | inr e ↦ elim (Bool-cases (str_lt t s)) [
    | inl f ↦ inr (inl f)
    | inr f ↦ inr (inr (str_lt_total s t e f))
  ]
]
