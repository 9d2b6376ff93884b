-- ===== src/Base/Lists.antt =====
-- Lists measured by native numbers, and the Boolean quantifiers over a list.
use Prim.Native.Nat.{ℕ, suc, ◌+◌}
use mathlib.Core.Path.{◌≡◌, refl, ap, sym, subst, ◌∙◌}
use mathlib.Core.Bool.{Bool, true, false, ◌||◌}
use mathlib.Core.Logic.{inl, inr}
use mathlib.Core.List.{List, [], ◌∷◌, ◌++◌, map, Memᴰ, Permᴰ}
use native.Mathlib.Omega.{arith}
use fqdn_egress_operator.Base.Tests.{if◌then◌else◌, Bool-cases}

pub Bool-set : IsSet Bool
Bool-set = hlevel

module _ {ℓ} {A : Type ℓ} where
  abbrev pub length : List A → ℕ
  length [] = 0
  length (x ∷ xs) = suc (length xs)

  abbrev pub null : List A → Bool
  null [] = true
  null (x ∷ xs) = false

  unfoldable pub any : (A → Bool) → List A → Bool
  any p [] = false
  any p (x ∷ xs) = p x || any p xs

  -- `for` with a test: what passes is kept, in its order.
  unfoldable pub select : (A → Bool) → List A → List A
  select p [] = []
  select p (x ∷ xs) = let rest = select p xs in if p x then x ∷ rest else rest

  -- A predicate that holds of every element.
  abbrev pub All {κ} : (A → Type κ) → List A → Type κ
  All P [] = Unit
  All P (x ∷ xs) = P x × All P xs

module _ {ℓ} {A : Type ℓ} where
  pub length-append : (xs ys : List A) → length (xs ++ ys) ≡ length xs + length ys
  length-append [] ys = omega arith
  length-append (x ∷ xs) ys = omega (arith, length-append xs ys)

  pub any-append : (p : A → Bool) (xs ys : List A) → any p (xs ++ ys) ≡ (any p xs || any p ys)
  unfolding any
  any-append p [] ys = refl
  any-append p (x ∷ xs) ys = ground (arith, any-append p xs ys)

  pub any_intro : (p : A → Bool) {x : A} (xs : List A) → Memᴰ x xs → p x ≡ true → any p xs ≡ true
  unfolding any
  any_intro p [] m h = elim m [ ]
  any_intro p (y ∷ xs) (Memᴰ.head e) h = ground (arith, ap p e)
  any_intro p (y ∷ xs) (Memᴰ.tail m) h = ground (arith, any_intro p xs m h)

  pub any_elim : (p : A → Bool) (xs : List A) → any p xs ≡ true → (x : A) × Memᴰ x xs × (p x ≡ true)
  unfolding any
  any_elim p [] h = absurd (cc)
  any_elim p (x ∷ xs) h = elim (Bool-cases (p x)) [
    | inl e ↦ (x, Memᴰ.head refl, e)
    | inr e ↦ let (y, m, q) = any_elim p xs (rw e at h) in (y, Memᴰ.tail m, q)
  ]

  pub any_congr :
      (p q : A → Bool) (xs : List A) → ((x : A) → Memᴰ x xs → p x ≡ q x) → any p xs ≡ any q xs
  unfolding any
  any_congr p q [] h = refl
  any_congr p q (x ∷ xs) h =
      ground (arith, h x (Memᴰ.head refl), any_congr p q xs (λ y m. h y (Memᴰ.tail m)))

  -- The order of a list does not matter to `any`.
  pub any-perm : (p : A → Bool) {xs ys : List A} → Permᴰ xs ys → any p xs ≡ any p ys
  unfolding any
  any-perm p Permᴰ.nil = refl
  any-perm p (Permᴰ.cons e d) = ground (arith, ap p e, any-perm p d)
  any-perm p (Permᴰ.swap e f) = ground (arith, ap p e, ap p f)
  any-perm p (Permᴰ.trans d e) = any-perm p d ∙ any-perm p e

  pub mem-perm : {x : A} {xs ys : List A} → Permᴰ xs ys → Memᴰ x xs → Memᴰ x ys
  mem-perm Permᴰ.nil m = m
  mem-perm (Permᴰ.cons e d) (Memᴰ.head h) = Memᴰ.head (h ∙ e)
  mem-perm (Permᴰ.cons e d) (Memᴰ.tail m) = Memᴰ.tail (mem-perm d m)
  mem-perm (Permᴰ.swap e f) (Memᴰ.head h) = Memᴰ.tail (Memᴰ.head (h ∙ e))
  mem-perm (Permᴰ.swap e f) (Memᴰ.tail (Memᴰ.head h)) = Memᴰ.head (h ∙ f)
  mem-perm (Permᴰ.swap e f) (Memᴰ.tail (Memᴰ.tail m)) = Memᴰ.tail (Memᴰ.tail m)
  mem-perm (Permᴰ.trans d e) m = mem-perm e (mem-perm d m)

  pub length-perm : {xs ys : List A} → Permᴰ xs ys → length xs ≡ length ys
  length-perm Permᴰ.nil = refl
  length-perm (Permᴰ.cons e d) = ap suc (length-perm d)
  length-perm (Permᴰ.swap e f) = refl
  length-perm (Permᴰ.trans d e) = length-perm d ∙ length-perm e

  pub All_mem {κ} : (P : A → Type κ) {x : A} (xs : List A) → All P xs → Memᴰ x xs → P x
  All_mem P [] h m = elim m [ ]
  All_mem P (y ∷ xs) h (Memᴰ.head e) = subst P (sym e) h.0
  All_mem P (y ∷ xs) h (Memᴰ.tail m) = All_mem P xs h.1 m

module _ {ℓ κ} {A : Type ℓ} {B : Type κ} where
  pub any-map : (p : B → Bool) (f : A → B) (xs : List A) → any p (map f xs) ≡ any (λ x. p (f x)) xs
  unfolding any
  any-map p f [] = refl
  any-map p f (x ∷ xs) = ground (arith, any-map p f xs)

  pub length-map : (f : A → B) (xs : List A) → length (map f xs) ≡ length xs
  length-map f [] = refl
  length-map f (x ∷ xs) = ap suc (length-map f xs)

  pub mem-map : (f : A → B) {x : A} (xs : List A) → Memᴰ x xs → Memᴰ (f x) (map f xs)
  mem-map f [] m = elim m [ ]
  mem-map f (y ∷ ys) (Memᴰ.head e) = Memᴰ.head (ap f e)
  mem-map f (y ∷ ys) (Memᴰ.tail m) = Memᴰ.tail (mem-map f ys m)

  pub mem-map_elim :
      (f : A → B) {y : B} (xs : List A) → Memᴰ y (map f xs) → (x : A) × Memᴰ x xs × (f x ≡ y)
  mem-map_elim f [] m = elim m [ ]
  mem-map_elim f (x ∷ xs) (Memᴰ.head e) = (x, Memᴰ.head refl, sym e)
  mem-map_elim f (x ∷ xs) (Memᴰ.tail m) = let (z, k, e) = mem-map_elim f xs m in (z, Memᴰ.tail k, e)

  pub map-perm : (f : A → B) {xs ys : List A} → Permᴰ xs ys → Permᴰ (map f xs) (map f ys)
  map-perm f Permᴰ.nil = Permᴰ.nil
  map-perm f (Permᴰ.cons e d) = Permᴰ.cons (ap f e) (map-perm f d)
  map-perm f (Permᴰ.swap e g) = Permᴰ.swap (ap f e) (ap f g)
  map-perm f (Permᴰ.trans d e) = Permᴰ.trans (map-perm f d) (map-perm f e)

module _ {ℓ κ} {A : Type ℓ} where
  pub All-of_mem : (P : A → Type κ) (xs : List A) → ((x : A) → Memᴰ x xs → P x) → All P xs
  All-of_mem P [] h = tt
  All-of_mem P (x ∷ xs) h = (h x (Memᴰ.head refl), All-of_mem P xs (λ y m. h y (Memᴰ.tail m)))
