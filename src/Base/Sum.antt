-- ===== src/Base/Sum.antt =====
-- Sums over a list, and how often a test holds in it.
use mathlib.Core.List.{Permᴰ}
use fqdn_egress_operator.Base.{
  ℕ, ◌+◌, ◌≡◌, refl, ap, ◌∙◌, Bool, List, [], ◌∷◌, map, arith, if◌then◌else◌,
}

module _ {ℓ} {A : Type ℓ} where
  unfoldable pub sum_over : (A → ℕ) → List A → ℕ
  sum_over f [] = 0
  sum_over f (x ∷ xs) = f x + sum_over f xs

  unfoldable pub count_if : (A → Bool) → List A → ℕ
  count_if p [] = 0
  count_if p (x ∷ xs) = (if p x then 1 else 0) + count_if p xs

module _ {ℓ} {A : Type ℓ} where
  pub sum_over-perm : (f : A → ℕ) {xs ys : List A} → Permᴰ xs ys → sum_over f xs ≡ sum_over f ys
  unfolding sum_over
  sum_over-perm f Permᴰ.nil = refl
  sum_over-perm f (Permᴰ.cons e d) = omega (arith, ap f e, sum_over-perm f d)
  sum_over-perm f (Permᴰ.swap e g) = omega (arith, ap f e, ap f g)
  sum_over-perm f (Permᴰ.trans d e) = sum_over-perm f d ∙ sum_over-perm f e

  pub sum_over-add :
      (f g : A → ℕ) (xs : List A) → sum_over (λ x. f x + g x) xs ≡ sum_over f xs + sum_over g xs
  unfolding sum_over
  sum_over-add f g [] = omega arith
  sum_over-add f g (x ∷ xs) = omega (arith, sum_over-add f g xs)

  pub sum_over_congr :
      (f g : A → ℕ) (xs : List A) → ((x : A) → f x ≡ g x) → sum_over f xs ≡ sum_over g xs
  unfolding sum_over
  sum_over_congr f g [] h = refl
  sum_over_congr f g (x ∷ xs) h = omega (arith, h x, sum_over_congr f g xs h)

  pub sum_over_zero : (f : A → ℕ) (xs : List A) → ((x : A) → f x ≡ 0) → sum_over f xs ≡ 0
  unfolding sum_over
  sum_over_zero f [] h = refl
  sum_over_zero f (x ∷ xs) h = omega (arith, h x, sum_over_zero f xs h)

  -- A count is a sum of ones.
  pub sum_over_test :
      (p : A → Bool) (xs : List A) → sum_over (λ x. if p x then 1 else 0) xs ≡ count_if p xs
  unfolding sum_over count_if
  sum_over_test p [] = refl
  sum_over_test p (x ∷ xs) = ground (arith, sum_over_test p xs)

  pub count_if-perm : (p : A → Bool) {xs ys : List A} → Permᴰ xs ys → count_if p xs ≡ count_if p ys
  unfolding count_if
  count_if-perm p Permᴰ.nil = refl
  count_if-perm p (Permᴰ.cons e d) = ground (arith, ap p e, count_if-perm p d)
  count_if-perm p (Permᴰ.swap e g) = ground (arith, ap p e, ap p g)
  count_if-perm p (Permᴰ.trans d e) = count_if-perm p d ∙ count_if-perm p e

module _ {ℓ κ} {A : Type ℓ} {B : Type κ} where
  pub sum_over-map :
      (f : B → ℕ) (g : A → B) (xs : List A) → sum_over f (map g xs) ≡ sum_over (λ x. f (g x)) xs
  unfolding sum_over
  sum_over-map f g [] = refl
  sum_over-map f g (x ∷ xs) = omega (arith, sum_over-map f g xs)

  pub count_if-map :
      (p : B → Bool) (g : A → B) (xs : List A) → count_if p (map g xs) ≡ count_if (λ x. p (g x)) xs
  unfolding count_if
  count_if-map p g [] = refl
  count_if-map p g (x ∷ xs) = ground (arith, count_if-map p g xs)
