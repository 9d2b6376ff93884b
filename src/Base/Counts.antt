-- ===== src/Base/Counts.antt =====
-- Texts that stand equally often in two lists.
use mathlib.Core.List.{Permᴰ}
use mathlib.Core.List.Permᴰ as PermD
use fqdn_egress_operator.Base.{
  ◌<◌, Text, str_eq, str_eq_refl, eq_of_str_eq, List, [], ◌∷◌, ◌≡◌, refl, sym, inl, inr, arith,
  Bool-cases,
}
use fqdn_egress_operator.Base.Sum.{count_if, count_if-perm}

-- A text that stands in a list can be moved to its front.
to_front :
    (x : Text) (ys : List Text) → 0 < count_if (str_eq x) ys → (zs : List Text) × Permᴰ ys (x ∷ zs)
unfolding count_if
to_front x [] h = absurd (omega (arith, h))
to_front x (y ∷ ys) h = elim (Bool-cases (str_eq x y)) [
  | inl e ↦ (ys, Permᴰ.cons (sym (eq_of_str_eq x y e)) (PermD.refl ys))
  | inr e ↦
      let (zs, d) = to_front x ys (ground (arith, h, e)) in
      (y ∷ zs, Permᴰ.trans (Permᴰ.cons refl d) (Permᴰ.swap refl refl))
]

pub perm_of_counts :
    (xs ys : List Text)
    → ((f : Text) → count_if (str_eq f) xs ≡ count_if (str_eq f) ys)
    → Permᴰ xs ys
unfolding count_if
perm_of_counts [] [] h = Permᴰ.nil
perm_of_counts [] (y ∷ ys) h = absurd (ground (arith, h y, str_eq_refl y))
perm_of_counts (x ∷ xs) ys h =
    let (zs, d) = to_front x ys (ground (arith, h x, str_eq_refl x)) in
    let same : (f : Text) → count_if (str_eq f) xs ≡ count_if (str_eq f) zs =
      λ f. omega (arith, h f, count_if-perm (str_eq f) d) in
    Permᴰ.trans (Permᴰ.cons refl (perm_of_counts xs zs same)) (PermD.symm d)
