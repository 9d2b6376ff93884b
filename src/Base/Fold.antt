-- ===== src/Base/Fold.antt =====
-- Maps that a loop fills, one entry for each element that a test picks, in whichever order.
use mathlib.Core.List.{Permᴰ}
use mathlib.Core.List.Permᴰ as PermD
use fqdn_egress_operator.Base.{
  ◌≡◌, refl, sym, ◌∙◌, inl, inr, Bool, List, [], ◌∷◌, Memᴰ, arith, if◌then◌else◌, Bool-cases, Text,
  str_eq, str_eq_iff, eq_of_str_eq, mem-perm, any, All, ◌&&◌, some, ap,
}
use fqdn_egress_operator.Base.Dict.{Dict, get, put, get-put}

-- No two different elements have the same key.
abbrev pub Determined {ℓ} : {A : Type ℓ} → (A → Text) → List A → Type ℓ
Determined key xs = (x y : _) → Memᴰ x xs → Memᴰ y xs → key x ≡ key y → x ≡ y

-- Two maps with the same entries.
abbrev pub SameEntries {ℓ} : {V : Type ℓ} → Dict V → Dict V → Type ℓ
SameEntries m n = (k : Text) → get k m ≡ get k n

module _ {ℓ κ} {A : Type ℓ} {V : Type κ} (key : A → Text) (value : A → V) (picked : A → Bool) where
  abbrev put_picked : A → Dict V → Dict V
  put_picked x m = if picked x then put (key x) (value x) m else m

  unfoldable pub put_each : List A → Dict V → Dict V
  put_each [] m = m
  put_each (x ∷ xs) m = put_each xs (put_picked x m)

  put_picked-SameEntries :
      (x : A) (m n : Dict V) → SameEntries m n → SameEntries (put_picked x m) (put_picked x n)
  put_picked-SameEntries x m n h k = elim (Bool-cases (picked x)) [
    | inl e ↦
        rw e (get-put (key x) k (value x) m ∙ (rw (h k) refl ∙ sym (get-put (key x) k (value x) n)))
    | inr e ↦ rw e (h k)
  ]

  put_each-SameEntries :
      (xs : List A) (m n : Dict V) → SameEntries m n → SameEntries (put_each xs m) (put_each xs n)
  unfolding put_each
  put_each-SameEntries [] m n h = h
  put_each-SameEntries (x ∷ xs) m n h =
      put_each-SameEntries xs (put_picked x m) (put_picked x n) (put_picked-SameEntries x m n h)

  put_picked_comm :
      (a b : A) (m : Dict V)
      → (key a ≡ key b → a ≡ b)
      → SameEntries (put_picked b (put_picked a m)) (put_picked a (put_picked b m))
  put_picked_comm a b m h k = elim (Bool-cases (str_eq (key a) (key b))) [
    | inl e ↦ let same : a ≡ b = h (eq_of_str_eq (key a) (key b) e) in rw same refl
    | inr e ↦ ground (
      arith,
      e,
      str_eq_iff (key a) (key b),
      str_eq_iff (key a) k,
      str_eq_iff (key b) k,
      get-put (key a) k (value a) m,
      get-put (key b) k (value b) m,
      get-put (key a) k (value a) (put (key b) (value b) m),
      get-put (key b) k (value b) (put (key a) (value a) m),
    )
  ]

  -- The entries do not depend on the order of the elements.
  pub put_each-perm :
      {xs ys : List A}
      → Permᴰ xs ys
      → Determined key xs
      → (m : Dict V) → SameEntries (put_each xs m) (put_each ys m)
  unfolding put_each
  put_each-perm Permᴰ.nil h m k = refl
  put_each-perm (Permᴰ.cons e d) h m k =
      put_each-perm d (λ x y p q. h x y (Memᴰ.tail p) (Memᴰ.tail q)) (put_picked _ m) k ∙ cc e
  put_each-perm (Permᴰ.swap {a = a} {b = b} {l = l} e f) h m k =
      put_each-SameEntries l (put_picked b (put_picked a m)) (put_picked a (put_picked b m))
        (put_picked_comm a b m (h a b (Memᴰ.head refl) (Memᴰ.tail (Memᴰ.head refl)))) k
      ∙ cc (e, f)
  put_each-perm (Permᴰ.trans d e) h m k =
      put_each-perm d h m k
      ∙ put_each-perm e (λ x y p q. h x y (mem-perm (PermD.symm d) p) (mem-perm (PermD.symm d) q)) m
          k

  -- The entry of a key that one element alone has.
  pub put_each-find :
      (k : Text) (x : A) (xs : List A) (m : Dict V)
      → All (λ y. key y ≡ k → y ≡ x) xs
      → get k (put_each xs m)
        ≡ (if any (λ y. str_eq (key y) k) xs && picked x then some (value x) else get k m)
  unfolding put_each any
  put_each-find k x [] m h = refl
  put_each-find k x (y ∷ ys) m h =
      let ih = put_each-find k x ys (put_picked y m) h.1 in
      elim (Bool-cases (str_eq (key y) k)) [
        | inl e ↦
            let same = h.0 (eq_of_str_eq (key y) k e) in
            let here : get k (put_picked y m) ≡ (if picked x then some (value x) else get k m) =
              rw same (elim (Bool-cases (picked x)) [
                | inl p ↦ rw p (
                    get-put (key x) k (value x) m
                    ∙ rw (ap (λ z. str_eq (key z) k) (sym same) ∙ e) refl)
                | inr p ↦ rw p refl
              ]) in
            ih ∙ ground (arith, e, here)
        | inr e ↦
            let here : get k (put_picked y m) ≡ get k m = elim (Bool-cases (picked y)) [
              | inl p ↦ rw p (get-put (key y) k (value y) m ∙ rw e refl)
              | inr p ↦ rw p refl
            ] in
            ih ∙ ground (arith, e, here)
      ]
