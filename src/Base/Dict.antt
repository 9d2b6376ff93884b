-- ===== src/Base/Dict.antt =====
-- Go's maps with string keys: an association list in which a key stands once. The order of the
-- entries is not observable: code that ranges over a map goes through `Base.Range`.
use fqdn_egress_operator.Base.{
  ◌≡◌, refl, ap, ◌∙◌, inl, inr, Bool, false, List, [], ◌∷◌, Memᴰ, arith, if◌then◌else◌, Bool-cases,
  Text, str_eq, str_eq_iff, str_eq_refl, eq_of_str_eq, Option, none, some,
}

abbrev pub Dict {ℓ} : Type ℓ → Type ℓ
Dict V = List (Text × V)

module _ {ℓ} {V : Type ℓ} where
  -- `v, ok := m[k]`
  unfoldable pub get : Text → Dict V → Option V
  get k [] = none
  get k ((j, v) ∷ m) = if str_eq j k then some v else get k m

  -- `m[k] = v`
  unfoldable pub put : Text → V → Dict V → Dict V
  put k v [] = (k, v) ∷ []
  put k v ((j, w) ∷ m) = let rest = put k v m in if str_eq j k then (j, v) ∷ m else (j, w) ∷ rest

  -- `delete(m, k)` for each key that a test picks, while ranging over `m`: Go visits each entry once
  -- and takes the picked ones out.
  unfoldable pub delete_where : (Text → Bool) → Dict V → Dict V
  delete_where p [] = []
  delete_where p ((j, v) ∷ m) = let rest = delete_where p m in if p j then rest else (j, v) ∷ rest

  abbrev pub keys : Dict V → List Text
  keys [] = []
  keys ((j, v) ∷ m) = j ∷ keys m

  abbrev pub values : Dict V → List V
  values [] = []
  values ((j, v) ∷ m) = v ∷ values m

  -- A key stands once.
  abbrev pub UniqueKeys : Dict V → Type ℓ
  UniqueKeys [] = Unit
  UniqueKeys ((j, v) ∷ m) = (get j m ≡ none) × UniqueKeys m

module _ {ℓ} {V : Type ℓ} where
  pub get-put :
      (k j : Text) (v : V) (m : Dict V)
      → get j (put k v m) ≡ (if str_eq k j then some v else get j m)
  unfolding get put
  get-put k j v [] = refl
  get-put k j v ((i, w) ∷ m) =
      ground (arith, str_eq_iff k j, str_eq_iff i k, str_eq_iff i j, get-put k j v m)

  pub get-put_self : (k : Text) (v : V) (m : Dict V) → get k (put k v m) ≡ some v
  get-put_self k v m = get-put k k v m ∙ rw (str_eq_refl k)

  pub get-delete_where :
      (p : Text → Bool) (j : Text) (m : Dict V)
      → get j (delete_where p m) ≡ (if p j then none else get j m)
  unfolding get delete_where
  get-delete_where p j [] = ground arith
  get-delete_where p j ((i, w) ∷ m) = elim (Bool-cases (str_eq i j)) [
    | inl e ↦ ground (arith, ap p (eq_of_str_eq i j e), get-delete_where p j m)
    | inr e ↦ ground (arith, get-delete_where p j m)
  ]

  pub put-UniqueKeys : (k : Text) (v : V) (m : Dict V) → UniqueKeys m → UniqueKeys (put k v m)
  unfolding put
  put-UniqueKeys k v [] u = (unfold get in refl, tt)
  put-UniqueKeys k v ((j, w) ∷ m) u = elim (Bool-cases (str_eq j k)) [
    | inl e ↦ rw e u
    | inr e ↦ rw e (
      get-put k j v m ∙ ground (arith, str_eq_iff j k, str_eq_iff k j, u.0),
      put-UniqueKeys k v m u.1,
    )
  ]

  pub delete_where-UniqueKeys :
      (p : Text → Bool) (m : Dict V) → UniqueKeys m → UniqueKeys (delete_where p m)
  unfolding delete_where
  delete_where-UniqueKeys p [] u = tt
  delete_where-UniqueKeys p ((j, w) ∷ m) u = elim (Bool-cases (p j)) [
    | inl e ↦ rw e (delete_where-UniqueKeys p m u.1)
    | inr e ↦ rw e (get-delete_where p j m ∙ rw (e, u.0), delete_where-UniqueKeys p m u.1)
  ]

  -- A value that a key has stands in the list with it.
  pub mem-get : (k : Text) (v : V) (m : Dict V) → get k m ≡ some v → Memᴰ (k, v) m
  unfolding get
  mem-get k v [] h = absurd (cc)
  mem-get k v ((j, w) ∷ m) h = elim (Bool-cases (str_eq j k)) [
    | inl e ↦ Memᴰ.head (ground (arith, eq_of_str_eq j k e))
    | inr e ↦ Memᴰ.tail (mem-get k v m (rw e at h))
  ]

  get_of_later :
      (k j : Text) (v : V) (m : Dict V) → get k m ≡ some v → get j m ≡ none → str_eq j k ≡ false
  get_of_later k j v m h n =
      ground (arith, str_eq_iff j k, λ (e : j ≡ k). ap (λ (t : Text). get t m) e)

  pub get-mem : (k : Text) (v : V) (m : Dict V) → UniqueKeys m → Memᴰ (k, v) m → get k m ≡ some v
  unfolding get
  get-mem k v [] u h = elim h [ ]
  get-mem k v ((j, w) ∷ m) u (Memᴰ.head e) = ground (arith, str_eq_iff j k, e)
  get-mem k v ((j, w) ∷ m) u (Memᴰ.tail h) =
      let g = get-mem k v m u.1 h in rw (get_of_later k j v m g u.0) g
