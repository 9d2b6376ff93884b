-- ===== src/Base/Keys.antt =====
-- The keys of a map: which there are, and how often each stands in the list.
use mathlib.Core.List.{Permᴰ}
use mathlib.Core.Path.{subst}
use fqdn_egress_operator.Base.{
  Text, str_eq, str_eq_iff, eq_of_str_eq, ◌||◌, List, [], ◌∷◌, map, if◌then◌else◌, ◌≡◌, refl, ap,
  sym, ◌∙◌, inl, inr, any, mem-map, map-perm, arith, Memᴰ, Bool-cases, is_some, none,
}
use fqdn_egress_operator.Base.Sum.{count_if}
use fqdn_egress_operator.Base.Dict.{Dict, get, put, get-put, UniqueKeys, keys}

pub keys-map {ℓ} : {V : Type ℓ} (m : Dict V) → keys m ≡ map (λ (e : Text × V). e.0) m
keys-map [] = refl
keys-map ((k, v) ∷ m) = ap (◌∷◌ k) (keys-map m)

pub keys-perm {ℓ} : {V : Type ℓ} (m n : Dict V) → Permᴰ m n → Permᴰ (keys m) (keys n)
keys-perm {V = V} m n d =
    subst (λ (l : List Text). Permᴰ l (keys n)) (sym (keys-map m))
      (subst (λ (l : List Text). Permᴰ (map (λ (e : Text × V). e.0) m) l) (sym (keys-map n))
        (map-perm (λ (e : Text × V). e.0) d))

pub mem-keys {ℓ} : {V : Type ℓ} (k : Text) (v : V) (m : Dict V) → Memᴰ (k, v) m → Memᴰ k (keys m)
mem-keys {V = V} k v m h = subst (Memᴰ k) (sym (keys-map m)) (mem-map (λ (e : Text × V). e.0) m h)

pub any-keys {ℓ} :
    {V : Type ℓ} (f : Text) (m : Dict V)
    → any (λ (e : Text × V). str_eq e.0 f) m ≡ is_some (get f m)
unfolding any get
any-keys f [] = refl
any-keys f ((k, v) ∷ m) = ground (arith, any-keys f m)

pub is_some-put {ℓ} :
    {V : Type ℓ} (k f : Text) (v : V) (m : Dict V)
    → is_some (get f (put k v m)) ≡ (str_eq k f || is_some (get f m))
is_some-put k f v m = ground (arith, get-put k f v m)

-- A key that stands once is counted once.
pub count-keys {ℓ} :
    {V : Type ℓ} (f : Text) (m : Dict V)
    → UniqueKeys m
    → count_if (str_eq f) (keys m) ≡ (if is_some (get f m) then 1 else 0)
unfolding count_if get
count-keys f [] u = refl
count-keys f ((k, v) ∷ m) u =
    let ih = count-keys f m u.1 in
    elim (Bool-cases (str_eq k f)) [
      | inl e ↦
          let q = eq_of_str_eq k f e in
          let gone : get f m ≡ none = ap (λ (j : Text). get j m) (sym q) ∙ u.0 in
          ground (arith, ih, gone, str_eq_iff f k, sym q)
      | inr e ↦ ground (arith, ih, str_eq_iff f k, str_eq_iff k f)
    ]

pub count-entries {ℓ} :
    {V : Type ℓ} (c : Text) (m : Dict V)
    → UniqueKeys m
    → count_if (λ (e : Text × V). str_eq e.0 c) m ≡ (if is_some (get c m) then 1 else 0)
unfolding count_if get
count-entries c [] u = refl
count-entries c ((k, v) ∷ m) u =
    let ih = count-entries c m u.1 in
    elim (Bool-cases (str_eq k c)) [
      | inl e ↦
          let gone : get c m ≡ none = ap (λ (j : Text). get j m) (sym (eq_of_str_eq k c e)) ∙ u.0 in
          ground (arith, ih, gone)
      | inr e ↦ ground (arith, ih)
    ]
