-- ===== src/Api/DeepCopy/Copied.antt =====
-- What deep_copy_into and deep_copy make, and what later writes leave of it.
use mathlib.Core.Path.{subst}
use fqdn_egress_operator.Base.{
  ℕ, suc, ◌≤◌, ◌<◌, List, [], ◌∷◌, ◌++◌, length, length-append, ◌≡◌, refl, ap, sym, ◌∙◌, All, arith,
}
use fqdn_egress_operator.Api.DeepCopy.{
  Slot, nil, num, text, ref, Struct, Store, array_at, Layout, end, plain, each, copy_all,
  deep_copy_into, deep_copy,
}
use fqdn_egress_operator.Api.DeepCopy.Isolated.{
  Token, slot, absent, concat, read, Owns, Agrees, All-Owns, Agrees-Owns, concat-All, Agrees-read,
  Owns-mono, Agrees_refl, Agrees_trans, array_at-last, Agrees-append,
}

-- The store before is kept, the copy has references to new arrays alone, and it reads as the original.
pub record IsCopy (p : Layout) (s : Struct) (h : Store) (t : Struct) (k : Store) : Type 0 where
  pub keeps : Agrees 0 h k
  pub owned : Owns p (length h) k t
  pub same : read p k t ≡ read p h s

-- The same of an array.
pub record AreCopies (p : Layout) (xs : List Struct) (h : Store) (ys : List Struct) (k : Store)
    : Type 0 where
  pub keeps : Agrees 0 h k
  pub owned : All (Owns p (length h) k) ys
  pub same : concat (read p k) ys ≡ concat (read p h) xs
  pub count : length ys ≡ length xs

abbrev Copies : Layout → Type 0
Copies p =
    (s : Struct) (h : Store)
    → Owns p 0 h s
    → IsCopy p s h (deep_copy_into p s h).0 (deep_copy_into p s h).1

later : (n : ℕ) (h k : Store) → Agrees 0 h k → Agrees n h k
later n h k a = record { longer = a.longer; same = λ l from within. a.same l (omega arith) within }

copy_all-AreCopies :
    (p : Layout) (xs : List Struct) (h : Store)
    → Copies p
    → All (Owns p 0 h) xs
    → AreCopies p xs h (copy_all (deep_copy_into p) xs h).0 (copy_all (deep_copy_into p) xs h).1
unfolding copy_all
copy_all-AreCopies p [] h copies o = record {
  keeps = Agrees_refl 0 h;
  owned = tt;
  same = refl;
  count = refl;
}
copy_all-AreCopies p (s ∷ rest) h copies o =
    let first = copies s h o.0 in
    let h1 = (deep_copy_into p s h).1 in
    let kept =
      All-Owns (Owns p 0 h) (Owns p 0 h1) rest (λ t. Agrees-Owns p 0 h h1 t first.keeps) o.1 in
    let more = copy_all-AreCopies p rest h1 copies kept in
    let h2 = (copy_all (deep_copy_into p) rest h1).1 in
    let t = (deep_copy_into p s h).0 in
    record {
      keeps = Agrees_trans 0 0 h h1 h2 (omega arith) first.keeps more.keeps;
      owned = (
        Agrees-Owns p (length h) h1 h2 t (later (length h) h1 h2 more.keeps) first.owned,
        All-Owns (Owns p (length h1) h2) (Owns p (length h) h2) _
            (λ u. Owns-mono p (length h1) (length h) h2 u first.keeps.longer) more.owned,
      );
      same =
          let head =
            Agrees-read p (length h) h1 h2 t (later (length h) h1 h2 more.keeps) first.owned
            ∙ first.same in
          let tail =
            more.same
            ∙ concat-All (read p h1) (read p h) (Owns p 0 h) rest
                (λ u o. Agrees-read p 0 h h1 u first.keeps o) o.1 in
          cc (head, tail);
      count = ap suc more.count;
    }

-- A new array is put at the end of the store.
ref-IsCopy :
    (e p : Layout) (l : ℕ) (fields : Struct) (h h1 k : Store) (ys : List Struct) (t : Struct)
    → Owns (each e p) 0 h (ref l ∷ fields)
    → AreCopies e (array_at l h) h ys h1
    → IsCopy p fields (h1 ++ (ys ∷ [])) t k
    → IsCopy (each e p) (ref l ∷ fields) h (ref (length h1) ∷ t) k
unfolding read
ref-IsCopy e p l fields h h1 k ys t (from, within, elements, rest) array after =
    let h2 = h1 ++ (ys ∷ []) in
    let size = length-append h1 (ys ∷ []) in
    let kept = Agrees-append h1 (ys ∷ []) in
    let to_end = Agrees_trans 0 0 h1 h2 k (omega arith) kept after.keeps in
    let before = Agrees_trans 0 0 h h1 h2 (omega arith) array.keeps kept in
    let placed : array_at (length h1) k ≡ ys =
      after.keeps.same (length h1) (omega arith) (omega arith) ∙ array_at-last h1 ys in
    let owned =
      All-Owns (Owns e (length h) h1) (Owns e (length h) k) ys
        (λ s. Agrees-Owns e (length h) h1 k s (later (length h) h1 k to_end)) array.owned in
    record {
      keeps = Agrees_trans 0 0 h h2 k (omega arith) before after.keeps;
      owned = (
        array.keeps.longer,
        omega (arith, after.keeps.longer, size),
        subst (All (Owns e (length h) k)) (sym placed) owned,
        Owns-mono p (length h2) (length h) k t before.longer after.owned,
      );
      same =
          let elements_same : concat (read e k) ys ≡ concat (read e h) (array_at l h) =
            concat-All (read e k) (read e h1) (Owns e (length h) h1) ys
              (λ s o. Agrees-read e (length h) h1 k s (later (length h) h1 k to_end) o) array.owned
            ∙ array.same in
          let fields_same = after.same ∙ Agrees-read p 0 h h2 fields before rest in
          cc (placed, elements_same, fields_same, array.count);
    }

plain-IsCopy :
    (p : Layout) (s : Slot) (fields t : Struct) (h k : Store)
    → Owns (plain p) 0 h (s ∷ fields)
    → IsCopy p fields h t k
    → IsCopy (plain p) (s ∷ fields) h (s ∷ t) k
unfolding read
plain-IsCopy p s fields t h k o c = record {
  keeps = c.keeps;
  owned = (o.0, c.owned);
  same = ap (◌∷◌ (slot s)) c.same;
}

nil-IsCopy :
    (e p : Layout) (fields t : Struct) (h k : Store)
    → IsCopy p fields h t k
    → IsCopy (each e p) (nil ∷ fields) h (nil ∷ t) k
unfolding read
nil-IsCopy e p fields t h k c = record {
  keeps = c.keeps;
  owned = c.owned;
  same = ap (◌∷◌ absent) c.same;
}

deep_copy_into-IsCopy : (p : Layout) → Copies p
unfolding deep_copy_into
deep_copy_into-IsCopy end [] h o = record { keeps = Agrees_refl 0 h; owned = tt; same = refl }
deep_copy_into-IsCopy end (s ∷ fields) h o = absurd o
deep_copy_into-IsCopy (plain p) [] h o = absurd o
deep_copy_into-IsCopy (plain p) (s ∷ fields) h o =
    plain-IsCopy p s fields _ h _ o (deep_copy_into-IsCopy p fields h o.1)
deep_copy_into-IsCopy (each e p) [] h o = absurd o
deep_copy_into-IsCopy (each e p) (nil ∷ fields) h o =
    nil-IsCopy e p fields _ h _ (deep_copy_into-IsCopy p fields h o)
deep_copy_into-IsCopy (each e p) (num n ∷ fields) h o = absurd o
deep_copy_into-IsCopy (each e p) (text t ∷ fields) h o = absurd o
deep_copy_into-IsCopy (each e p) (ref l ∷ fields) h (from, within, elements, rest) =
    let array = copy_all-AreCopies e (array_at l h) h (deep_copy_into-IsCopy e) elements in
    let ys = (copy_all (deep_copy_into e) (array_at l h) h).0 in
    let h1 = (copy_all (deep_copy_into e) (array_at l h) h).1 in
    let h2 = h1 ++ (ys ∷ []) in
    let before = Agrees_trans 0 0 h h1 h2 (omega arith) array.keeps (Agrees-append h1 (ys ∷ [])) in
    ref-IsCopy e p l fields h h1 _ ys _ (from, within, elements, rest) array
      (deep_copy_into-IsCopy p fields h2 (Agrees-Owns p 0 h h2 fields before rest))

-- All that was in the store before its n-th array is as it was.
pub record KeepsOld (n : ℕ) (k g : Store) : Type 0 where
  pub longer : length k ≤ length g
  pub same : (l : ℕ) → l < n → array_at l g ≡ array_at l k

-- What a pointer to a struct of the layout reads.
abbrev pub read_pointer : Layout → Store → Slot → List Token
read_pointer p h v = read (each p end) h (v ∷ [])

deep_copy-IsCopy :
    (p : Layout) (v : Slot) (h : Store)
    → Owns (each p end) 0 h (v ∷ [])
    → IsCopy (each p end) (v ∷ []) h ((deep_copy p v h).0 ∷ []) (deep_copy p v h).1
unfolding deep_copy
deep_copy-IsCopy p nil h o = deep_copy_into-IsCopy (each p end) (nil ∷ []) h o
deep_copy-IsCopy p (num n) h o = absurd o
deep_copy-IsCopy p (text t) h o = absurd o
deep_copy-IsCopy p (ref l) h o = deep_copy_into-IsCopy (each p end) (ref l ∷ []) h o

-- The copy by a layout is apart from its original, where both are read by that layout.
pub deep_copy_isolated :
    (p : Layout) (v : Slot) (h : Store)
    → Owns (each p end) 0 h (v ∷ [])
    → let (w, k) = deep_copy p v h in
      (read_pointer p k w ≡ read_pointer p h v)
      × ((g : Store) → Agrees (length h) k g → read_pointer p g w ≡ read_pointer p h v)
      × ((g : Store) → KeepsOld (length h) k g → read_pointer p g v ≡ read_pointer p h v)
deep_copy_isolated p v h o =
    let c = deep_copy-IsCopy p v h o in
    let w = (deep_copy p v h).0 in
    let k = (deep_copy p v h).1 in
    (
      c.same,
      λ g a. Agrees-read (each p end) (length h) k g (w ∷ []) a c.owned ∙ c.same,
      λ g a.
          Agrees-read (each p end) 0 h g (v ∷ [])
            (record {
              longer = omega (arith, c.keeps.longer, a.longer);
              same = λ l from within. a.same l within ∙ c.keeps.same l from within;
            })
            o,
    )
