-- ===== src/Api/DeepCopy/Isolated.antt =====
-- A deep copy reads as its original, and neither sees what is later written to the other.
use mathlib.Core.Path.{subst}
use fqdn_egress_operator.Base.{
  ℕ, zero, suc, ◌≤◌, ◌<◌, List, [], ◌∷◌, ◌++◌, map, length, length-append, ◌≡◌, refl, ap, sym, ◌∙◌,
  All, arith,
}
use fqdn_egress_operator.Api.DeepCopy.{
  Slot, nil, num, text, ref, Struct, Store, array_at, Layout, end, plain, each,
}

-- What a reader meets, row by row.
pub data Token : Type 0 where
  slot : Slot → Token
  absent : Token
  items : ℕ → Token

abbrev pub concat : (Struct → List Token) → List Struct → List Token
concat read [] = []
concat read (s ∷ rest) = read s ++ concat read rest

-- All that can be read from a struct of a layout, through its references.
unfoldable pub read : Layout → Store → Struct → List Token
unfolding array_at
read (plain p) h (s ∷ fields) = slot s ∷ read p h fields
read (each e p) h (ref l ∷ fields) =
    items (length (array_at l h)) ∷ (concat (read e h) (array_at l h) ++ read p h fields)
read (each e p) h (s ∷ fields) = absent ∷ read p h fields
read _ h fields = map slot fields

abbrev Flat : Slot → Type 0
Flat (num n) = Unit
Flat (text t) = Unit
Flat _ = ⊥

-- A struct that has the layout, all of whose references are at n or later and in the store.
abbrev pub Owns : Layout → ℕ → Store → Struct → Type 0
Owns end n h [] = Unit
Owns (plain p) n h (s ∷ fields) = Flat s × Owns p n h fields
Owns (each e p) n h (nil ∷ fields) = Owns p n h fields
Owns (each e p) n h (ref l ∷ fields) =
    (n ≤ l) × (l < length h) × All (Owns e n h) (array_at l h) × Owns p n h fields
Owns _ n h _ = ⊥

-- From n on, the arrays of the first store are in the second as they are.
pub record Agrees (n : ℕ) (h k : Store) : Type 0 where
  pub longer : length h ≤ length k
  pub same : (l : ℕ) → n ≤ l → l < length h → array_at l k ≡ array_at l h

pub All-Owns :
    (P Q : Struct → Type 0) (xs : List Struct) → ((s : Struct) → P s → Q s) → All P xs → All Q xs
All-Owns P Q [] f h = tt
All-Owns P Q (s ∷ rest) f h = (f s h.0, All-Owns P Q rest f h.1)

pub Agrees-Owns :
    (p : Layout) (n : ℕ) (h k : Store) (s : Struct) → Agrees n h k → Owns p n h s → Owns p n k s
Agrees-Owns end n h k [] a o = tt
Agrees-Owns (plain p) n h k (s ∷ fields) a o = (o.0, Agrees-Owns p n h k fields a o.1)
Agrees-Owns (each e p) n h k (nil ∷ fields) a o = Agrees-Owns p n h k fields a o
Agrees-Owns (each e p) n h k (ref l ∷ fields) a (from, within, elements, rest) = (
  from,
  omega (arith, a.longer, within),
  subst (All (Owns e n k)) (sym (a.same l from within))
      (All-Owns (Owns e n h) (Owns e n k) (array_at l h) (λ s. Agrees-Owns e n h k s a) elements),
  Agrees-Owns p n h k fields a rest,
)
Agrees-Owns end n h k (s ∷ fields) a o = absurd o
Agrees-Owns (plain p) n h k [] a o = absurd o
Agrees-Owns (each e p) n h k [] a o = absurd o
Agrees-Owns (each e p) n h k (num x ∷ fields) a o = absurd o
Agrees-Owns (each e p) n h k (text x ∷ fields) a o = absurd o

pub concat-All :
    (f g : Struct → List Token) (P : Struct → Type 0) (xs : List Struct)
    → ((s : Struct) → P s → f s ≡ g s)
    → All P xs
    → concat f xs ≡ concat g xs
concat-All f g P [] h a = refl
concat-All f g P (s ∷ rest) h a = cc (h s a.0, concat-All f g P rest h a.1)

pub Agrees-read :
    (p : Layout) (n : ℕ) (h k : Store) (s : Struct)
    → Agrees n h k
    → Owns p n h s
    → read p k s ≡ read p h s
unfolding read
Agrees-read end n h k [] a o = refl
Agrees-read (plain p) n h k (s ∷ fields) a o = ap (◌∷◌ (slot s)) (Agrees-read p n h k fields a o.1)
Agrees-read (each e p) n h k (nil ∷ fields) a o = ap (◌∷◌ absent) (Agrees-read p n h k fields a o)
Agrees-read (each e p) n h k (ref l ∷ fields) a (from, within, elements, rest) =
    let array = a.same l from within in
    let each_read =
      concat-All (read e k) (read e h) (Owns e n h) (array_at l h)
        (λ s o. Agrees-read e n h k s a o) elements in
    cc (array, each_read, Agrees-read p n h k fields a rest)
Agrees-read end n h k (s ∷ fields) a o = absurd o
Agrees-read (plain p) n h k [] a o = absurd o
Agrees-read (each e p) n h k [] a o = absurd o
Agrees-read (each e p) n h k (num x ∷ fields) a o = absurd o
Agrees-read (each e p) n h k (text x ∷ fields) a o = absurd o

-- References that are late are later than any earlier mark.
pub Owns-mono :
    (p : Layout) (n m : ℕ) (h : Store) (s : Struct) → m ≤ n → Owns p n h s → Owns p m h s
Owns-mono end n m h [] le o = tt
Owns-mono (plain p) n m h (s ∷ fields) le o = (o.0, Owns-mono p n m h fields le o.1)
Owns-mono (each e p) n m h (nil ∷ fields) le o = Owns-mono p n m h fields le o
Owns-mono (each e p) n m h (ref l ∷ fields) le (from, within, elements, rest) = (
  omega arith,
  within,
  All-Owns (Owns e n h) (Owns e m h) (array_at l h) (λ s. Owns-mono e n m h s le) elements,
  Owns-mono p n m h fields le rest,
)
Owns-mono end n m h (s ∷ fields) le o = absurd o
Owns-mono (plain p) n m h [] le o = absurd o
Owns-mono (each e p) n m h [] le o = absurd o
Owns-mono (each e p) n m h (num x ∷ fields) le o = absurd o
Owns-mono (each e p) n m h (text x ∷ fields) le o = absurd o

pub Agrees_refl : (n : ℕ) (h : Store) → Agrees n h h
Agrees_refl n h = record { longer = omega arith; same = λ l from within. refl }

pub Agrees_trans : (n m : ℕ) (g h k : Store) → n ≤ m → Agrees n g h → Agrees 0 h k → Agrees n g k
Agrees_trans n m g h k le a b = record {
  longer = omega (arith, a.longer, b.longer);
  same = λ l from within. b.same l (omega arith) (omega (arith, a.longer)) ∙ a.same l from within;
}

pub array_at-append : (l : ℕ) (h k : Store) → l < length h → array_at l (h ++ k) ≡ array_at l h
unfolding array_at
array_at-append l [] k within = absurd (omega arith)
array_at-append zero (a ∷ h) k within = refl
array_at-append (suc l) (a ∷ h) k within = array_at-append l h k (omega arith)

pub array_at-last : (h : Store) (a : List Struct) → array_at (length h) (h ++ (a ∷ [])) ≡ a
unfolding array_at
array_at-last [] a = refl
array_at-last (b ∷ h) a = array_at-last h a

pub Agrees-append : (h k : Store) → Agrees 0 h (h ++ k)
Agrees-append h k = record {
  longer = let n = length-append h k in omega arith;
  same = λ l from within. array_at-append l h k within;
}
