-- ===== src/Api/Fqdn/Labels.antt =====
-- FQDN.Valid against a description of domain names by their labels.
use fqdn_egress_operator.Base.{
  ℕ, ◌+◌, ◌-◌, ◌≤◌, ◌≡◌, refl, ◌↔◌, true, false, ◌||◌, List, [], ◌∷◌, arith, length, any, ◌==◌, not,
  leb, Text, bytes, All, join,
}
use fqdn_egress_operator.Api.Fqdn.{is_alnum, is_label_char, match_tail, label_matches, valid}
use fqdn_egress_operator.Base.Split.{Free, split, split-join, join-split}

-- A letter or a digit is the last character.
abbrev pub EndsInAlnum : Text → Type 0
EndsInAlnum [] = ⊥
EndsInAlnum (c ∷ []) = is_alnum c ≡ true
EndsInAlnum (c ∷ d ∷ s) = EndsInAlnum (d ∷ s)

abbrev pub StartsWithAlnum : Text → Type 0
StartsWithAlnum [] = ⊥
StartsWithAlnum (c ∷ s) = is_alnum c ≡ true

-- A label: 1 to 63 letters, digits and hyphens, with no hyphen at either end.
pub record IsLabel (s : Text) : Type 0 where
  pub length_le : length s ≤ 63
  pub chars : All (λ c. is_label_char c ≡ true) s
  pub starts : StartsWithAlnum s
  pub ends : EndsInAlnum s

match_tail_sound :
    (n : ℕ) (s : Text)
    → match_tail n s ≡ true
    → (length s ≤ n + 1) × All (λ c. is_label_char c ≡ true) s × EndsInAlnum s
unfolding match_tail
match_tail_sound n [] h = absurd (cc)
match_tail_sound n (c ∷ []) h = (omega arith, (unfold is_label_char in ground arith, tt), h)
match_tail_sound n (c ∷ d ∷ s) h =
    let k : leb 1 n ≡ true = ground arith in
    let chr : is_label_char c ≡ true = ground arith in
    let ih = match_tail_sound (n - 1) (d ∷ s) (ground arith) in
    (ground (arith, ih.0, k), (chr, ih.1), ih.2)

match_tail_complete :
    (n : ℕ) (s : Text)
    → length s ≤ n + 1
    → All (λ c. is_label_char c ≡ true) s
    → EndsInAlnum s
    → match_tail n s ≡ true
unfolding match_tail
match_tail_complete n [] l a e = absurd e
match_tail_complete n (c ∷ []) l a e = e
match_tail_complete n (c ∷ d ∷ s) l a e =
    ground (arith, match_tail_complete (n - 1) (d ∷ s) (omega arith) a.1 e, a.0)

pub label_matches-IsLabel : (s : Text) → label_matches s ≡ true → IsLabel s
unfolding label_matches
label_matches-IsLabel [] h = absurd (cc)
label_matches-IsLabel (c ∷ []) h = record {
  length_le = omega arith;
  chars = (unfold is_label_char in ground arith, tt);
  starts = ground arith;
  ends = ground arith;
}
label_matches-IsLabel (c ∷ d ∷ s) h =
    let alnum : is_alnum c ≡ true = ground arith in
    let t = match_tail_sound 61 (d ∷ s) (ground arith) in
    record {
      length_le = omega (arith, t.0);
      chars = (unfold is_label_char in ground arith, t.1);
      starts = alnum;
      ends = t.2;
    }

pub IsLabel-label_matches : (s : Text) → IsLabel s → label_matches s ≡ true
unfolding label_matches
IsLabel-label_matches [] h = absurd h.starts
IsLabel-label_matches (c ∷ []) h = ground (arith, h.starts)
IsLabel-label_matches (c ∷ d ∷ s) h =
    ground (
      arith,
      h.starts,
      match_tail_complete 61 (d ∷ s) (omega (arith, h.length_le)) h.chars.1 h.ends,
    )

-- A label holds no dot.
pub IsLabel-no_dot :
    (s : Text) → All (λ c. is_label_char c ≡ true) s → any (λ c. c == b'.') s ≡ false
unfolding any is_label_char is_alnum
IsLabel-no_dot [] h = refl
IsLabel-no_dot (c ∷ s) h = ground (arith, h.0, IsLabel-no_dot s h.1)

abbrev NoDot : Text → Type 0
NoDot s = Free b'.' s

All-labels :
    (labels : List Text)
    → any (λ label. length label == 0 || not (label_matches label)) labels ≡ false
    → All IsLabel labels
unfolding any
All-labels [] h = tt
All-labels (l ∷ labels) h =
    (label_matches-IsLabel l (ground arith), All-labels labels (ground arith))

All-labels_match :
    (labels : List Text)
    → All IsLabel labels
    → any (λ label. length label == 0 || not (label_matches label)) labels ≡ false
unfolding any
All-labels_match [] h = refl
All-labels_match ([] ∷ labels) h = absurd h.0.starts
All-labels_match ((c ∷ l) ∷ labels) h =
    ground (arith, IsLabel-label_matches (c ∷ l) h.0, All-labels_match labels h.1)

All-NoDot : (labels : List Text) → All IsLabel labels → All NoDot labels
All-NoDot [] h = tt
All-NoDot (l ∷ labels) h = (IsLabel-no_dot l h.0.chars, All-NoDot labels h.1)

-- A text is two or more labels, joined by dots.
abbrev pub IsFqdn : Text → Type 0
IsFqdn f =
    (labels : List Text) × (2 ≤ length labels) × All IsLabel labels × (join labels (bytes ".") ≡ f)

valid-IsFqdn : (f : Text) → valid f ≡ true → IsFqdn f
unfolding valid
valid-IsFqdn f h =
    (split b'.' f, ground arith, All-labels (split b'.' f) (ground arith), join-split b'.' f)

IsFqdn-valid :
    (f : Text) (labels : List Text)
    → 2 ≤ length labels
    → All IsLabel labels
    → join labels (bytes ".") ≡ f
    → valid f ≡ true
unfolding valid
IsFqdn-valid f [] n h e = absurd (omega arith)
IsFqdn-valid f (l ∷ labels) n h e =
    rw (← e, split-join b'.' l labels (All-NoDot (l ∷ labels) h).0 (All-NoDot (l ∷ labels) h).1)
      (ground (arith, All-labels_match (l ∷ labels) h))

-- Valid accepts exactly the texts that are two or more labels joined by dots, where a label is 1 to 63
-- ASCII letters, digits and hyphens with no hyphen at either end.
pub valid_iff : (f : Text) → (valid f ≡ true) ↔ IsFqdn f
valid_iff f = (valid-IsFqdn f, λ p. IsFqdn-valid f p.0 p.1 p.2 p.3)
