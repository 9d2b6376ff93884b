-- ===== src/Api/Fqdn/Pattern.antt =====
-- The regular expressions on names: labelRegexp of api/v1alpha1/networkpolicy_funcs.go, and the pattern
-- that networkpolicy_types.go gives the type FQDN.
use mathlib.Core.Path.{subst}
use fqdn_egress_operator.Base.{
  ℕ, ◌+◌, ◌≤◌, Text, true, [], ◌∷◌, ◌++◌, ◌≡◌, refl, ap, sym, ◌∙◌, arith, Bool-cases, Bool-ext, inl,
  inr, length, length-append,
}
use fqdn_egress_operator.Base.Regex.{
  Regex, eps, class, seq, upto, opt, matches, matches-eps, matches-alt, matches-class,
  class-matches, matches-seq, seq-matches, Every, matches-upto_class, upto_class-matches,
}
use fqdn_egress_operator.Api.Fqdn.{is_alnum, is_label_char, label_matches}
use fqdn_egress_operator.Api.Fqdn.Labels.{
  EndsInAlnum, IsLabel, label_matches-IsLabel, IsLabel-label_matches,
}

-- ^[a-zA-Z0-9]([a-zA-Z0-9-]{0,61}[a-zA-Z0-9])?$
abbrev pub label_regexp : Regex
label_regexp = seq (class is_alnum) (opt (seq (upto 61 (class is_label_char)) (class is_alnum)))

alnum-label_char : (c : ℕ) → is_alnum c ≡ true → is_label_char c ≡ true
unfolding is_label_char
alnum-label_char c h = ground arith

-- Characters of labels, and a letter or a digit at the end.
inner_label :
    (s : Text) (d : ℕ)
    → Every is_label_char s
    → is_alnum d ≡ true
    → (Every is_label_char (s ++ (d ∷ []))) × EndsInAlnum (s ++ (d ∷ []))
inner_label [] d a e = ((alnum-label_char d e, tt), e)
inner_label (c ∷ []) d a e = ((a.0, (alnum-label_char d e, tt)), e)
inner_label (c ∷ b ∷ s) d a e = let ih = inner_label (b ∷ s) d a.1 e in ((a.0, ih.0), ih.1)

prefix_label : (c : ℕ) (s : Text) → is_alnum c ≡ true → EndsInAlnum s → EndsInAlnum (c ∷ s)
prefix_label c [] h e = h
prefix_label c (d ∷ s) h e = e

pub regexp-IsLabel : (s : Text) → matches label_regexp s ≡ true → IsLabel s
regexp-IsLabel s h =
    let parts =
      matches-seq (class is_alnum) (opt (seq (upto 61 (class is_label_char)) (class is_alnum))) s
        h in
    let (c, one, alnum) = matches-class is_alnum parts.first parts.left in
    let whole : s ≡ c ∷ parts.second = parts.whole ∙ ap (λ (t : Text). t ++ parts.second) one in
    subst IsLabel (sym whole) (tail_label c parts.second alnum parts.right)
  where
    long_label :
        (c : ℕ) (t : Text)
        → is_alnum c ≡ true
        → matches (seq (upto 61 (class is_label_char)) (class is_alnum)) t ≡ true
        → IsLabel (c ∷ t)
    long_label c t alnum k =
        let parts = matches-seq (upto 61 (class is_label_char)) (class is_alnum) t k in
        let (fits, all) = matches-upto_class 61 is_label_char parts.first parts.left in
        let (d, one, last) = matches-class is_alnum parts.second parts.right in
        let whole : t ≡ parts.first ++ (d ∷ []) =
          parts.whole ∙ ap (λ (u : Text). parts.first ++ u) one in
        let (every, ends) = inner_label parts.first d all last in
        subst (λ u. IsLabel (c ∷ u)) (sym whole)
          (record {
            length_le = let n = length-append parts.first (d ∷ []) in omega (arith, n, fits);
            chars = (alnum-label_char c alnum, every);
            starts = alnum;
            ends = prefix_label c (parts.first ++ (d ∷ [])) alnum ends;
          })

    tail_label :
        (c : ℕ) (t : Text)
        → is_alnum c ≡ true
        → matches (opt (seq (upto 61 (class is_label_char)) (class is_alnum))) t ≡ true
        → IsLabel (c ∷ t)
    tail_label c t alnum k = elim (Bool-cases (matches eps t)) [
      | inl e ↦
          subst (λ u. IsLabel (c ∷ u)) (sym (matches-eps t e))
            (record {
              length_le = omega arith;
              chars = (alnum-label_char c alnum, tt);
              starts = alnum;
              ends = alnum;
            })
      | inr e ↦
          let rest = matches-alt eps (seq (upto 61 (class is_label_char)) (class is_alnum)) t in
          long_label c t alnum (ground (arith, sym rest ∙ k, e))
    ]

-- The last character apart.
record Last (s : Text) : Type 0 where
  front : Text
  final : ℕ
  whole : s ≡ front ++ (final ∷ [])
  alnum : is_alnum final ≡ true
  every : Every is_label_char front
  size : length s ≡ length front + 1

EndsInAlnum-Last : (s : Text) → Every is_label_char s → EndsInAlnum s → Last s
EndsInAlnum-Last [] a e = absurd e
EndsInAlnum-Last (c ∷ []) a e = record {
  front = [];
  final = c;
  whole = refl;
  alnum = e;
  every = tt;
  size = refl;
}
EndsInAlnum-Last (c ∷ d ∷ s) a e =
    let ih = EndsInAlnum-Last (d ∷ s) a.1 e in
    record {
      front = c ∷ ih.front;
      final = ih.final;
      whole = ap (◌∷◌ c) ih.whole;
      alnum = ih.alnum;
      every = (a.0, ih.every);
      size = omega (arith, ih.size);
    }

abbrev label_tail : Regex
label_tail = seq (upto 61 (class is_label_char)) (class is_alnum)

abbrev NilOrEnds : Text → Type 0
NilOrEnds [] = Unit
NilOrEnds (c ∷ s) = EndsInAlnum (c ∷ s)

rest_ends : (c : ℕ) (s : Text) → EndsInAlnum (c ∷ s) → NilOrEnds s
rest_ends c [] e = tt
rest_ends c (d ∷ s) e = e

opt_tail :
    (s : Text)
    → Every is_label_char s
    → length s ≤ 62
    → NilOrEnds s
    → matches (opt label_tail) s ≡ true
opt_tail [] a l e = unfold matches in refl
opt_tail (c ∷ s) a l e =
    let p = EndsInAlnum-Last (c ∷ s) a e in
    let long : matches label_tail (c ∷ s) ≡ true =
      subst (λ t. matches label_tail t ≡ true) (sym p.whole)
        (seq-matches (upto 61 (class is_label_char)) (class is_alnum) p.front (p.final ∷ [])
          (upto_class-matches 61 is_label_char p.front (omega (arith, p.size, l)) p.every)
          (class-matches is_alnum p.final p.alnum)) in
    matches-alt eps label_tail (c ∷ s) ∙ ground (arith, long)

pub IsLabel-regexp : (s : Text) → IsLabel s → matches label_regexp s ≡ true
IsLabel-regexp [] h = absurd h.starts
IsLabel-regexp (c ∷ s) h =
    seq-matches (class is_alnum) (opt label_tail) (c ∷ []) s (class-matches is_alnum c h.starts)
      (opt_tail s h.chars.1 (omega (arith, h.length_le)) (rest_ends c s h.ends))

-- The function that matches labels agrees with the regular expression of the source.
pub label_matches-regexp : (s : Text) → label_matches s ≡ matches label_regexp s
label_matches-regexp s =
    Bool-ext (label_matches s) (matches label_regexp s)
      (λ h. IsLabel-regexp s (label_matches-IsLabel s h))
      (λ h. IsLabel-label_matches s (regexp-IsLabel s h))
