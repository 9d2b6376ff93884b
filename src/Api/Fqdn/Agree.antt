-- ===== src/Api/Fqdn/Agree.antt =====
-- FQDN.Valid on the names that the pattern of the API admits.
use fqdn_egress_operator.Base.{
  ℕ, ◌≤◌, Text, Bool, true, false, not, ◌||◌, List, [], ◌∷◌, ◌++◌, ◌≡◌, refl, ap, ◌∙◌, arith,
  Bool-ext, length, length-append, All, leb, ◌==◌, any, any-append,
}
use fqdn_egress_operator.Base.Regex.{matches, Every}
use fqdn_egress_operator.Base.Split.{split, split-last, split-append}
use fqdn_egress_operator.Api.Fqdn.{is_alnum, is_label_char, label_matches, valid}
use fqdn_egress_operator.Api.Fqdn.Labels.{
  EndsInAlnum, IsLabel, IsLabel-no_dot, label_matches-IsLabel, IsLabel-label_matches,
}
use fqdn_egress_operator.Api.Fqdn.Admitted.{
  is_letter, append_assoc, fqdn_pattern, dotted_all, IsTopLevel, pattern_iff,
}

-- The text after the last separator.
abbrev pub last_part : List Text → Text
last_part [] = []
last_part (s ∷ []) = s
last_part (s ∷ t ∷ parts) = last_part (t ∷ parts)

last_part-append : (parts : List Text) (t : Text) → last_part (parts ++ (t ∷ [])) ≡ t
last_part-append [] t = refl
last_part-append (s ∷ []) t = refl
last_part-append (s ∷ r ∷ parts) t = last_part-append (r ∷ parts) t

letters-label_chars : (s : Text) → Every is_letter s → Every is_label_char s
letters-label_chars [] h = tt
letters-label_chars (c ∷ s) h =
    (unfold is_label_char is_alnum is_letter in ground (arith, h.0), letters-label_chars s h.1)

letters-EndsInAlnum : (c : ℕ) (s : Text) → Every is_letter (c ∷ s) → EndsInAlnum (c ∷ s)
letters-EndsInAlnum c [] h = unfold is_alnum is_letter in ground (arith, h.0)
letters-EndsInAlnum c (d ∷ s) h = letters-EndsInAlnum d s h.1

-- A row of letters is a label if it is not too long.
top-label_matches : (t : Text) → IsTopLevel t → label_matches t ≡ leb (length t) 63
top-label_matches [] h = absurd (omega (arith, h.0))
top-label_matches (c ∷ s) h =
    Bool-ext (label_matches (c ∷ s)) (leb (length (c ∷ s)) 63)
      (λ e. let fits = (label_matches-IsLabel (c ∷ s) e).length_le in ground (arith, fits))
      (λ e. IsLabel-label_matches (c ∷ s) (record {
        length_le = ground arith;
        chars = letters-label_chars (c ∷ s) h.1;
        starts = unfold is_alnum is_letter in ground (arith, h.1.0);
        ends = letters-EndsInAlnum c s h.1;
      }))

split-dotted_all :
    (labels : List Text) (top : Text)
    → All IsLabel labels
    → IsTopLevel top
    → split b'.' (dotted_all labels ++ top) ≡ labels ++ (top ∷ [])
split-dotted_all [] top h t = split-last b'.' top (IsLabel-no_dot top (letters-label_chars top t.1))
split-dotted_all (l ∷ labels) top h t =
    ap (split b'.') (append_assoc l (b'.' ∷ dotted_all labels) top)
    ∙ (split-append b'.' l (dotted_all labels ++ top) (IsLabel-no_dot l h.0.chars)
        ∙ ap (◌∷◌ l) (split-dotted_all labels top h.1 t))

-- The test of the loop in Valid.
abbrev refuses : Text → Bool
refuses label = length label == 0 || not (label_matches label)

labels-refuses : (labels : List Text) → All IsLabel labels → any refuses labels ≡ false
unfolding any
labels-refuses [] h = refl
labels-refuses ([] ∷ labels) h = absurd h.0.starts
labels-refuses ((c ∷ l) ∷ labels) h =
    ground (arith, IsLabel-label_matches (c ∷ l) h.0, labels-refuses labels h.1)

top-refuses : (t : Text) → IsTopLevel t → any refuses (t ∷ []) ≡ not (leb (length t) 63)
unfolding any
top-refuses [] h = absurd (omega (arith, h.0))
top-refuses (c ∷ s) h = ground (arith, top-label_matches (c ∷ s) h)

-- A name that the pattern of the API admits is valid for the operator exactly when its top-level domain
-- has at most 63 letters.
pub admitted-valid :
    (f : Text)
    → matches fqdn_pattern f ≡ true
    → valid f ≡ leb (length (last_part (split b'.' f))) 63
unfolding valid
admitted-valid f h =
    let a = (pattern_iff f).0 h in
    let parts : split b'.' f ≡ (a.first ∷ a.labels) ++ (a.top ∷ []) =
      ap (split b'.') a.whole ∙ split-dotted_all (a.first ∷ a.labels) a.top a.good a.is_top in
    let last : last_part (split b'.' f) ≡ a.top =
      ap last_part parts ∙ last_part-append (a.first ∷ a.labels) a.top in
    let many : 2 ≤ length (split b'.' f) =
      let n = ap length parts in
      let m = length-append a.labels (a.top ∷ []) in omega (arith, n, m) in
    let tested : any refuses (split b'.' f) ≡ not (leb (length a.top) 63) =
      ap (any refuses) parts
      ∙ (any-append refuses (a.first ∷ a.labels) (a.top ∷ [])
          ∙ ground
              (arith, labels-refuses (a.first ∷ a.labels) a.good, top-refuses a.top a.is_top)) in
    rw last (ground (arith, many, tested))
