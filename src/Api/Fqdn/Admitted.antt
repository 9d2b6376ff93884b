-- ===== src/Api/Fqdn/Admitted.antt =====
-- api/v1alpha1/networkpolicy_types.go: the pattern of the type FQDN, which the API server checks, and
-- FQDN.Valid on the names that it admits.
use mathlib.Core.Path.{subst}
use fqdn_egress_operator.Base.{
  ℕ, suc, ◌≤◌, ◌<◌, Text, bytes, Bool, true, ◌&&◌, ◌||◌, List, [], ◌∷◌, ◌++◌, ◌≡◌, refl, ap, sym,
  ◌∙◌, ◌↔◌, arith, length, length-append, All, leb, ◌==◌, zero,
}
use fqdn_egress_operator.Base.Regex.{
  Regex, class, seq, star, plus, deriv, matches, matches-class, class-matches, matches-seq,
  seq-matches, star-matches, Every, matches-star_class, star_class-matches,
}
use fqdn_egress_operator.Api.Fqdn.Labels.{IsLabel}
use fqdn_egress_operator.Api.Fqdn.Pattern.{label_regexp, regexp-IsLabel, IsLabel-regexp}

-- [a-zA-Z]
unfoldable pub is_letter : ℕ → Bool
is_letter c = (leb b'a' c && leb c b'z') || (leb b'A' c && leb c b'Z')

-- The group `([a-zA-Z0-9]([a-zA-Z0-9-]{0,61}[a-zA-Z0-9])?\.)`
abbrev label_dot : Regex
label_dot = seq label_regexp (class (λ c. c == b'.'))

-- `[a-zA-Z]{2,}`
abbrev top_level : Regex
top_level = seq (class is_letter) (seq (class is_letter) (star (class is_letter)))

-- ^([a-zA-Z0-9]([a-zA-Z0-9-]{0,61}[a-zA-Z0-9])?\.)+[a-zA-Z]{2,}$
abbrev pub fqdn_pattern : Regex
fqdn_pattern = seq (plus label_dot) top_level

-- Labels, each with its dot.
abbrev pub dotted_all : List Text → Text
dotted_all [] = []
dotted_all (l ∷ labels) = l ++ (b'.' ∷ dotted_all labels)

pub append_assoc : (s t u : Text) → (s ++ t) ++ u ≡ s ++ (t ++ u)
append_assoc [] t u = refl
append_assoc (c ∷ s) t u = ap (◌∷◌ c) (append_assoc s t u)

abbrev Dotted : Text → Type 0
Dotted s = (l : Text) × IsLabel l × (s ≡ l ++ bytes ".")

matches-label_dot : (s : Text) → matches label_dot s ≡ true → Dotted s
matches-label_dot s h =
    let p = matches-seq label_regexp (class (λ c. c == b'.')) s h in
    let (c, one, dot) = matches-class (λ c. c == b'.') p.second p.right in
    let is_dot : c ≡ b'.' = ground (arith, dot) in
    (
      p.first,
      regexp-IsLabel p.first p.left,
      p.whole ∙ ap (λ (t : Text). p.first ++ t) (one ∙ ap (λ (x : ℕ). x ∷ []) is_dot),
    )

label_dot-matches : (l : Text) → IsLabel l → matches label_dot (l ++ bytes ".") ≡ true
label_dot-matches l h =
    seq-matches label_regexp (class (λ c. c == b'.')) l (bytes ".") (IsLabel-regexp l h)
      (class-matches (λ c. c == b'.') b'.' refl)

abbrev Labels : Text → Type 0
Labels s = (labels : List Text) × All IsLabel labels × (s ≡ dotted_all labels)

Dotted-Labels : (s t : Text) → Dotted s → Labels t → Labels (s ++ t)
Dotted-Labels s t (l, good, e) (labels, all, k) = (
  l ∷ labels,
  (good, all),
  ap (λ (u : Text). u ++ t) e
      ∙ (append_assoc l (bytes ".") t ∙ ap (λ (u : Text). l ++ (b'.' ∷ u)) k),
)

matches-Labels : (n : ℕ) (s : Text) → length s < n → matches (star label_dot) s ≡ true → Labels s
unfolding matches
matches-Labels zero s l h = absurd (omega arith)
matches-Labels (suc n) [] l h = ([], tt, refl)
matches-Labels (suc n) (c ∷ s) l h =
    let step : matches (seq (deriv label_dot c) (star label_dot)) s ≡ true = h in
    let p = matches-seq (deriv label_dot c) (star label_dot) s step in
    let first : matches label_dot (c ∷ p.first) ≡ true = p.left in
    let size = length-append p.first p.second in
    let total : length s ≡ length (p.first ++ p.second) = ap length p.whole in
    subst Labels (ap (◌∷◌ c) (sym p.whole)) (
      Dotted-Labels (c ∷ p.first) p.second (matches-label_dot (c ∷ p.first) first)
        (matches-Labels n p.second (omega (arith, size, total, l)) p.right))

star_labels-matches :
    (labels : List Text) → All IsLabel labels → matches (star label_dot) (dotted_all labels) ≡ true
star_labels-matches [] h = unfold matches in refl
star_labels-matches (l ∷ labels) h =
    subst (λ t. matches (star label_dot) t ≡ true) (append_assoc l (bytes ".") (dotted_all labels))
      (star-matches label_dot (l ++ bytes ".") (dotted_all labels) (label_dot-matches l h.0)
        (star_labels-matches labels h.1))

-- Two letters or more.
abbrev pub IsTopLevel : Text → Type 0
IsTopLevel t = (2 ≤ length t) × Every is_letter t

matches-top_level : (t : Text) → matches top_level t ≡ true → IsTopLevel t
matches-top_level t h =
    let p = matches-seq (class is_letter) (seq (class is_letter) (star (class is_letter))) t h in
    let q = matches-seq (class is_letter) (star (class is_letter)) p.second p.right in
    let (c, one, letter) = matches-class is_letter p.first p.left in
    let (d, two, second) = matches-class is_letter q.first q.left in
    let more = matches-star_class is_letter q.second q.right in
    let whole : t ≡ c ∷ d ∷ q.second = p.whole ∙ cc (one, q.whole, two) in
    subst IsTopLevel (sym whole) (omega arith, (letter, (second, more)))

top_level-matches : (t : Text) → IsTopLevel t → matches top_level t ≡ true
top_level-matches [] h = absurd (omega (arith, h.0))
top_level-matches (c ∷ []) h = absurd (omega (arith, h.0))
top_level-matches (c ∷ d ∷ t) h =
    seq-matches (class is_letter) (seq (class is_letter) (star (class is_letter))) (c ∷ []) (d ∷ t)
      (class-matches is_letter c h.1.0)
      (seq-matches (class is_letter) (star (class is_letter)) (d ∷ []) t
        (class-matches is_letter d h.1.1.0) (star_class-matches is_letter t h.1.1.1))

-- One label or more, each with its dot, and a top-level domain.
pub record IsAdmitted (f : Text) : Type 0 where
  pub first : Text
  pub labels : List Text
  pub top : Text
  pub good : All IsLabel (first ∷ labels)
  pub is_top : IsTopLevel top
  pub whole : f ≡ dotted_all (first ∷ labels) ++ top

pattern-IsAdmitted : (f : Text) → matches fqdn_pattern f ≡ true → IsAdmitted f
pattern-IsAdmitted f h =
    let p = matches-seq (plus label_dot) top_level f h in
    let q = matches-seq label_dot (star label_dot) p.first p.left in
    let (l, good, e) = matches-label_dot q.first q.left in
    let (labels, all, k) = matches-Labels (suc (length q.second)) q.second (omega arith) q.right in
    record {
      first = l;
      labels = labels;
      top = p.second;
      good = (good, all);
      is_top = matches-top_level p.second p.right;
      whole =
          p.whole
          ∙ ap (λ (t : Text). t ++ p.second)
              (q.whole ∙ (cc (e, k) ∙ append_assoc l (bytes ".") (dotted_all labels)));
    }

IsAdmitted-pattern : (f : Text) → IsAdmitted f → matches fqdn_pattern f ≡ true
IsAdmitted-pattern f h =
    subst (λ t. matches fqdn_pattern t ≡ true) (sym h.whole)
      (seq-matches (plus label_dot) top_level (dotted_all (h.first ∷ h.labels)) h.top
        (subst (λ t. matches (plus label_dot) t ≡ true)
          (append_assoc h.first (bytes ".") (dotted_all h.labels))
          (seq-matches label_dot (star label_dot) (h.first ++ bytes ".") (dotted_all h.labels)
            (label_dot-matches h.first h.good.0) (star_labels-matches h.labels h.good.1)))
        (top_level-matches h.top h.is_top))

-- The pattern admits exactly one or more labels, each followed by a dot, and then two or more letters.
pub pattern_iff : (f : Text) → (matches fqdn_pattern f ≡ true) ↔ IsAdmitted f
pattern_iff f = (pattern-IsAdmitted f, IsAdmitted-pattern f)
