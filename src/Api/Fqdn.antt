-- ===== src/Api/Fqdn.antt =====
-- api/v1alpha1/networkpolicy_funcs.go: FQDN.Valid and the regular expression of a label.
pub mod Labels
pub mod Pattern
pub mod Admitted
pub mod Agree
use fqdn_egress_operator.Base.{
  ℕ, ◌-◌, ◌≡◌, refl, Bool, true, false, ◌&&◌, ◌||◌, List, [], ◌∷◌, ◌++◌, Option, none, some, arith,
  length, any, ◌==◌, not, leb, ltb, if◌then◌else◌, Text, bytes, null,
}
use fqdn_egress_operator.Base.Split.{split}

-- [a-zA-Z0-9]
unfoldable pub is_alnum : ℕ → Bool
is_alnum c =
    (leb b'a' c && leb c b'z') || ((leb b'A' c && leb c b'Z') || (leb b'0' c && leb c b'9'))

-- [a-zA-Z0-9-]
unfoldable pub is_label_char : ℕ → Bool
unfolding is_alnum
is_label_char c = is_alnum c || c == b'-'

-- `[a-zA-Z0-9-]{0,n}[a-zA-Z0-9]$`: after at most n more characters of the class, one that ends the text
unfoldable pub match_tail : ℕ → Text → Bool
unfolding is_label_char
match_tail n [] = false
match_tail n (c ∷ []) = is_alnum c
match_tail n (c ∷ d ∷ s) = leb 1 n && (is_label_char c && match_tail (n - 1) (d ∷ s))

-- labelRegexp: ^[a-zA-Z0-9]([a-zA-Z0-9-]{0,61}[a-zA-Z0-9])?$
unfoldable pub label_matches : Text → Bool
unfolding match_tail
label_matches [] = false
label_matches (c ∷ s) = is_alnum c && (null s || match_tail 61 s)

-- FQDN.Valid
unfoldable pub valid : Text → Bool
unfolding label_matches split
valid f =
    let labels = split b'.' f in
    if ltb (length labels) 2
    then false
    else not (any (λ label. length label == 0 || not (label_matches label)) labels)
