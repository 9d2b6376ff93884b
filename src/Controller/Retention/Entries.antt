-- ===== src/Controller/Retention/Entries.antt =====
-- Which addresses the retention keeps, and since when they are marked as missing.
use mathlib.Core.Path.{subst}
use fqdn_egress_operator.Base.{
  ℕ, Text, str_eq, eq_of_str_eq, Bool, true, List, [], ◌∷◌, ◌++◌, Option, none, some, is_some,
  if◌then◌else◌, ◌≡◌, refl, ap, sym, ◌∙◌, inl, inr, arith, any, All, Bool-cases, Option-cases,
}
use fqdn_egress_operator.Base.Int.{ℤ, leb_ℤ}
use fqdn_egress_operator.Base.Dict.{Dict, get, put, get-put, UniqueKeys, put-UniqueKeys}
use fqdn_egress_operator.Api.Types.{AddressEntry, FqdnStatus}
use fqdn_egress_operator.Controller.Retention.{
  time_sub, missing_map, old_missing_map, or_empty, Kept, keep, keep_if_recent, missing_time,
  keep_current, keep_old,
}

-- The mark of an address in a list of entries: none where it does not stand
unfoldable pub find_entry : Text → List AddressEntry → Option (Option ℕ)
find_entry a [] = none
find_entry a (e ∷ rest) = if str_eq e.address a then some e.missing_since else find_entry a rest

abbrev pub stands : Text → List AddressEntry → Bool
stands a entries = is_some (find_entry a entries)

find_entry-append :
    (a : Text) (xs : List AddressEntry) (e : AddressEntry)
    → find_entry a (xs ++ (e ∷ [])) ≡ (
        if stands a xs
        then find_entry a xs
        else if str_eq e.address a
        then some e.missing_since
        else none)
unfolding find_entry
find_entry-append a [] e = refl
find_entry-append a (x ∷ xs) e = ground (arith, find_entry-append a xs e)

-- existingIPs holds the addresses of finalEntries.
abbrev pub InStep : Kept → Type 0
InStep k = (a : Text) → is_some (get a k.existing) ≡ stands a k.final

keep-find :
    (a addr : Text) (missing : Option ℕ) (k : Kept)
    → find_entry a (keep addr missing k).final ≡ (
        if stands a k.final
        then find_entry a k.final
        else if str_eq addr a
        then some missing
        else none)
keep-find a addr missing k =
    find_entry-append a k.final (record { address = addr; missing_since = missing })

keep-InStep :
    (addr : Text) (missing : Option ℕ) (k : Kept) → InStep k → InStep (keep addr missing k)
keep-InStep addr missing k h a =
    ground (arith, keep-find a addr missing k, get-put addr a tt k.existing, h a)

module _ (now : ℕ) (retention : ℤ) where
  -- What an address that did not resolve is left with, after its old mark
  unfoldable pub aged : Option (Option ℕ) → Option (Option ℕ)
  aged old =
      if leb_ℤ (time_sub now (missing_time now retention old)) retention
      then some (some (missing_time now retention old))
      else none

  keep_if_recent-find :
      (a addr : Text) (old : Option (Option ℕ)) (k : Kept)
      → find_entry a (keep_if_recent now retention addr (missing_time now retention old) k).final
        ≡ (if stands a k.final
            then find_entry a k.final
            else if str_eq addr a
            then aged old
            else none)
  unfolding keep_if_recent aged
  keep_if_recent-find a addr old k =
      ground (arith, keep-find a addr (some (missing_time now retention old)) k)

  keep_if_recent-InStep :
      (addr : Text) (t : ℕ) (k : Kept) → InStep k → InStep (keep_if_recent now retention addr t k)
  unfolding keep_if_recent
  keep_if_recent-InStep addr t k h = elim (Bool-cases (leb_ℤ (time_sub now t) retention)) [
    | inl e ↦ rw e (keep-InStep addr (some t) k h)
    | inr e ↦ rw e h
  ]

  abbrev pub judged : Dict (Unit {0}) → Dict (Option ℕ) → Text → Option (Option ℕ)
  judged fresh old a = if is_some (get a fresh) then some none else aged (get a old)

  abbrev one_current : Dict (Unit {0}) → Dict (Option ℕ) → Text → Kept → Kept
  one_current fresh old addr k =
      if is_some (get addr fresh)
      then keep addr none k
      else keep_if_recent now retention addr (missing_time now retention (get addr old)) k

  one_current-find :
      (fresh : Dict (Unit {0})) (old : Dict (Option ℕ)) (a addr : Text) (k : Kept)
      → find_entry a (one_current fresh old addr k).final ≡ (
          if stands a k.final
          then find_entry a k.final
          else if str_eq addr a
          then judged fresh old addr
          else none)
  one_current-find fresh old a addr k = elim (Bool-cases (is_some (get addr fresh))) [
    | inl e ↦ rw e (keep-find a addr none k)
    | inr e ↦ rw e (keep_if_recent-find a addr (get addr old) k)
  ]

  one_current-InStep :
      (fresh : Dict (Unit {0})) (old : Dict (Option ℕ)) (addr : Text) (k : Kept)
      → InStep k
      → InStep (one_current fresh old addr k)
  one_current-InStep fresh old addr k h = elim (Bool-cases (is_some (get addr fresh))) [
    | inl e ↦ rw e (keep-InStep addr none k h)
    | inr e ↦ rw e (keep_if_recent-InStep addr (missing_time now retention (get addr old)) k h)
  ]

  pub keep_current-find :
      (fresh : Dict (Unit {0})) (old : Dict (Option ℕ)) (entries : List AddressEntry) (a : Text)
      (k : Kept)
      → find_entry a (keep_current now retention fresh old entries k).final ≡ (
          if stands a k.final
          then find_entry a k.final
          else if stands a entries
          then judged fresh old a
          else none)
  unfolding keep_current find_entry
  keep_current-find fresh old [] a k = ground (arith, Option-cases (find_entry a k.final))
  keep_current-find fresh old (e ∷ rest) a k =
      let ih = keep_current-find fresh old rest a (one_current fresh old e.address k) in
      let one = one_current-find fresh old a e.address k in
      elim (Bool-cases (str_eq e.address a)) [
        | inl q ↦
            let same : judged fresh old e.address ≡ judged fresh old a =
              ap (judged fresh old) (eq_of_str_eq e.address a q) in
            ground (arith, ih, one, q, same)
        | inr q ↦ ground (arith, ih, one, q)
      ]

  pub keep_current-InStep :
      (fresh : Dict (Unit {0})) (old : Dict (Option ℕ)) (entries : List AddressEntry) (k : Kept)
      → InStep k
      → InStep (keep_current now retention fresh old entries k)
  unfolding keep_current
  keep_current-InStep fresh old [] k h = h
  keep_current-InStep fresh old (e ∷ rest) k h =
      keep_current-InStep fresh old rest (one_current fresh old e.address k)
        (one_current-InStep fresh old e.address k h)

  abbrev one_old : Text → Option ℕ → Kept → Kept
  one_old addr since k =
      if is_some (get addr k.existing)
      then k
      else keep_if_recent now retention addr (missing_time now retention (some since)) k

  one_old-find :
      (a addr : Text) (since : Option ℕ) (k : Kept)
      → InStep k
      → find_entry a (one_old addr since k).final ≡ (
          if stands a k.final
          then find_entry a k.final
          else if str_eq addr a
          then aged (some since)
          else none)
  one_old-find a addr since k h = elim (Bool-cases (is_some (get addr k.existing))) [
    | inl e ↦ rw e (elim (Bool-cases (str_eq addr a)) [
      | inl q ↦
          let known : stands a k.final ≡ true =
            sym (h a)
            ∙ ap (λ (t : Text). is_some (get t k.existing)) (sym (eq_of_str_eq addr a q))
            ∙ e in
          ground (arith, known)
      | inr q ↦ ground (arith, q, Option-cases (find_entry a k.final))
    ])
    | inr e ↦ rw e (keep_if_recent-find a addr (some since) k)
  ]

  one_old-InStep :
      (addr : Text) (since : Option ℕ) (k : Kept) → InStep k → InStep (one_old addr since k)
  one_old-InStep addr since k h = elim (Bool-cases (is_some (get addr k.existing))) [
    | inl e ↦ rw e h
    | inr e ↦ rw e (keep_if_recent-InStep addr (missing_time now retention (some since)) k h)
  ]

  -- The loop over a list of entries that all stand in the map `m`
  pub keep_old-find :
      (m old : Dict (Option ℕ)) (a : Text) (k : Kept)
      → InStep k
      → All (λ (e : Text × Option ℕ). get e.0 m ≡ some e.1) old
      → find_entry a (keep_old now retention old k).final ≡ (
          if stands a k.final
          then find_entry a k.final
          else if any (λ (e : Text × Option ℕ). str_eq e.0 a) old
          then aged (get a m)
          else none)
  unfolding keep_old any
  keep_old-find m [] a k h g = ground (arith, Option-cases (find_entry a k.final))
  keep_old-find m ((addr, since) ∷ rest) a k h g =
      let ih = keep_old-find m rest a (one_old addr since k) (one_old-InStep addr since k h) g.1 in
      let one = one_old-find a addr since k h in
      elim (Bool-cases (str_eq addr a)) [
        | inl q ↦
            let same : aged (some since) ≡ aged (get a m) =
              ap aged (sym g.0 ∙ ap (λ (t : Text). get t m) (eq_of_str_eq addr a q)) in
            ground (arith, ih, one, q, same)
        | inr q ↦ ground (arith, ih, one, q)
      ]

missing_map-UniqueKeys :
    (entries : List AddressEntry) (m : Dict (Option ℕ))
    → UniqueKeys m
    → UniqueKeys (missing_map entries m)
unfolding missing_map
missing_map-UniqueKeys [] m u = u
missing_map-UniqueKeys (e ∷ rest) m u =
    missing_map-UniqueKeys rest (put e.address e.missing_since m)
      (put-UniqueKeys e.address e.missing_since m u)

abbrev pub InnerUnique : Dict (Dict (Option ℕ)) → Type 0
InnerUnique m = (f : Text) (v : Dict (Option ℕ)) → get f m ≡ some v → UniqueKeys v

pub old_missing_map-InnerUnique :
    (previous : List FqdnStatus) (m : Dict (Dict (Option ℕ)))
    → InnerUnique m
    → InnerUnique (old_missing_map previous m)
unfolding old_missing_map
old_missing_map-InnerUnique [] m h = h
old_missing_map-InnerUnique (s ∷ rest) m h =
    let new = missing_map s.addresses [] in
    old_missing_map-InnerUnique rest (put s.fqdn new m) λ f v e.
      elim (Bool-cases (str_eq s.fqdn f)) [
        | inl q ↦
            let same : new ≡ v = ground (arith, get-put s.fqdn f new m, e, q) in
            subst UniqueKeys same (missing_map-UniqueKeys s.addresses [] tt)
        | inr q ↦ h f v (ground (arith, get-put s.fqdn f new m, e, q))
      ]

-- The old map of one FQDN
abbrev pub old_of : List FqdnStatus → Text → Dict (Option ℕ)
old_of previous f = or_empty (get f (old_missing_map previous []))
