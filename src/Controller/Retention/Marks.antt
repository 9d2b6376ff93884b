-- ===== src/Controller/Retention/Marks.antt =====
-- The marks of one address that does not resolve: all its entries carry the same.
use fqdn_egress_operator.Base.{
  ℕ, Text, str_eq, eq_of_str_eq, false, ◌||◌, List, [], ◌∷◌, ◌++◌, Option, none, some, is_some,
  if◌then◌else◌, ◌≡◌, refl, ap, sym, ◌∙◌, inl, inr, arith, any, All, Bool-cases, mem-perm,
  All-of_mem,
}
use fqdn_egress_operator.Base.Int.{ℤ, leb_ℤ}
use fqdn_egress_operator.Base.Dict.{Dict, get, put, get-put, get-mem, UniqueKeys}
use fqdn_egress_operator.Base.Range.{RangeOrder}
use fqdn_egress_operator.Api.Types.{Cidr, AddressEntry}
use fqdn_egress_operator.Controller.Retention.{
  time_sub, missing_map, fresh_set, Kept, keep_if_recent, missing_time, keep_current, keep_old,
  final_entries, or_empty,
}
use fqdn_egress_operator.Controller.Retention.Entries.{find_entry, stands}

-- Every entry of the address is marked with the time.
abbrev pub MarkedAs : Text → ℕ → List AddressEntry → Type 0
MarkedAs a t entries = All (λ (e : AddressEntry). e.address ≡ a → e.missing_since ≡ some t) entries

-- oldMissingMap has an address exactly when an entry has it.
pub is_some-missing_map :
    (a : Text) (entries : List AddressEntry) (m : Dict (Option ℕ))
    → is_some (get a (missing_map entries m)) ≡ (stands a entries || is_some (get a m))
unfolding missing_map find_entry
is_some-missing_map a [] m = ground arith
is_some-missing_map a (e ∷ rest) m =
    is_some-missing_map a rest (put e.address e.missing_since m)
    ∙ ground (arith, get-put e.address a e.missing_since m)

pub missing_map-marked :
    (a : Text) (t : ℕ) (entries : List AddressEntry) (m : Dict (Option ℕ))
    → MarkedAs a t entries
    → get a (missing_map entries m) ≡ (if stands a entries then some (some t) else get a m)
unfolding missing_map find_entry
missing_map-marked a t [] m h = refl
missing_map-marked a t (e ∷ rest) m h =
    let ih = missing_map-marked a t rest (put e.address e.missing_since m) h.1 in
    elim (Bool-cases (str_eq e.address a)) [
      | inl q ↦
          let mark = h.0 (eq_of_str_eq e.address a q) in
          ih ∙ ground (arith, get-put e.address a e.missing_since m, q, mark)
      | inr q ↦ ih ∙ ground (arith, get-put e.address a e.missing_since m, q)
    ]

-- freshlyResolved has exactly the answered addresses.
pub is_some-fresh_set :
    (cidr_string : Cidr → Text) (a : Text) (cidrs : List Cidr) (m : Dict (Unit {0}))
    → is_some (get a (fresh_set cidr_string cidrs m))
      ≡ (any (λ c. str_eq (cidr_string c) a) cidrs || is_some (get a m))
unfolding fresh_set any
is_some-fresh_set cidr_string a [] m = ground arith
is_some-fresh_set cidr_string a (c ∷ rest) m =
    is_some-fresh_set cidr_string a rest (put (cidr_string c) tt m)
    ∙ ground (arith, get-put {V = Unit {0}} (cidr_string c) a tt m)

All-snoc :
    (P : AddressEntry → Type 0) (xs : List AddressEntry) (e : AddressEntry)
    → All P xs
    → P e
    → All P (xs ++ (e ∷ []))
All-snoc P [] e h p = (p, tt)
All-snoc P (x ∷ xs) e h p = (h.0, All-snoc P xs e h.1 p)

module _ (now : ℕ) (retention : ℤ) (a : Text) (t : ℕ) where
  keep_if_recent-MarkedAs :
      (addr : Text) (since : ℕ) (k : Kept)
      → (addr ≡ a → since ≡ t)
      → MarkedAs a t k.final
      → MarkedAs a t (keep_if_recent now retention addr since k).final
  unfolding keep_if_recent
  keep_if_recent-MarkedAs addr since k same h =
      elim (Bool-cases (leb_ℤ (time_sub now since) retention)) [
        | inl e ↦ rw e (All-snoc _ k.final _ h (λ q. ap some (same q)))
        | inr e ↦ rw e h
      ]

  keep_current-MarkedAs :
      (fresh : Dict (Unit {0})) (old : Dict (Option ℕ)) (addresses : List AddressEntry) (k : Kept)
      → is_some (get a fresh) ≡ false
      → missing_time now retention (get a old) ≡ t
      → MarkedAs a t k.final
      → MarkedAs a t (keep_current now retention fresh old addresses k).final
  unfolding keep_current
  keep_current-MarkedAs fresh old [] k stale mark h = h
  keep_current-MarkedAs fresh old (e ∷ rest) k stale mark h =
      keep_current-MarkedAs fresh old rest _ stale mark
        (elim (Bool-cases (is_some (get e.address fresh))) [
          | inl q ↦ rw q (
              All-snoc _ k.final _ h (λ (p : e.address ≡ a).
                absurd (cc (ap (λ (x : Text). is_some (get x fresh)) p, q, stale))))
          | inr q ↦ rw q (
              keep_if_recent-MarkedAs e.address _ k
                (λ (p : e.address ≡ a).
                  ap (λ (x : Text). missing_time now retention (get x old)) p ∙ mark)
                h)
        ])

  keep_old-MarkedAs :
      (old : Dict (Option ℕ)) (entries : List (Text × Option ℕ)) (k : Kept)
      → All (λ (e : Text × Option ℕ). get e.0 old ≡ some e.1) entries
      → missing_time now retention (get a old) ≡ t
      → MarkedAs a t k.final
      → MarkedAs a t (keep_old now retention entries k).final
  unfolding keep_old
  keep_old-MarkedAs old [] k at mark h = h
  keep_old-MarkedAs old ((addr, since) ∷ rest) k at mark h =
      keep_old-MarkedAs old rest _ at.1 mark (elim (Bool-cases (is_some (get addr k.existing))) [
        | inl q ↦ rw q h
        | inr q ↦ rw q (
            keep_if_recent-MarkedAs addr _ k
              (λ (p : addr ≡ a).
                ap (missing_time now retention) (sym at.0 ∙ ap (λ (x : Text). get x old) p) ∙ mark)
              h)
      ])

  -- The final entries of an address that is not fresh are marked with its missing time.
  pub final_entries-MarkedAs :
      (o : RangeOrder) (fresh : Dict (Unit {0})) (old : Option (Dict (Option ℕ)))
      (addresses : List AddressEntry)
      → is_some (get a fresh) ≡ false
      → ((m : Dict (Option ℕ)) → old ≡ some m → UniqueKeys m)
      → missing_time now retention (get a (or_empty old)) ≡ t
      → MarkedAs a t (final_entries now retention o fresh old addresses).final
  unfolding final_entries
  final_entries-MarkedAs o fresh none addresses stale unique mark =
      keep_current-MarkedAs fresh [] addresses _ stale mark tt
  final_entries-MarkedAs o fresh (some old) addresses stale unique mark =
      let listed =
        All-of_mem (λ (e : Text × Option ℕ). get e.0 old ≡ some e.1) (o.range 6 old)
          λ (b, u) m. get-mem b u old (unique old refl) (mem-perm (o.range-perm 6 old) m) in
      keep_old-MarkedAs old (o.range 6 old) _ listed mark
        (keep_current-MarkedAs fresh old addresses _ stale mark tt)
