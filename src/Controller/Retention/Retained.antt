-- ===== src/Controller/Retention/Retained.antt =====
-- What the retention leaves of every address, and for how long.
use fqdn_egress_operator.Base.{
  ℕ, ◌+◌, ◌<◌, leb, Text, str_eq, ◌&&◌, ◌||◌, List, [], Option, none, some, is_some, if◌then◌else◌,
  ◌≡◌, refl, arith, any-perm, mem-perm, All-of_mem,
}
use fqdn_egress_operator.Base.Int.{ℤ, pos, leb_ℤ}
use fqdn_egress_operator.Base.Dict.{Dict, get, get-mem, UniqueKeys}
use fqdn_egress_operator.Base.Keys.{any-keys}
use fqdn_egress_operator.Base.Range.{RangeOrder}
use fqdn_egress_operator.Api.Types.{AddressEntry, FqdnStatus}
use fqdn_egress_operator.Controller.Retention.{
  time_sub, max_duration, old_missing_map, or_empty, final_entries, Kept, missing_time,
  keep_current, retain_status,
}
use fqdn_egress_operator.Controller.Retention.Entries.{
  find_entry, stands, aged, keep_current-find, keep_current-InStep, keep_old-find,
  old_missing_map-InnerUnique, old_of,
}

-- When an address that did not resolve went missing: as it was marked before, else now
abbrev pub went_missing : ℕ → Option (Option ℕ) → ℕ
went_missing now none = now
went_missing now (some mark) = elim mark [ none ↦ now | some t ↦ t ]

-- What the retention leaves of an address: unmarked when it stands in the new status and is fresh;
-- else, when it stands in the new status or in the old one, marked with the time at which it went
-- missing, up to that time plus the period.
unfoldable pub retained :
    ℕ → ℕ → Dict (Unit {0}) → Dict (Option ℕ) → List AddressEntry → Text → Option (Option ℕ)
retained now period fresh old addresses a =
    let since = went_missing now (get a old) in
    if stands a addresses && is_some (get a fresh)
    then some none
    else if (stands a addresses || is_some (get a old)) && leb now (since + period)
    then some (some since)
    else none

time_sub-leb :
    (now t period : ℕ)
    → period < max_duration
    → leb_ℤ (time_sub now t) (pos period) ≡ leb now (t + period)
unfolding time_sub
time_sub-leb now t period short = ground (arith, short)

missing_time_lem :
    (now : ℕ) (retention : ℤ) (old : Option (Option ℕ))
    → missing_time now retention old ≡ went_missing now old
unfolding missing_time
missing_time_lem now retention none = refl
missing_time_lem now retention (some none) = refl
missing_time_lem now retention (some (some t)) = refl

aged_lem :
    (now period : ℕ) (old : Option (Option ℕ))
    → period < max_duration
    → aged now (pos period) old ≡ (
        if leb now (went_missing now old + period)
        then some (some (went_missing now old))
        else none)
unfolding aged
aged_lem now period old short =
    rw (missing_time_lem now (pos period) old, time_sub-leb now (went_missing now old) period short)
      refl

final_entries-find :
    (now period : ℕ) (o : RangeOrder) (fresh : Dict (Unit {0})) (old : Option (Dict (Option ℕ)))
    (addresses : List AddressEntry) (a : Text)
    → period < max_duration
    → ((m : Dict (Option ℕ)) → old ≡ some m → UniqueKeys m)
    → find_entry a (final_entries now (pos period) o fresh old addresses).final
      ≡ retained now period fresh (or_empty old) addresses a
unfolding final_entries retained find_entry get
final_entries-find now period o fresh none addresses a short unique = ground (
  arith,
  keep_current-find now (pos period) fresh [] addresses a (record { existing = []; final = [] }),
  aged_lem now period none short,
)
final_entries-find now period o fresh (some old) addresses a short unique =
    let first : Kept = record { existing = []; final = [] } in
    let k = keep_current now (pos period) fresh old addresses first in
    let step = keep_current-InStep now (pos period) fresh old addresses first (λ b. refl) in
    let all =
      All-of_mem (λ (e : Text × Option ℕ). get e.0 old ≡ some e.1) (o.range 6 old)
        λ (b, t) m. get-mem b t old (unique old refl) (mem-perm (o.range-perm 6 old) m) in
    ground (
      arith,
      keep_current-find now (pos period) fresh old addresses a first,
      keep_old-find now (pos period) old (o.range 6 old) a k step all,
      any-perm (λ (e : Text × Option ℕ). str_eq e.0 a) (o.range-perm 6 old),
      any-keys a old,
      aged_lem now period (get a old) short,
    )

-- The entry of every address after the retention step, whatever the order in which Go visits the old
-- map: unmarked when the address stands in the new status and is in the set of freshly resolved ones
-- of the FQDN; else, when it stands in the new status or in the previous one, marked with the time it
-- went missing (the old mark, or now) up to that time plus the retention period; else there is none.
-- The period is below the largest Duration.
pub retain_status_lem :
    (now period : ℕ) (o : RangeOrder) (previous : List FqdnStatus) (fresh : Dict (Dict (Unit {0})))
    (status : FqdnStatus) (a : Text)
    → period < max_duration
    → find_entry a
        (retain_status now (pos period) o (old_missing_map previous []) fresh status).addresses
      ≡ retained now period
          (or_empty (get status.fqdn fresh))
          (old_of previous status.fqdn)
          status.addresses
          a
unfolding retain_status
retain_status_lem now period o previous fresh status a short =
    final_entries-find now period o (or_empty (get status.fqdn fresh))
      (get status.fqdn (old_missing_map previous [])) status.addresses a short
      (old_missing_map-InnerUnique previous [] (λ f v e. absurd (unfold get in cc e)) status.fqdn)
