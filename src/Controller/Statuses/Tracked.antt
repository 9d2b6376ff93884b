-- ===== src/Controller/Statuses/Tracked.antt =====
-- What updateFQDNStatuses makes of the results of a round.
use mathlib.Core.Path.{subst}
use fqdn_egress_operator.Base.{
  ℕ, suc, ◌+◌, Text, str_eq, eq_of_str_eq, not, ◌&&◌, is_some, List, [], ◌∷◌, if◌then◌else◌, ◌≡◌,
  refl, ap, ◌∙◌, inl, inr, arith, null, length, Option, Bool-cases, none, some,
}
use fqdn_egress_operator.Base.Int.{ℤ}
use fqdn_egress_operator.Base.Dict.{Dict, get, put, get-put}
use fqdn_egress_operator.Api.Reason.{success, reason_eq}
use fqdn_egress_operator.Api.Types.{Cidr, AddressEntry, FqdnStatus}
use fqdn_egress_operator.Api.Status.Lifecycle.{update-failing_since, update-cleared}
use fqdn_egress_operator.Api.Translate.{lookup_from, lookup_table}
use fqdn_egress_operator.Network.Result.{Result}
use fqdn_egress_operator.Controller.Statuses.{
  Clock, or_zero, starting_status, update_from, update_fqdn_statuses,
}

-- A status that a lookup table holds is one of its key.
abbrev pub OwnKeys : Dict FqdnStatus → Type 0
OwnKeys m = (k : Text) (s : FqdnStatus) → get k m ≡ some s → s.fqdn ≡ k

pub lookup_from-OwnKeys :
    (statuses : List FqdnStatus) (m : Dict FqdnStatus)
    → OwnKeys m
    → OwnKeys (lookup_from statuses m)
unfolding lookup_from
lookup_from-OwnKeys [] m h = h
lookup_from-OwnKeys (s ∷ rest) m h = lookup_from-OwnKeys rest (put s.fqdn s m) λ k t e.
    elim (Bool-cases (str_eq s.fqdn k)) [
      | inl q ↦
          let same : s ≡ t = ground (arith, get-put s.fqdn k s m, e, q) in
          subst (λ (x : FqdnStatus). x.fqdn ≡ k) same (eq_of_str_eq s.fqdn k q)
      | inr q ↦ h k t (ground (arith, get-put s.fqdn k s m, e, q))
    ]

or_zero-fqdn :
    (k : Text) (o : Option FqdnStatus)
    → ((s : FqdnStatus) → o ≡ some s → s.fqdn ≡ k)
    → (or_zero k o).fqdn ≡ k
or_zero-fqdn k none h = refl
or_zero-fqdn k (some s) h = h s refl

pub starting_status-fqdn :
    (m : Dict FqdnStatus) (k : Text) → OwnKeys m → (starting_status m k).fqdn ≡ k
unfolding starting_status
starting_status-fqdn m k h = or_zero-fqdn k (get k m) (h k)

-- Each status is the one of the result at its place: the FQDN, the reason and the message, and
-- FailingSince is nil exactly for a success.
abbrev pub Tracks : List FqdnStatus → List Result → Type 0
Tracks [] [] = Unit
Tracks (s ∷ statuses) (r ∷ results) =
    ((s.fqdn ≡ r.fqdn)
      × (s.reason ≡ r.status)
      × (s.message ≡ r.message)
      × (not (is_some s.failing_since) ≡ reason_eq r.status success))
    × Tracks statuses results
Tracks _ _ = ⊥

-- The addresses of the last status with the FQDN, else the given ones
abbrev pub last_addresses : Text → List FqdnStatus → List AddressEntry → List AddressEntry
last_addresses f [] found = found
last_addresses f (s ∷ rest) found =
    last_addresses f rest (if str_eq s.fqdn f then s.addresses else found)

starting_status-addresses :
    (f : Text) (statuses : List FqdnStatus) (m : Dict FqdnStatus)
    → (starting_status (lookup_from statuses m) f).addresses
      ≡ last_addresses f statuses (starting_status m f).addresses
unfolding lookup_from
starting_status-addresses f [] m = refl
starting_status-addresses f (s ∷ rest) m =
    let put_one : (starting_status (put s.fqdn s m) f).addresses
        ≡ (if str_eq s.fqdn f then s.addresses else (starting_status m f).addresses) =
      unfold starting_status in
      elim (Bool-cases (str_eq s.fqdn f)) [
        | inl q ↦ rw (get-put s.fqdn f s m) (rw q refl)
        | inr q ↦ rw (get-put s.fqdn f s m) (rw q refl)
      ] in
    starting_status-addresses f rest (put s.fqdn s m) ∙ ap (last_addresses f rest) put_one

-- How many FQDNs had addresses in the statuses before, failed in this round and have none now
abbrev pub lost : List FqdnStatus → List Result → List FqdnStatus → ℕ
lost previous (r ∷ results) (s ∷ statuses) =
    (if not (reason_eq r.status success)
        && (not (null (last_addresses r.fqdn previous [])) && null s.addresses)
      then 1
      else 0)
    + lost previous results statuses
lost previous _ _ = 0

module _ (cidr_string : Cidr → Text) (clock : Clock) (retry : ℤ) where
  update_from-Tracks :
      (previous : Dict FqdnStatus) (n : ℕ) (results : List Result)
      → OwnKeys previous
      → Tracks (update_from cidr_string clock retry previous n results).0 results
  unfolding update_from
  update_from-Tracks previous n [] own = tt
  update_from-Tracks previous n (r ∷ rest) own =
      let start = starting_status previous r.fqdn in
      let (f, reason, message, fqdn) =
        update-failing_since cidr_string start r.cidrs r.status r.message retry (clock n).0
          (clock n).1 in
      (
        (
          fqdn ∙ starting_status-fqdn previous r.fqdn own,
          reason,
          message,
          f ∙ ap (λ t. reason_eq t success) reason,
        ),
        update_from-Tracks previous (suc n) rest own,
      )

  update_from-events :
      (previous : List FqdnStatus) (n : ℕ) (results : List Result)
      → let (statuses, events) =
          update_from cidr_string clock retry (lookup_from previous []) n results in
        length events ≡ lost previous results statuses
  unfolding update_from
  update_from-events previous n [] = refl
  update_from-events previous n (r ∷ rest) =
      let start = starting_status (lookup_from previous []) r.fqdn in
      let cleared =
        update-cleared cidr_string start r.cidrs r.status r.message retry (clock n).0 (clock n).1 in
      let before : start.addresses ≡ last_addresses r.fqdn previous [] =
        starting_status-addresses r.fqdn previous []
        ∙ unfold starting_status in unfold get in refl in
      ground (arith, cleared, before, update_from-events previous (suc n) rest)

  -- There is one status for each result, in order, with the FQDN, the reason and the message of that
  -- result and FailingSince nil exactly for a success; and one event for each FQDN that had addresses in
  -- the last of the statuses before with its name, failed in this round and is left with none.
  pub update_fqdn_statuses_lem :
      (previous : List FqdnStatus) (results : List Result)
      → let (statuses, events) = update_fqdn_statuses cidr_string clock retry previous results in
        Tracks statuses results × (length events ≡ lost previous results statuses)
  unfolding update_fqdn_statuses
  update_fqdn_statuses_lem previous results = (
    update_from-Tracks (lookup_table previous) 0 results (
        unfold lookup_table in
        lookup_from-OwnKeys previous [] λ k s e. absurd (unfold get in cc e)),
    unfold lookup_table in update_from-events previous 0 results,
  )
