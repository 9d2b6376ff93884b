-- ===== src/Controller/Retention.antt =====
-- internal/controller/networkpolicy_controller.go: the part of Reconcile that keeps addresses which no
-- longer resolve, for as long as the annotation retention-period says.
pub mod Entries
pub mod Retained
pub mod Revoked
pub mod Order
pub mod Marks
pub mod Expiry
use fqdn_egress_operator.Base.{
  ℕ, suc, ◌+◌, ◌-◌, Text, bytes, str_eq, Bool, true, false, List, [], ◌∷◌, ◌++◌, map, Option, none,
  some, is_some, ltb, leb, if◌then◌else◌,
}
use fqdn_egress_operator.Base.Int.{ℤ, pos, negsuc, ltb_ℤ, leb_ℤ}
use fqdn_egress_operator.Base.Dict.{Dict, get, put}
use fqdn_egress_operator.Base.Range.{RangeOrder}
use fqdn_egress_operator.Api.Reason.{success, reason_eq}
use fqdn_egress_operator.Api.Types.{Cidr, AddressEntry, FqdnStatus}
use fqdn_egress_operator.Network.Result.{Result}

-- retentionDuration: 0 without the annotation or when time.ParseDuration fails
unfoldable pub retention_period : (Text → Option ℤ) → Dict Text → ℤ
retention_period parse_duration annotations =
    elim (get (bytes "networking.turbosimone.com/retention-period") annotations) [
      | none ↦ pos 0
      | some val ↦ elim (parse_duration val) [ none ↦ pos 0 | some d ↦ d ]
    ]

-- The ends of a Duration
abbrev pub max_duration : ℕ
max_duration = 9_223_372_036_854_775_807

-- `now.Sub(t)`, which stops at the ends of a Duration
unfoldable pub time_sub : ℕ → ℕ → ℤ
time_sub now t =
    if leb t now
    then (if leb (now - t) max_duration then pos (now - t) else pos max_duration)
    else (if leb (t - now - 1) max_duration then negsuc (t - now - 1) else negsuc max_duration)

-- ipMap of one old status
unfoldable pub missing_map : List AddressEntry → Dict (Option ℕ) → Dict (Option ℕ)
missing_map [] m = m
missing_map (entry ∷ rest) m = missing_map rest (put entry.address entry.missing_since m)

-- oldMissingMap
unfoldable pub old_missing_map : List FqdnStatus → Dict (Dict (Option ℕ)) → Dict (Dict (Option ℕ))
unfolding missing_map
old_missing_map [] m = m
old_missing_map (old ∷ rest) m =
    old_missing_map rest (put old.fqdn (missing_map old.addresses []) m)

-- ipMap of one result
unfoldable pub fresh_set : (Cidr → Text) → List Cidr → Dict (Unit {0}) → Dict (Unit {0})
fresh_set cidr_string [] m = m
fresh_set cidr_string (c ∷ rest) m = fresh_set cidr_string rest (put (cidr_string c) tt m)

-- freshlyResolved
unfoldable pub freshly_resolved :
    (Cidr → Text) → List Result → Dict (Dict (Unit {0})) → Dict (Dict (Unit {0}))
unfolding fresh_set
freshly_resolved cidr_string [] m = m
freshly_resolved cidr_string (res ∷ rest) m = freshly_resolved cidr_string rest (
    if reason_eq res.status success then put res.fqdn (fresh_set cidr_string res.cidrs []) m else m)

-- `m[fqdn]` of a map of maps: the nil map, which has no key, where there is none
abbrev pub or_empty : {V : Type 0} → Option (Dict V) → Dict V
or_empty none = []
or_empty (some m) = m

-- existingIPs and finalEntries
pub record Kept : Type 0 where
  pub existing : Dict (Unit {0})
  pub final : List AddressEntry

abbrev pub keep : Text → Option ℕ → Kept → Kept
keep addr missing k = record {
  existing = put addr tt k.existing;
  final = k.final ++ (record { address = addr; missing_since = missing } ∷ []);
}

module _ (now : ℕ) (retention : ℤ) where
  -- The last test of both loops: kept with the time it went missing, if that is recent enough
  unfoldable pub keep_if_recent : Text → ℕ → Kept → Kept
  unfolding time_sub
  keep_if_recent addr missing k =
      if leb_ℤ (time_sub now missing) retention then keep addr (some missing) k else k

  -- missingTime: the old one, or now
  unfoldable pub missing_time : Option (Option ℕ) → ℕ
  missing_time none = now
  missing_time (some none) = now
  missing_time (some (some t)) = t

  -- The loop over the addresses of the new status
  unfoldable pub keep_current : Dict (Unit {0}) → Dict (Option ℕ) → List AddressEntry → Kept → Kept
  unfolding keep_if_recent missing_time
  keep_current fresh old [] k = k
  keep_current fresh old (entry ∷ rest) k = keep_current fresh old rest (
      if is_some (get entry.address fresh)
      then keep entry.address none k
      else keep_if_recent entry.address (missing_time (get entry.address old)) k)

  -- The loop over the old addresses
  unfoldable pub keep_old : Dict (Option ℕ) → Kept → Kept
  unfolding keep_if_recent missing_time
  keep_old [] k = k
  keep_old ((addr, since) ∷ rest) k = keep_old rest (
      if is_some (get addr k.existing)
      then k
      else keep_if_recent addr (missing_time (some since)) k)

  -- finalEntries for one FQDN: the old map is the one of oldMissingMap, where it has one
  unfoldable pub final_entries :
      RangeOrder → Dict (Unit {0}) → Option (Dict (Option ℕ)) → List AddressEntry → Kept
  unfolding keep_current keep_old
  final_entries o fresh none addresses =
      keep_current fresh [] addresses (record { existing = []; final = [] })
  final_entries o fresh (some old) addresses =
      keep_old (o.range 6 old)
        (keep_current fresh old addresses (record { existing = []; final = [] }))

  -- The body of the loop over np.Status.FQDNs
  unfoldable pub retain_status :
      RangeOrder → Dict (Dict (Option ℕ)) → Dict (Dict (Unit {0})) → FqdnStatus → FqdnStatus
  unfolding final_entries
  retain_status o old_missing fresh status = record status {
    addresses =
        (final_entries o (or_empty (get status.fqdn fresh)) (get status.fqdn old_missing)
          status.addresses).final;
  }

-- Without retention every MissingSince is nil.
unfoldable pub forget_missing : FqdnStatus → FqdnStatus
forget_missing status = record status {
  addresses = map (λ e. record { address = e.address; missing_since = none }) status.addresses;
}

-- What Reconcile does with np.Status.FQDNs between updateFQDNStatuses and ToMultiNetworkPolicy
unfoldable pub retain :
    RangeOrder
    → (Cidr → Text)
    → ℕ
    → ℤ
    → List FqdnStatus
    → List Result
    → List FqdnStatus
    → List FqdnStatus
unfolding retain_status forget_missing old_missing_map freshly_resolved
retain o cidr_string now retention previous results statuses =
    if ltb_ℤ (pos 0) retention
    then map
        (retain_status now retention o (old_missing_map previous [])
          (freshly_resolved cidr_string results []))
        statuses
    else map forget_missing statuses
