-- ===== src/Api/Status.antt =====
-- api/v1alpha1/networkpolicy_funcs.go: FQDNStatus.Update, the life of one FQDN's status.
pub mod Lifecycle
use fqdn_egress_operator.Base.{
  ℕ, zero, suc, ◌+◌, ◌*◌, ◌-◌, ◌<◌, ◌≤◌, ◌≡◌, refl, ◌⊎◌, Text, Bool, true, false, not, List, [],
  ◌∷◌, map, Option, none, some, arith, ltb, null, if◌then◌else◌,
}
use fqdn_egress_operator.Base.Int.{ℤ, pos, negsuc, pos_part, neg_part, sub_ℕ, ltb_ℤ}
use fqdn_egress_operator.Api.Reason.{
  ResolutionReason, success, timeout, temporary_error, error, reason_eq, transient,
}
use fqdn_egress_operator.Api.Types.{Cidr, AddressEntry, FqdnStatus}

-- time.Second
abbrev pub second : ℕ
second = 1_000_000_000

-- `time.Duration(n) * time.Second`: an int32 times 10^9 fits an int64, so nothing wraps
unfoldable pub seconds : ℤ → ℤ
seconds (pos n) = pos (n * second)
seconds (negsuc n) = negsuc (n * second + 999_999_999)

-- `t.Add(d)`
unfoldable pub time_add : ℕ → ℤ → ℤ
time_add t d = sub_ℕ (t + pos_part d) (neg_part d)

-- The transient branch's test: `time.Now().After(f.FailingSince.Add(retryTimeout))`
unfoldable pub deadline_passed : ℕ → ℕ → ℤ → Bool
unfolding seconds time_add
deadline_passed now since retry = ltb_ℤ (time_add since (seconds retry)) (pos now)

-- `f.Addresses = []AddressEntry{}` where there was any, and whether there was
unfoldable pub clear_addresses : FqdnStatus → FqdnStatus × Bool
clear_addresses f = if null f.addresses then (f, false) else (record f { addresses = [] }, true)

-- `if f.FailingSince == nil { f.FailingSince = &now }`
unfoldable pub start_failing : ℕ → FqdnStatus → FqdnStatus
start_failing now f = elim f.failing_since [
  | none ↦ record f { failing_since = some now }
  | some _ ↦ f
]

-- The three branches of Update, before the reason is written.
unfoldable pub update_addresses :
    (Cidr → Text) → FqdnStatus → List Cidr → ResolutionReason → ℤ → ℕ → FqdnStatus × Bool
unfolding deadline_passed clear_addresses start_failing
update_addresses cidr_string f cidrs reason retry now =
    if reason_eq reason success
    then (
      record f {
        failing_since = none;
        addresses = map (λ c. record { address = cidr_string c; missing_since = none }) cidrs;
      },
      false,
    )
    else if transient reason
    then elim f.failing_since [
      | none ↦ (record f { failing_since = some now }, false)
      | some since ↦ if deadline_passed now since retry then clear_addresses f else (f, false)
    ]
    else let (g, cleared) = clear_addresses f in (start_failing now g, cleared)

-- `if f.Reason != reason { f.LastTransitionTime = metav1.Now() }`, then the reason and the message
unfoldable pub write_reason : FqdnStatus → ResolutionReason → Text → ℕ → FqdnStatus
write_reason f reason message now = record f {
  last_transition_time = if reason_eq f.reason reason then f.last_transition_time else now;
  reason = reason;
  message = message;
}

-- FQDNStatus.Update; the clock is read in the branch (`now`) and at the transition (`later`)
unfoldable pub update :
    (Cidr → Text) → FqdnStatus → List Cidr → ResolutionReason → Text → ℤ → ℕ → ℕ → FqdnStatus × Bool
unfolding update_addresses write_reason
update cidr_string f cidrs reason message retry now later =
    let (g, cleared) = update_addresses cidr_string f cidrs reason retry now in
    (write_reason g reason message later, cleared)
