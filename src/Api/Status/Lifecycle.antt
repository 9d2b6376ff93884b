-- ===== src/Api/Status/Lifecycle.antt =====
-- FQDNStatus.Update over one call and over a run of calls.
use fqdn_egress_operator.Base.{
  ℕ, ◌+◌, ◌*◌, ltb, ◌≡◌, refl, Text, true, ◌&&◌, not, List, [], ◌∷◌, some, arith, null,
  if◌then◌else◌, any, All, is_some,
}
use fqdn_egress_operator.Base.Int.{ℤ, pos}
use fqdn_egress_operator.Api.Reason.{ResolutionReason, success, reason_eq, transient}
use fqdn_egress_operator.Api.Types.{Cidr, FqdnStatus}
use fqdn_egress_operator.Api.Status.{
  second, seconds, time_add, deadline_passed, clear_addresses, update_addresses, write_reason,
  update,
}

module _ (cidr_string : Cidr → Text) where
  -- After every update, whatever the status was before, FailingSince is nil exactly when the recorded
  -- reason is success, and the recorded reason and message are the ones of this resolution.
  pub update-failing_since :
      (f : FqdnStatus) (cidrs : List Cidr) (r : ResolutionReason) (m : Text) (retry : ℤ)
      (now later : ℕ)
      → let g = (update cidr_string f cidrs r m retry now later).0 in
        (not (is_some g.failing_since) ≡ reason_eq g.reason success)
        × (g.reason ≡ r)
        × (g.message ≡ m)
        × (g.fqdn ≡ f.fqdn)
  unfolding update reason_eq transient
  update-failing_since f cidrs r m retry now later = ground arith

  -- The result "cleared" is true exactly when the update took the last addresses away: there were some,
  -- none is left, and the resolution did not succeed.
  pub update-cleared :
      (f : FqdnStatus) (cidrs : List Cidr) (r : ResolutionReason) (m : Text) (retry : ℤ)
      (now later : ℕ)
      → let (g, cleared) = update cidr_string f cidrs r m retry now later in
        cleared ≡ (not (reason_eq r success) && (not (null f.addresses) && null g.addresses))
  unfolding update reason_eq transient
  update-cleared f cidrs r m retry now later = ground arith

  -- The transition time is the clock's exactly when the reason changes, and is kept otherwise.
  pub update-transition :
      (f : FqdnStatus) (cidrs : List Cidr) (r : ResolutionReason) (m : Text) (retry : ℤ)
      (now later : ℕ)
      → (update cidr_string f cidrs r m retry now later).0.last_transition_time
        ≡ (if reason_eq f.reason r then f.last_transition_time else later)
  unfolding update
  update-transition f cidrs r m retry now later = ground arith

-- One failed attempt of a run: its reason, its message and the two readings of the clock.
pub record Attempt : Type 0 where
  pub reason : ResolutionReason
  pub message : Text
  pub now : ℕ
  pub later : ℕ

module _ (cidr_string : Cidr → Text) (retry : ℕ) where
  -- The updates of a run, each from the status that the one before left.
  unfoldable pub failed_run : FqdnStatus → List Attempt → FqdnStatus
  failed_run f [] = f
  failed_run f (a ∷ rest) =
      failed_run (update cidr_string f [] a.reason a.message (pos retry) a.now a.later).0 rest

  transient_step :
      (f : FqdnStatus) (a : Attempt) (since : ℕ)
      → transient a.reason ≡ true
      → f.failing_since ≡ some since
      → let g = (update cidr_string f [] a.reason a.message (pos retry) a.now a.later).0 in
        (g.failing_since ≡ some since)
        × (g.addresses ≡ (if ltb (since + retry * second) a.now then [] else f.addresses))
  unfolding update update_addresses write_reason deadline_passed seconds time_add clear_addresses
      transient reason_eq
  transient_step f a since t s = ground arith

  -- The grace period. While every attempt fails for a transient reason, the time of the first failure
  -- stays, and the addresses are kept until some attempt's clock is past that time plus the retry
  -- timeout; from then on there are none.
  pub failed_run_grace :
      (f : FqdnStatus) (attempts : List Attempt) (since : ℕ)
      → All (λ a. transient a.reason ≡ true) attempts
      → f.failing_since ≡ some since
      → let g = failed_run f attempts in
        (g.failing_since ≡ some since)
        × (g.addresses
            ≡ (if any (λ a. ltb (since + retry * second) a.now) attempts then [] else f.addresses))
  unfolding failed_run any
  failed_run_grace f [] since t s = (s, refl)
  failed_run_grace f (a ∷ rest) since t s =
      let g = (update cidr_string f [] a.reason a.message (pos retry) a.now a.later).0 in
      let step = transient_step f a since t.0 s in
      let later = failed_run_grace g rest since t.1 step.0 in
      (later.0, ground (arith, later.1, step.1))
