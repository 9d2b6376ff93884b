-- ===== src/Controller/Reconcile/Revoked.antt =====
-- Reconcile and an FQDN whose addresses FQDNStatus.Update has taken away.
use mathlib.Core.Path.{subst}
use fqdn_egress_operator.Base.{ℕ, ◌<◌, Text, true, false, List, [], none, some, Memᴰ, ◌≡◌, ap, ◌∙◌}
use fqdn_egress_operator.Base.Int.{ℤ, pos, ltb_ℤ}
use fqdn_egress_operator.Base.Dict.{get}
use fqdn_egress_operator.Base.Fold.{Determined}
use fqdn_egress_operator.Api.Reason.{success, reason_eq, transient}
use fqdn_egress_operator.Api.Types.{FqdnStatus, NetworkPolicy}
use fqdn_egress_operator.Api.Status.{update}
use fqdn_egress_operator.Api.Translate.{cidr_string, lookup_table}
use fqdn_egress_operator.Network.Result.{Result}
use fqdn_egress_operator.Controller.Statuses.{starting_status}
use fqdn_egress_operator.Controller.Statuses.Order.{status_of}
use fqdn_egress_operator.Controller.Retention.{missing_map, max_duration, retention_period}
use fqdn_egress_operator.Controller.Retention.Entries.{find_entry}
use fqdn_egress_operator.Controller.Retention.Order.{retained}
use fqdn_egress_operator.Controller.Retention.Expiry.{Turn, next_status, next_status-fqdn}
use fqdn_egress_operator.Controller.Retention.Revoked.{revoked_one}
use fqdn_egress_operator.Controller.Reconcile.{Env}
use fqdn_egress_operator.Controller.Reconcile.Order.{final, final-mem}
use fqdn_egress_operator.Controller.Reconcile.Single.{starting_status-one, retained-next_status}

-- In a round of a policy with any number of FQDNs, when one of them fails for a reason that is neither
-- transient nor a success, FQDNStatus.Update takes its addresses away and reports that; but the statuses
-- of the round have every address of it that was not marked as missing, marked with the time of the round.
-- The policy has one status and the round one result for each FQDN, the clock stands still in the round,
-- and the retention period is positive and below the largest Duration.
pub revoked_kept :
    (env : Env) (np : NetworkPolicy) (now later wall period : ℕ) (s : FqdnStatus) (r : Result)
    (results : List Result) (a : Text)
    → retention_period env.parse_duration np.annotations ≡ pos period
    → ltb_ℤ (pos 0) (pos period) ≡ true
    → period < max_duration
    → Determined (λ (s : FqdnStatus). s.fqdn) np.status.fqdns
    → Determined (λ (r : Result). r.fqdn) results
    → Memᴰ s np.status.fqdns
    → Memᴰ r results
    → s.fqdn ≡ r.fqdn
    → reason_eq r.status success ≡ false
    → transient r.status ≡ false
    → get a (missing_map s.addresses []) ≡ some none
    → let (updated, cleared) =
        update
          (cidr_string env.net)
          (starting_status (lookup_table np.status.fqdns) r.fqdn)
          r.cidrs
          r.status
          r.message
          np.spec.retry_timeout_seconds
          now
          later in
      (cleared ≡ true)
      × (updated.addresses ≡ [])
      × ((kept : FqdnStatus) × Memᴰ kept (final env np now later wall results)
          × (kept.fqdn ≡ r.fqdn)
          × (find_entry a kept.addresses ≡ some (some wall)))
unfolding next_status
revoked_kept env np now later wall period s r results a period_is positive short h j m n e bad
      lasting unmarked =
    let cs = cidr_string env.net in
    let retry = np.spec.retry_timeout_seconds in
    let turn : Turn = record { result = r; now = now; later = later; wall = wall } in
    let one =
      revoked_one cs s r retry now later wall period env.order a bad lasting unmarked short in
    let start = starting_status-one s np.status.fqdns r.fqdn h m e in
    let same =
      ap
        (λ (p : ℤ).
          retained cs env.order wall p np.status.fqdns results
            (status_of cs retry now later np.status.fqdns r))
        period_is
      ∙ retained-next_status cs retry env.order now later wall period s np.status.fqdns r results
          positive h j m n e in
    (
      ap (λ f. (update cs f r.cidrs r.status r.message retry now later).1) start ∙ one.0,
      ap (λ f. (update cs f r.cidrs r.status r.message retry now later).0.addresses) start ∙ one.1,
      (
        next_status cs retry env.order period s turn,
        subst (λ x. Memᴰ x (final env np now later wall results)) same
            (final-mem env np now later wall results r n),
        next_status-fqdn cs retry env.order period s turn ∙ e,
        one.2,
      ),
    )
