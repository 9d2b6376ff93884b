-- ===== src/Controller/Reconcile/Requeue.antt =====
-- What Reconcile returns for a policy that the API server admits.
use fqdn_egress_operator.Base.{
  ◌*◌, ◌≤◌, true, false, List, null, Option, none, some, ◌⊎◌, inl, inr, ◌≡◌, ◌≢◌, refl, ap, ◌∙◌,
  arith, All, Option-cases,
}
use fqdn_egress_operator.Api.Types.{NetworkPolicy, FqdnStatus}
use fqdn_egress_operator.Api.Status.{second}
use fqdn_egress_operator.Api.Admission.{spec_admitted}
use fqdn_egress_operator.Api.Conditions.{set_resolved_condition}
use fqdn_egress_operator.Api.Translate.{to_multi_policy}
use fqdn_egress_operator.Multi.{MultiPolicy}
use fqdn_egress_operator.Network.Errors.{resolution_reason}
use fqdn_egress_operator.Network.Result.{Result}
use fqdn_egress_operator.Network.Aggregate.Worst.{aggregated_message_total}
use fqdn_egress_operator.Utils.Dedupe.{remove_duplicates}
use fqdn_egress_operator.Controller.Cluster.{ApiError, Cluster}
use fqdn_egress_operator.Controller.Reconcile.{
  Env, Round, Outcome, wanted_policy, ready_policy, reconcile_creation, update_status_if_needed,
  finish_with, resolved_policy, reconcile_rules, apply_policy, reconcile,
}
use fqdn_egress_operator.Controller.Reconcile.Permits.{statuses, noted, resolved, reconcile_run}

-- The next round is in 3 seconds to 30 minutes, or there is an error and nothing else, which the
-- queue takes as a reason to try again.
abbrev pub ComesBack : Outcome → Type 0
ComesBack outcome =
    ((outcome.error ≡ none)
      × (3 * second ≤ outcome.requeue_after)
      × (outcome.requeue_after ≤ 1800 * second))
    ⊎ ((outcome.error ≢ none) × (outcome.requeue_after ≡ 0))

some-ne-none : {A : Type 0} (x : A) → some x ≢ none
some-ne-none x e = cc e

finish_with-ComesBack :
    (env : Env) (k : Cluster) (err : Option ApiError) (outcome : Outcome)
    → ComesBack outcome
    → ComesBack (finish_with env (k, err) outcome).1
unfolding finish_with
finish_with-ComesBack env k none outcome h = h
finish_with-ComesBack env k (some e) outcome h = inr (some-ne-none e, refl)

ready_policy-ComesBack :
    (env : Env) (np : NetworkPolicy) (mnp : MultiPolicy) (err : Option ApiError)
    → 3 ≤ np.spec.ttl_seconds
    → np.spec.ttl_seconds ≤ 1800
    → ComesBack (ready_policy env np mnp err).1
unfolding ready_policy
ready_policy-ComesBack env np mnp none low high = inl (refl, omega arith, omega arith)
ready_policy-ComesBack env np mnp (some e) low high = inl (refl, omega arith, omega arith)

reconcile_rules-ComesBack :
    (env : Env) (np previous : NetworkPolicy) (mnp : MultiPolicy) (k : Cluster)
    → 3 ≤ np.spec.ttl_seconds
    → np.spec.ttl_seconds ≤ 1800
    → ComesBack (reconcile_rules env np previous mnp k).1
unfolding reconcile_rules
reconcile_rules-ComesBack env np previous mnp k low high =
    let made = reconcile_creation env np mnp k in
    let ready = ready_policy env np mnp made.1 in
    let written = update_status_if_needed env ready.0 previous made.0 in
    finish_with-ComesBack env written.0 written.1 ready.1
      (ready_policy-ComesBack env np mnp made.1 low high)

-- A policy with rules has a MultiNetworkPolicy.
wanted_policy-some :
    (env : Env) (np : NetworkPolicy) (statuses : List FqdnStatus)
    → null np.spec.egress ≡ false
    → (mnp : MultiPolicy) × (wanted_policy env np statuses ≡ some mnp)
wanted_policy-some env np statuses rules = elim (Option-cases (wanted_policy env np statuses)) [
  | inr q ↦ q
  | inl e ↦
      absurd (unfold wanted_policy remove_duplicates to_multi_policy in ground (arith, e, rules))
]

-- A policy is never dropped. For a policy that can be read and that the API server admits, with results
-- whose status is the one of their error, Reconcile returns, and either with an error and no delay, or
-- with no error and the next round in 3 seconds to 30 minutes, whatever the calls of the client answer.
pub reconcile-ComesBack :
    (env : Env) (round : Round) (k : Cluster) (np : NetworkPolicy)
    → env.client.get_policy k ≡ inl np
    → spec_admitted np.spec ≡ true
    → All (λ (r : Result). r.status ≡ resolution_reason r.error) round.results
    → (after : Cluster) × (outcome : Outcome) × (reconcile env round k ≡ some (after, outcome))
      × ComesBack outcome
unfolding apply_policy
reconcile-ComesBack env round k np got admitted made =
    let (message, said) = aggregated_message_total round.results made in
    let rules : null np.spec.egress ≡ false = unfold spec_admitted in ground arith in
    let low : 3 ≤ np.spec.ttl_seconds = unfold spec_admitted in ground arith in
    let high : np.spec.ttl_seconds ≤ 1800 = unfold spec_admitted in ground arith in
    let (mnp, wanted) = wanted_policy-some env np (statuses env round k np message) rules in
    let after = noted env round k np message in
    let np' = resolved env round k np message in
    let r = reconcile_rules env np' np mnp after in
    (
      r.0,
      r.1,
      reconcile_run env round k np message got said
          ∙ ap (λ w. some (apply_policy env np' np w after)) wanted,
      reconcile_rules-ComesBack env np' np mnp after
          (unfold resolved_policy in unfold set_resolved_condition in low)
          (unfold resolved_policy in unfold set_resolved_condition in high),
    )
