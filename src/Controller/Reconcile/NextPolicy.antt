-- ===== src/Controller/Reconcile/NextPolicy.antt =====
-- The policy that a round of Reconcile gives to Status().Update, and many rounds, each of which starts
-- from the one before.

use fqdn_egress_operator.Base.Range.{RangeOrder}
use fqdn_egress_operator.Base.{
  suc, ℕ, Text, List, [], ◌∷◌, map, Option, none, some, if◌then◌else◌, ◌≡◌, refl, ap, ◌∙◌, inl,
  arith,
}
use fqdn_egress_operator.Base.Sort.{sort_by}
use fqdn_egress_operator.Base.Dict.{get}
use fqdn_egress_operator.Multi.{MultiPolicy}
use fqdn_egress_operator.Api.Conditions.{
  set_resolved_condition, set_ready_condition_true, set_ready_condition_false,
}
use fqdn_egress_operator.Api.Types.{FqdnStatus, NetworkPolicyStatus, NetworkPolicy}
use fqdn_egress_operator.Network.Result.{Result}
use fqdn_egress_operator.Network.Aggregate.{aggregated_message}
use fqdn_egress_operator.Controller.Cluster.{ApiError, Cluster}
use fqdn_egress_operator.Controller.Retention.{old_missing_map, or_empty}
use fqdn_egress_operator.Controller.Report.{fqdn_less, sort_addresses, sort_status, reported}
use fqdn_egress_operator.Controller.Reconcile.{
  Env, Round, resolved_policy, wanted_policy, ready_policy, finish_with, ignore_conflict, reconcile,
  reconcile_creation, update_status_if_needed, apply_policy, reconcile_rules,
}
use fqdn_egress_operator.Controller.Reconcile.Order.{final, round_of}
use fqdn_egress_operator.Controller.Reconcile.Permits.{statuses, noted, resolved, reconcile_run}

-- What one round meets
pub record Meeting : Type 0 where
  pub results : List Result
  pub now : ℕ
  pub later : ℕ
  pub wall : ℕ
  pub message : Text
  pub wanted : MultiPolicy
  pub applied : Option ApiError

-- The environment with another order for the loops over the maps
abbrev pub then_env : Env → RangeOrder → Env
then_env env o = record env { order = o }

module _ (env : Env) where
  -- The policy with the status that the round writes: `message` is that of the condition Resolved, and
  -- `applied` the error of the creation of `wanted`.
  unfoldable pub next_policy : NetworkPolicy → Meeting → NetworkPolicy
  next_policy np t =
      let resolved =
        resolved_policy env np (final env np t.now t.later t.wall t.results)
          (round_of env np t.now t.later t.wall t.results) t.message in
      record np { status = reported (ready_policy env resolved t.wanted t.applied).0 }

module _ (env : Env) where
  -- Many rounds whose writes succeed: the n-th visits the maps in the n-th of the orders.
  unfoldable pub run_rounds : (ℕ → RangeOrder) → NetworkPolicy → List Meeting → NetworkPolicy
  run_rounds orders np [] = np
  run_rounds orders np (t ∷ rest) =
      run_rounds (λ n. orders (suc n)) (next_policy (then_env env (orders 0)) np t) rest

  -- The mark of an address of an FQDN in oldMissingMap, where a round looks it up
  abbrev pub mark_in : Text → Text → NetworkPolicy → Option (Option ℕ)
  mark_in f a np = get a (or_empty (get f (old_missing_map np.status.fqdns [])))

  ready-fqdns :
      (np : NetworkPolicy) (mnp : MultiPolicy) (e : Option ApiError)
      → (ready_policy env np mnp e).0.status.fqdns ≡ np.status.fqdns
  unfolding ready_policy set_ready_condition_true set_ready_condition_false
  ready-fqdns np mnp none = ground arith
  ready-fqdns np mnp (some e) = refl

  reported-fqdns :
      (np : NetworkPolicy)
      → (reported np).fqdns ≡ map sort_addresses (sort_by fqdn_less np.status.fqdns)
  unfolding reported sort_status
  reported-fqdns np = refl

  pub next_policy-fqdns :
      (np : NetworkPolicy) (t : Meeting)
      → (next_policy env np t).status.fqdns
        ≡ map sort_addresses (sort_by fqdn_less (final env np t.now t.later t.wall t.results))
  unfolding next_policy resolved_policy set_resolved_condition
  next_policy-fqdns np t =
      reported-fqdns _
      ∙ ap (λ l. map sort_addresses (sort_by fqdn_less l)) (ready-fqdns _ t.wanted t.applied)

  ready-rest :
      (np : NetworkPolicy) (mnp : MultiPolicy) (e : Option ApiError) (status : NetworkPolicyStatus)
      → record (ready_policy env np mnp e).0 { status = status } ≡ record np { status = status }
  unfolding ready_policy set_ready_condition_true set_ready_condition_false
  ready-rest np mnp none status = ground arith
  ready-rest np mnp (some e) status = refl

  update_status-next_policy :
      (np p : NetworkPolicy) (k : Cluster)
      → record p { status = reported p } ≡ record np { status = reported p }
      → update_status_if_needed env p np k ≡ (
          if env.same_status (sort_status np.status) (reported p)
          then (k, none)
          else let (k', err) = env.client.update_status (record np { status = reported p }) k in
            (k', ignore_conflict err))
  unfolding update_status_if_needed
  update_status-next_policy np p k same = rw same refl

  resolved-rest :
      (np : NetworkPolicy) (round : Round) (fqdns : List FqdnStatus) (message : Text)
      (status : NetworkPolicyStatus)
      → record (resolved_policy env np fqdns round message) { status = status }
        ≡ record np { status = status }
  unfolding resolved_policy set_resolved_condition
  resolved-rest np round fqdns message status = refl

  apply-made :
      (p previous : NetworkPolicy) (mnp : MultiPolicy) (k k' : Cluster) (e : Option ApiError)
      → reconcile_creation env p mnp k ≡ (k', e)
      → apply_policy env p previous (some mnp) k
        ≡ finish_with env
            (update_status_if_needed env (ready_policy env p mnp e).0 previous k')
            (ready_policy env p mnp e).1
  unfolding apply_policy reconcile_rules
  apply-made p previous mnp k k' e made =
      ap
        (λ (w : Cluster × Option ApiError).
          finish_with env (update_status_if_needed env (ready_policy env p mnp w.1).0 previous w.0)
            (ready_policy env p mnp w.1).1)
        made

  -- A round with egress rules gives this policy to Status().Update, unless its status is the previous
  -- one, in the cluster that the creation leaves.
  reconcile-next_policy :
      (np : NetworkPolicy) (t : Meeting) (k k' : Cluster)
      → let round = round_of env np t.now t.later t.wall t.results in
        let before = resolved env round k np t.message in
        env.client.get_policy k ≡ inl np
        → aggregated_message t.results ≡ some t.message
        → wanted_policy env np (statuses env round k np t.message) ≡ some t.wanted
        → reconcile_creation env before t.wanted (noted env round k np t.message) ≡ (k', t.applied)
        → reconcile env round k
          ≡ some (
              finish_with env
                (if env.same_status (sort_status np.status) (next_policy env np t).status
                  then (k', none)
                  else let (k'', err) = env.client.update_status (next_policy env np t) k' in
                    (k'', ignore_conflict err))
                (ready_policy env before t.wanted t.applied).1)
  unfolding next_policy
  reconcile-next_policy np t k k' read message wanted made =
      let round = round_of env np t.now t.later t.wall t.results in
      let before = resolved env round k np t.message in
      let p = (ready_policy env before t.wanted t.applied).0 in
      let rest =
        ready-rest before t.wanted t.applied (reported p)
        ∙ resolved-rest np round (final env np t.now t.later t.wall t.results) t.message
            (reported p) in
      reconcile_run env round k np t.message read message
      ∙ (ap (λ w. some (apply_policy env before np w (noted env round k np t.message))) wanted
          ∙ ap some (
              apply-made before np t.wanted (noted env round k np t.message) k' t.applied made
              ∙ ap (λ w. finish_with env w (ready_policy env before t.wanted t.applied).1)
                  (update_status-next_policy np p k' rest)))
