-- ===== src/Controller/Reconcile/Deletion.antt =====
-- Reconcile of a policy whose egress rules were taken away, when the deletion fails.
use fqdn_egress_operator.Base.{
  Text, bytes, false, ◌==◌, List, none, some, inl, ◌≡◌, refl, ap, sym, ◌∙◌, arith,
}
use fqdn_egress_operator.Api.Types.{NetworkPolicy, FqdnStatus}
use fqdn_egress_operator.Api.Conditions.{
  set_ready_condition_false, ready_failure, set_resolved_condition,
}
use fqdn_egress_operator.Multi.{MultiPolicy}
use fqdn_egress_operator.Controller.Report.{reported, sort_status}
use fqdn_egress_operator.Controller.Cluster.{other, Cluster, ClientLaws}
use fqdn_egress_operator.Controller.Reconcile.{
  Env, Round, Outcome, done, failed, ignore_conflict, ignore_not_found, update_status_if_needed,
  reconcile_deletion, deletion_events, resolved_policy, finish_with, reconcile_no_rules,
  apply_policy,
}

-- A policy without rules whose generation was seen is left alone.
seen_lem :
    (env : Env) (np previous : NetworkPolicy) (k : Cluster)
    → np.status.observed_generation ≡ np.generation
    → reconcile_no_rules env np previous k ≡ (k, done)
unfolding reconcile_no_rules
seen_lem env np previous k e = ground (arith, e)

module _ (env : Env) (laws : ClientLaws env.client) where
  -- np after the branch has set the condition Ready
  abbrev refused : NetworkPolicy → NetworkPolicy
  refused np =
      set_ready_condition_false env.set_condition ready_failure
        (bytes "Network policy has no egress rules specified.") np

  abbrev written : NetworkPolicy → NetworkPolicy
  written np = record (refused np) { status = reported (refused np) }

  refused-seen : (np : NetworkPolicy) → (reported (refused np)).observed_generation ≡ np.generation
  unfolding reported sort_status set_ready_condition_false
  refused-seen np = refl

  abbrev after_update : NetworkPolicy → Cluster → Cluster
  after_update np k = (env.client.update_status (written np) k).0

  deletion_run :
      (np stored : NetworkPolicy) (mnp : MultiPolicy) (k : Cluster) (t : Text)
      → (np.status.observed_generation == np.generation) ≡ false
      → env.same_status (sort_status stored.status) (reported (refused np)) ≡ false
      → (env.client.update_status (written np) k).1 ≡ none
      → env.client.get_multi (after_update np k) ≡ inl mnp
      → (env.client.delete_multi (after_update np k)).1 ≡ some (other t)
      → reconcile_no_rules env np stored k
        ≡ ((env.client.delete_multi (after_update np k)).0, failed (other t))
  unfolding reconcile_no_rules update_status_if_needed ignore_conflict reconcile_deletion
      deletion_events ignore_not_found finish_with
  deletion_run np stored mnp k t unseen differs wrote found fails =
      ground (arith, unseen, differs, wrote, found, fails)

  -- A policy without egress rules, at a generation that was not seen, whose status is written and
  -- whose MultiNetworkPolicy then fails to be deleted, with a client of documented effects: the
  -- round ends with the error of the deletion, and the stored policy has its generation as seen,
  -- so that a further round over it, whatever it resolves, ends without an error and changes
  -- nothing.
  pub failed_deletion_lem :
      (np stored : NetworkPolicy) (mnp : MultiPolicy) (k : Cluster) (t : Text)
      → (np.status.observed_generation == np.generation) ≡ false
      → k.policy ≡ some stored
      → stored.generation ≡ np.generation
      → env.same_status (sort_status stored.status) (reported (refused np)) ≡ false
      → (env.client.update_status (written np) k).1 ≡ none
      → env.client.get_multi (env.client.update_status (written np) k).0 ≡ inl mnp
      → (env.client.delete_multi (env.client.update_status (written np) k).0).1 ≡ some (other t)
      → let (k', outcome) = apply_policy env np stored none k in
        (outcome ≡ failed (other t))
        × ((new : NetworkPolicy) × (k'.policy ≡ some new)
            × ((statuses : List FqdnStatus) (round : Round) (message : Text) (later : Cluster)
                → apply_policy env (resolved_policy env new statuses round message) new none later
                  ≡ (later, done)))
  unfolding apply_policy resolved_policy set_resolved_condition
  failed_deletion_lem np stored mnp k t unseen there same differs wrote found fails =
      let run = deletion_run np stored mnp k t unseen differs wrote found fails in
      let new = record stored { status = reported (refused np) } in
      let kept =
        laws.delete_multi-policy (after_update np k)
        ∙ laws.update_status-policy (written np) stored k there wrote in
      (
        ap (λ (r : Cluster × Outcome). r.1) run,
        (
          new,
          ap (λ (r : Cluster × Outcome). r.0.policy) run ∙ kept,
          λ statuses round message later.
              seen_lem env (resolved_policy env new statuses round message) new later
                (refused-seen np ∙ sym same),
        ),
      )
