-- ===== src/Controller/Reconcile/Applied.antt =====
-- Reconcile: the MultiNetworkPolicy that a round with egress rules leaves in the cluster.
use mathlib.Core.Path.{subst}
use fqdn_egress_operator.Base.{
  Text, true, [], Option, none, some, ◌⊎◌, inl, inr, ◌≡◌, refl, ◌∙◌, arith,
}
use fqdn_egress_operator.Base.Dict.{get, UniqueKeys}
use fqdn_egress_operator.Api.Types.{NetworkPolicy}
use fqdn_egress_operator.Multi.{MultiSpec, MultiPolicy}
use fqdn_egress_operator.Utils.Operation.{
  OperationResult, unchanged, created, updated, updated_status, updated_status_only,
}
use fqdn_egress_operator.Controller.Report.{reported}
use fqdn_egress_operator.Controller.Sync.{mutate}
use fqdn_egress_operator.Controller.Sync.Synced.{mutate_lem}
use fqdn_egress_operator.Controller.Cluster.{ApiError, Cluster, ClientLaws, stored_or}
use fqdn_egress_operator.Controller.Reconcile.{
  Env, Outcome, update_status_if_needed, bare, change, creation_events, reconcile_creation,
  finish_with, reconcile_rules,
}

-- The documented effects of the libraries of an environment
pub record EnvLaws (env : Env) : Type 0 where
  pub client : ClientLaws env.client
  -- ctrl.SetControllerReference changes the owner references alone, which the model leaves out.
  pub set_owner : (np : NetworkPolicy) (m n : MultiPolicy) → env.set_owner np m ≡ inl n → m ≡ n
  -- equality.Semantic.DeepEqual
  pub same_spec : (s t : MultiSpec) → env.same_spec s t ≡ true → s ≡ t

module _ (env : Env) (laws : EnvLaws env) where
  creation_events-multi :
      (answer : OperationResult ⊎ ApiError) (k : Cluster)
      → (creation_events env answer k).multi ≡ k.multi
  unfolding creation_events
  creation_events-multi (inr e) k = refl
  creation_events-multi (inl unchanged) k = refl
  creation_events-multi (inl created) k = refl
  creation_events-multi (inl updated) k = refl
  creation_events-multi (inl updated_status) k = refl
  creation_events-multi (inl updated_status_only) k = refl

  update_status_if_needed-multi :
      (np previous : NetworkPolicy) (k : Cluster)
      → (update_status_if_needed env np previous k).0.multi ≡ k.multi
  unfolding update_status_if_needed
  update_status_if_needed-multi np previous k =
      let same = laws.client.update_status-multi (record np { status = reported np }) k in
      ground (arith, same)

  finish_with-multi :
      (r : Cluster × Option ApiError) (out : Outcome) → (finish_with env r out).0.multi ≡ r.0.multi
  unfolding finish_with
  finish_with-multi (k, none) out = refl
  finish_with-multi (k, some e) out = refl

  reconcile_rules-multi :
      (np previous : NetworkPolicy) (mnp : MultiPolicy) (k : Cluster)
      → (reconcile_rules env np previous mnp k).0.multi
        ≡ (env.client.create_or_update (bare env np) (change env np mnp) k).0.multi
  unfolding reconcile_rules reconcile_creation
  reconcile_rules-multi np previous mnp k =
      let (k', answer) = env.client.create_or_update (bare env np) (change env np mnp) k in
      finish_with-multi _ _
      ∙ (update_status_if_needed-multi _ previous (creation_events env answer k')
          ∙ creation_events-multi answer k')

  -- Once CreateOrUpdate has succeeded, the round leaves in the cluster a MultiNetworkPolicy with
  -- the wanted spec and, key by key, the wanted labels and annotations, whatever object was there
  -- before and whether or not the status is written; when the wanted maps have each key once, and
  -- the client and the libraries have their documented effects.
  pub reconcile_rules_lem :
      (np previous : NetworkPolicy) (mnp : MultiPolicy) (k : Cluster) (op : OperationResult)
      → UniqueKeys mnp.labels
      → UniqueKeys mnp.annotations
      → (env.client.create_or_update (bare env np) (change env np mnp) k).1 ≡ inl op
      → (m : MultiPolicy) × ((reconcile_rules env np previous mnp k).0.multi ≡ some m)
        × (m.spec ≡ mnp.spec)
        × ((key : Text)
            → (get key m.labels ≡ get key mnp.labels)
              × (get key m.annotations ≡ get key mnp.annotations))
  unfolding change
  reconcile_rules_lem np previous mnp k op u v ok =
      let (new, made, stored) =
        laws.client.create_or_update-stored (bare env np) (change env np mnp) k op ok in
      let old = stored_or (bare env np) k.multi in
      let same : mutate env.order env.same_spec mnp old ≡ new =
        laws.set_owner np (mutate env.order env.same_spec mnp old) new made in
      let facts : (key : Text) → _ =
        λ key. mutate_lem env.order env.same_spec mnp old key laws.same_spec u v in
      (
        new,
        reconcile_rules-multi np previous mnp k ∙ stored,
        subst (λ (m : MultiPolicy). m.spec ≡ mnp.spec) same (facts []).2,
        λ key. (
          subst (λ (m : MultiPolicy). get key m.labels ≡ get key mnp.labels) same (facts key).0,
          subst (λ (m : MultiPolicy). get key m.annotations ≡ get key mnp.annotations) same
              (facts key).1,
        ),
      )
