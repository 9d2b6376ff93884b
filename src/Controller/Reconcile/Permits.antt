-- ===== src/Controller/Reconcile/Permits.antt =====
-- A whole round of Reconcile against the meaning of the NetworkPolicy.
use mathlib.Core.Path.{subst}
use fqdn_egress_operator.Base.{
  Text, bytes, List, [], ◌∷◌, ◌++◌, some, inl, ◌≡◌, ◌≢◌, refl, ap, sym, ◌∙◌, arith, All,
}
use fqdn_egress_operator.Base.Dict.{UniqueKeys, put, get}
use fqdn_egress_operator.Api.Types.{EgressRule, NetworkPolicy, FqdnStatus}
use fqdn_egress_operator.Api.Translate.{lookup_table, to_multi_policy}
use fqdn_egress_operator.Api.Translate.Meaning.{
  KnownProtocol, PortsAgree, policy_permits, applied-policy_permits,
}
use fqdn_egress_operator.Multi.{MultiSpec, MultiPolicy}
use fqdn_egress_operator.Network.Aggregate.{aggregated_message}
use fqdn_egress_operator.Utils.Dedupe.{remove_duplicates}
use fqdn_egress_operator.Utils.Dedupe.Traffic.{Traffic, egress_allows}
use fqdn_egress_operator.Utils.Operation.{OperationResult}
use fqdn_egress_operator.Controller.Cluster.{Cluster}
use fqdn_egress_operator.Controller.Reconcile.{
  Env, Round, Outcome, bare, change, resolved_statuses, wanted_policy, resolved_policy,
  reconcile_rules, apply_policy, reconcile,
}
use fqdn_egress_operator.Controller.Reconcile.Applied.{EnvLaws, reconcile_rules_lem}

-- The labels of the wanted object are the policy's, and its one annotation has one key.
wanted_policy-maps :
    (env : Env) (np : NetworkPolicy) (statuses : List FqdnStatus) (mnp : MultiPolicy)
    → wanted_policy env np statuses ≡ some mnp
    → UniqueKeys np.labels
    → UniqueKeys mnp.labels × UniqueKeys mnp.annotations
unfolding wanted_policy remove_duplicates to_multi_policy put get
wanted_policy-maps env np statuses mnp h u =
    let labels : mnp.labels ≡ np.labels = ground (arith, h) in
    let annotations : mnp.annotations
        ≡ (bytes "k8s.v1.cni.cncf.io/policy-for", np.namespace ++ (b'/' ∷ np.spec.target_network))
          ∷ [] =
      ground (arith, h) in
    (subst UniqueKeys (sym labels) u, subst UniqueKeys (sym annotations) (refl, tt))

module _ (env : Env) (round : Round) (k : Cluster) (np : NetworkPolicy) (message : Text) where
  -- np.Status.FQDNs of the round
  abbrev pub statuses : List FqdnStatus
  statuses = (resolved_statuses env np round).0

  -- The cluster and the policy when the MultiNetworkPolicy is applied
  abbrev pub noted : Cluster
  noted = record k { events = k.events ++ (resolved_statuses env np round).1 }

  abbrev pub resolved : NetworkPolicy
  resolved = resolved_policy env np statuses round message

  pub reconcile_run :
      env.client.get_policy k ≡ inl np
      → aggregated_message round.results ≡ some message
      → reconcile env round k
        ≡ some (apply_policy env resolved np (wanted_policy env np statuses) noted)
  unfolding reconcile
  reconcile_run h m = ground (arith, h, m)

  -- A round that reads the policy, has a message for its results and whose CreateOrUpdate succeeds
  -- leaves a MultiNetworkPolicy in the cluster that allows, to every CIDR that is not empty,
  -- exactly what the policy permits given the FQDN statuses of the round; when the policy has
  -- egress rules, its protocols are TCP, UDP or SCTP, no two of its ports have one protocol and
  -- port and different end ports, its labels have each key once, and the client and the libraries
  -- have their documented effects.
  pub reconcile-policy_permits :
      (laws : EnvLaws env) (mnp : MultiPolicy) (op : OperationResult)
      → All (λ (r : EgressRule). All KnownProtocol r.ports) np.spec.egress
      → PortsAgree np.spec.egress
      → UniqueKeys np.labels
      → env.client.get_policy k ≡ inl np
      → aggregated_message round.results ≡ some message
      → wanted_policy env np statuses ≡ some mnp
      → (env.client.create_or_update (bare env resolved) (change env resolved mnp) noted).1 ≡ inl op
      → (m : MultiPolicy) × (outcome : Outcome) × (after : Cluster) × (reconcile env round k
          ≡ some (after, outcome))
        × (after.multi ≡ some m)
        × ((c : Text) (t : Traffic)
            → c ≢ []
            → egress_allows m.spec.egress c t
              ≡ policy_permits env.net (lookup_table statuses) np c t)
  unfolding apply_policy
  reconcile-policy_permits laws mnp op known agree labels got said wanted made =
      let (u, v) = wanted_policy-maps env np statuses mnp wanted labels in
      let (m, stored, spec, _) = reconcile_rules_lem env laws resolved np mnp noted op u v made in
      let r = reconcile_rules env resolved np mnp noted in
      let run : reconcile env round k ≡ some r =
        reconcile_run got said ∙ ap (λ w. some (apply_policy env resolved np w noted)) wanted in
      let meaning : (c : Text) (t : Traffic)
          → c ≢ []
          → egress_allows mnp.spec.egress c t
            ≡ policy_permits env.net (lookup_table statuses) np c t =
        λ c t h.
          applied-policy_permits env.ports env.order env.net np statuses mnp c t known agree h
            (unfold wanted_policy in wanted) in
      (
        m,
        r.1,
        r.0,
        run,
        stored,
        λ c t h. ap (λ (s : MultiSpec). egress_allows s.egress c t) spec ∙ meaning c t h,
      )
