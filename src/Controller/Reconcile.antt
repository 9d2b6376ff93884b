-- ===== src/Controller/Reconcile.antt =====
-- internal/controller: Reconcile, with reconcileNetworkPolicyCreation, reconcileNetworkPolicyDeletion and
-- updateStatusIfNeeded, as functions on the cluster.
pub mod Applied
pub mod Deletion
pub mod Permits
pub mod Totals
pub mod Bounds
pub mod Requeue
pub mod Single
pub mod Expired
pub mod NextPolicy
pub mod Announced
pub mod Steady
pub mod Revoked
pub mod Order
pub mod Schedules
use fqdn_egress_operator.Base.{
  ℕ, ◌*◌, ◌+◌, Text, bytes, Bool, true, false, List, [], ◌∷◌, ◌++◌, Option, none, some, ◌⊎◌, inl,
  inr, length, null, if◌then◌else◌, ◌==◌,
}
use fqdn_egress_operator.Base.Int.{ℤ}
use fqdn_egress_operator.Base.Range.{RangeOrder}
use fqdn_egress_operator.Api.Reason.{ResolutionReason}
use fqdn_egress_operator.Api.Types.{Cidr, FqdnStatus, NetworkPolicyStatus, NetworkPolicy}
use fqdn_egress_operator.Api.Status.{second}
use fqdn_egress_operator.Api.Conditions.{
  SetCondition, ready_success, ready_empty_rules, ready_failure, set_resolved_condition,
  set_ready_condition_true, set_ready_condition_false,
}
use fqdn_egress_operator.Api.Translate.{NetText, cidr_string, to_multi_policy}
use fqdn_egress_operator.Multi.{PortPrinter, MultiSpec, MultiPolicy}
use fqdn_egress_operator.Network.Result.{Result, all_cidrs}
use fqdn_egress_operator.Network.Aggregate.{aggregated_status, aggregated_message}
use fqdn_egress_operator.Utils.Dedupe.{remove_duplicates, count_unique_addresses, is_empty}
use fqdn_egress_operator.Utils.Operation.{
  OperationResult, unchanged, created, updated, updated_status, updated_status_only,
  operation_error_reason, operation_reason, operation_message, deletion_reason, deletion_message,
}
use fqdn_egress_operator.Controller.Statuses.{Event, Clock, update_fqdn_statuses}
use fqdn_egress_operator.Controller.Retention.{retention_period, retain}
use fqdn_egress_operator.Controller.Report.{sort_status, reported}
use fqdn_egress_operator.Controller.Sync.{mutate}
use fqdn_egress_operator.Controller.Cluster.{ApiError, not_found, conflict, other, Cluster, Client}

-- The libraries that the reconciler calls, and the order of Go's maps
pub record Env : Type 1 where
  pub client : Client
  pub net : NetText
  pub ports : PortPrinter
  pub order : RangeOrder
  pub set_condition : SetCondition
  pub parse_duration : Text → Option ℤ
  pub same_spec : MultiSpec → MultiSpec → Bool
  pub same_status : NetworkPolicyStatus → NetworkPolicyStatus → Bool
  pub set_owner : NetworkPolicy → MultiPolicy → MultiPolicy ⊎ ApiError
  pub error_text : ApiError → Text

-- What one call meets: the results of the resolver and the readings of the clock
pub record Round : Type 0 where
  pub results : List Result
  pub clock : Clock
  pub now : ℕ

-- ctrl.Result, its RequeueAfter in nanoseconds, and the error
pub record Outcome : Type 0 where
  pub requeue_after : ℕ
  pub error : Option ApiError

abbrev pub done : Outcome
done = record { requeue_after = 0; error = none }

abbrev pub failed : ApiError → Outcome
failed e = record { requeue_after = 0; error = some e }

abbrev pub after : ℕ → Outcome
after d = record { requeue_after = d; error = none }

-- EventRecorder.Event
abbrev pub record_event : Event → Cluster → Cluster
record_event e k = record k { events = k.events ++ (e ∷ []) }

abbrev multi_type : Text
multi_type = bytes "MultiNetworkPolicy"

-- client.IgnoreNotFound
unfoldable pub ignore_not_found : ApiError → Option ApiError
ignore_not_found not_found = none
ignore_not_found conflict = some conflict
ignore_not_found (other t) = some (other t)

-- A conflict is no error
unfoldable pub ignore_conflict : Option ApiError → Option ApiError
ignore_conflict none = none
ignore_conflict (some conflict) = none
ignore_conflict (some not_found) = some not_found
ignore_conflict (some (other t)) = some (other t)

module _ (env : Env) where
  -- updateStatusIfNeeded
  unfoldable pub update_status_if_needed :
      NetworkPolicy → NetworkPolicy → Cluster → Cluster × Option ApiError
  unfolding ignore_conflict
  update_status_if_needed np previous k =
      if env.same_status (sort_status previous.status) (reported np)
      then (k, none)
      else let (k', err) = env.client.update_status (record np { status = reported np }) k in
        (k', ignore_conflict err)

  -- `current`, with the name and the namespace alone
  abbrev pub bare : NetworkPolicy → MultiPolicy
  bare np = record {
    name = np.name;
    namespace = np.namespace;
    labels = [];
    annotations = [];
    spec = record {
      match_labels = [];
      match_expressions = [];
      ingress = [];
      egress = [];
      policy_types = [];
    };
  }

  -- The function that CreateOrUpdate is given
  unfoldable pub change : NetworkPolicy → MultiPolicy → MultiPolicy → MultiPolicy ⊎ ApiError
  change np mnp current = env.set_owner np (mutate env.order env.same_spec mnp current)

  -- The event after CreateOrUpdate
  unfoldable pub creation_events : OperationResult ⊎ ApiError → Cluster → Cluster
  creation_events (inr e) k =
      record_event
        (record {
          warning = true;
          reason = operation_error_reason multi_type;
          message = env.error_text e;
        })
        k
  creation_events (inl unchanged) k = k
  creation_events (inl op) k =
      record_event
        (record {
          warning = false;
          reason = operation_reason multi_type op;
          message = operation_message multi_type op;
        })
        k

  -- reconcileNetworkPolicyCreation
  unfoldable pub reconcile_creation :
      NetworkPolicy → MultiPolicy → Cluster → Cluster × Option ApiError
  unfolding creation_events
  reconcile_creation np mnp k =
      let (k', answer) = env.client.create_or_update (bare np) (change np mnp) k in
      (creation_events answer k', elim answer [ inl op ↦ none | inr e ↦ some e ])

  -- What Delete is followed by
  unfoldable pub deletion_events : Option ApiError → Cluster → Cluster × Option ApiError
  unfolding ignore_not_found
  deletion_events (some e) k = (k, ignore_not_found e)
  deletion_events none k = (
    record_event
        (record {
          warning = false;
          reason = deletion_reason multi_type;
          message = deletion_message multi_type;
        })
        k,
    none,
  )

  -- reconcileNetworkPolicyDeletion
  unfoldable pub reconcile_deletion : Cluster → Cluster × Option ApiError
  unfolding deletion_events ignore_not_found
  reconcile_deletion k = elim (env.client.get_multi k) [
    | inr e ↦ (k, ignore_not_found e)
    | inl mnp ↦ let (k', err) = env.client.delete_multi k in deletion_events err k'
  ]

  -- Reconcile up to the translation: np.Status.FQDNs, and the events of updateFQDNStatuses
  unfoldable pub resolved_statuses : NetworkPolicy → Round → List FqdnStatus × List Event
  resolved_statuses np round =
      let (statuses, events) =
        update_fqdn_statuses (cidr_string env.net) round.clock np.spec.retry_timeout_seconds
          np.status.fqdns round.results in
      (
        retain env.order (cidr_string env.net) round.now
            (retention_period env.parse_duration np.annotations) np.status.fqdns round.results
            statuses,
        events,
      )

  -- The MultiNetworkPolicy after RemoveDuplicateCIDRsInMultiNetworkPolicy
  unfoldable pub wanted_policy : NetworkPolicy → List FqdnStatus → Option MultiPolicy
  wanted_policy np statuses =
      remove_duplicates env.ports env.order (to_multi_policy env.net np statuses)

  -- np once the condition Resolved is set; the message of the aggregate is given
  unfoldable pub resolved_policy : NetworkPolicy → List FqdnStatus → Round → Text → NetworkPolicy
  resolved_policy np statuses round message =
      set_resolved_condition env.set_condition (aggregated_status round.results) message
        (record np {
          status = record np.status {
            fqdns = statuses;
            total_address_count = length (all_cidrs round.results);
            applied_address_count = count_unique_addresses (wanted_policy np statuses);
          };
        })

  -- An error of updateStatusIfNeeded is the outcome; else the given one is.
  unfoldable pub finish_with : Cluster × Option ApiError → Outcome → Cluster × Outcome
  finish_with (k, some e) outcome = (k, failed e)
  finish_with (k, none) outcome = (k, outcome)

  -- The branch without egress rules
  unfoldable pub reconcile_no_rules : NetworkPolicy → NetworkPolicy → Cluster → Cluster × Outcome
  unfolding update_status_if_needed reconcile_deletion finish_with
  reconcile_no_rules np previous k =
      if np.status.observed_generation == np.generation
      then (k, done)
      else let np' =
          set_ready_condition_false env.set_condition ready_failure
            (bytes "Network policy has no egress rules specified.") np in
        elim (update_status_if_needed np' previous k).1 [
          | some e ↦ ((update_status_if_needed np' previous k).0, failed e)
          | none ↦ finish_with (reconcile_deletion (update_status_if_needed np' previous k).0) done
        ]

  -- The condition Ready after the creation, and how long until the next round
  unfoldable pub ready_policy :
      NetworkPolicy → MultiPolicy → Option ApiError → NetworkPolicy × Outcome
  ready_policy np mnp (some e) = (
    set_ready_condition_false env.set_condition ready_failure
        (bytes "Network policy failed to apply: " ++ (env.error_text e ++ bytes ".")) np,
    after (60 * second),
  )
  ready_policy np mnp none = (
    if is_empty (some mnp)
        then set_ready_condition_true env.set_condition ready_empty_rules
            (bytes
              "Network policy has no FQDNs resolved to valid IP addresses, the default egress deny-all is in effect.")
            np
        else set_ready_condition_true env.set_condition ready_success
            (bytes "Network policy was successfully applied.") np,
    after (np.spec.ttl_seconds * second),
  )

  -- The branch with egress rules
  unfoldable pub reconcile_rules :
      NetworkPolicy → NetworkPolicy → MultiPolicy → Cluster → Cluster × Outcome
  unfolding update_status_if_needed reconcile_creation ready_policy finish_with
  reconcile_rules np previous mnp k =
      let (k', err) = reconcile_creation np mnp k in
      let (np', outcome) = ready_policy np mnp err in
      finish_with (update_status_if_needed np' previous k') outcome

  -- Reconcile from the translation on
  unfoldable pub apply_policy :
      NetworkPolicy → NetworkPolicy → Option MultiPolicy → Cluster → Cluster × Outcome
  unfolding reconcile_no_rules reconcile_rules
  apply_policy np previous none k = reconcile_no_rules np previous k
  apply_policy np previous (some mnp) k = reconcile_rules np previous mnp k

  -- Reconcile; `none` is a panic, of the aggregate's message
  unfoldable pub reconcile : Round → Cluster → Option (Cluster × Outcome)
  unfolding resolved_statuses wanted_policy resolved_policy apply_policy ignore_not_found
  reconcile round k = elim (env.client.get_policy k) [
    | inr e ↦ some (k, record { requeue_after = 0; error = ignore_not_found e })
    | inl np ↦
        let (statuses, events) = resolved_statuses np round in
        elim (aggregated_message round.results) [
          | none ↦ none
          | some message ↦ some (
              apply_policy (resolved_policy np statuses round message) np
                (wanted_policy np statuses) (record k { events = k.events ++ events }))
        ]
  ]
