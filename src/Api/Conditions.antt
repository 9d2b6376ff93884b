-- ===== src/Api/Conditions.antt =====
-- api/v1alpha1/networkpolicy_conditions.go: the conditions Resolved and Ready.
-- meta.SetStatusCondition, of k8s.io/apimachinery, is the parameter `set`.
use fqdn_egress_operator.Base.{ℕ, Text, bytes, Bool, true, false, List}
use fqdn_egress_operator.Api.Reason.{ResolutionReason, success, reason_eq, reason_string}
use fqdn_egress_operator.Api.Types.{Condition, NetworkPolicy}

-- NetworkPolicyReadyReason
pub data ReadyReason : Type 0 where
  ready_success ready_empty_rules ready_failure : ReadyReason

unfoldable pub ready_reason_string : ReadyReason → Text
ready_reason_string ready_success = bytes "Success"
ready_reason_string ready_empty_rules = bytes "EmptyRules"
ready_reason_string ready_failure = bytes "Failure"

-- meta.SetStatusCondition on the list of conditions
abbrev pub SetCondition : Type 0
SetCondition = Condition → List Condition → List Condition

abbrev with_condition : SetCondition → Condition → NetworkPolicy → NetworkPolicy
with_condition set c np = record np {
  status = record np.status { conditions = set c np.status.conditions };
}

-- The condition of one call; its transition time is left to SetStatusCondition
abbrev condition : Text → Bool → Text → Text → ℕ → Condition
condition type status reason message generation = record {
  type = type;
  status = status;
  observed_generation = generation;
  last_transition_time = 0;
  reason = reason;
  message = message;
}

-- NetworkPolicy.SetResolvedCondition
unfoldable pub set_resolved_condition :
    SetCondition → ResolutionReason → Text → NetworkPolicy → NetworkPolicy
set_resolved_condition set reason message np =
    with_condition set
      (condition (bytes "Resolved") (reason_eq reason success) (reason_string reason) message
        np.generation)
      np

-- NetworkPolicy.SetReadyConditionTrue; it also writes Status.ObservedGeneration
unfoldable pub set_ready_condition_true :
    SetCondition → ReadyReason → Text → NetworkPolicy → NetworkPolicy
set_ready_condition_true set reason message np =
    let np' =
      with_condition set
        (condition (bytes "Ready") true (ready_reason_string reason) message np.generation) np in
    record np' { status = record np'.status { observed_generation = np.generation } }

-- NetworkPolicy.SetReadyConditionFalse
unfoldable pub set_ready_condition_false :
    SetCondition → ReadyReason → Text → NetworkPolicy → NetworkPolicy
set_ready_condition_false set reason message np =
    with_condition set
      (condition (bytes "Ready") false (ready_reason_string reason) message np.generation) np
