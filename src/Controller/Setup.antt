-- ===== src/Controller/Setup.antt =====
-- internal/controller/networkpolicy_controller.go: NetworkPolicyReconciler and SetupWithManager.
use fqdn_egress_operator.Base.{ℕ, Text, bytes, Bool, true}

-- What the controller is built with
pub record ControllerSetup : Type 0 where
  pub watched_kind : Text
  pub generation_changed_only : Bool
  pub controller_name : Text
  pub max_concurrent_reconciles : ℕ

-- SetupWithManager
abbrev pub setup_with_manager : ControllerSetup
setup_with_manager = record {
  watched_kind = bytes "NetworkPolicy";
  generation_changed_only = true;
  controller_name = bytes "fqdn-egress-operator";
  max_concurrent_reconciles = 5;
}
