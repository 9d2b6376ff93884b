-- ===== src/Api/Types.antt =====
-- api/v1alpha1/networkpolicy_types.go: the structs of the resource. A time is a number of nanoseconds,
-- 0 for Go's zero time. An int32 that validation keeps above 0 is a natural number.
use fqdn_egress_operator.Base.{ℕ, Text, Bool, List, Option}
use fqdn_egress_operator.Base.Int.{ℤ}
use fqdn_egress_operator.Base.Dict.{Dict}
use fqdn_egress_operator.Api.Reason.{ResolutionReason, NetworkType}

-- CIDR: the bytes of a net.IP, and the prefix length
pub record Cidr : Type 0 where
  pub ip : List ℕ
  pub prefix : ℕ

pub record AddressEntry : Type 0 where
  pub address : Text
  pub missing_since : Option ℕ

pub record FqdnStatus : Type 0 where
  pub fqdn : Text
  pub failing_since : Option ℕ
  pub last_transition_time : ℕ
  pub reason : ResolutionReason
  pub message : Text
  pub addresses : List AddressEntry

-- MultiNetworkPolicyPort of this API
pub record PolicyPort : Type 0 where
  pub protocol : Text
  pub port : Option ℕ
  pub end_port : Option ℕ

pub record EgressRule : Type 0 where
  pub to_fqdns : List Text
  pub ports : List PolicyPort
  pub block_private_ips : Option Bool

pub record MatchLabel : Type 0 where
  pub label : Text
  pub value : Text

pub record LabelSelectorRequirement : Type 0 where
  pub key : Text
  pub operator : Text
  pub values : List Text

pub record NetworkPolicySpec : Type 0 where
  pub target_network : Text
  pub egress : List EgressRule
  pub match_labels : List MatchLabel
  pub match_expressions : List LabelSelectorRequirement
  pub enabled_network_type : NetworkType
  pub resolution_timeout_seconds : ℕ
  pub retry_timeout_seconds : ℤ
  pub ttl_seconds : ℕ
  pub block_private_ips : Bool

-- metav1.Condition; its status is "True" or "False"
pub record Condition : Type 0 where
  pub type : Text
  pub status : Bool
  pub observed_generation : ℕ
  pub last_transition_time : ℕ
  pub reason : Text
  pub message : Text

pub record NetworkPolicyStatus : Type 0 where
  pub fqdns : List FqdnStatus
  pub active_fqdn_count : ℕ
  pub failing_fqdn_count : ℕ
  pub applied_address_count : ℕ
  pub total_address_count : ℕ
  pub conditions : List Condition
  pub observed_generation : ℕ

-- NetworkPolicy, with the fields of its metadata that the operator reads
pub record NetworkPolicy : Type 0 where
  pub name : Text
  pub namespace : Text
  pub labels : Dict Text
  pub annotations : Dict Text
  pub generation : ℕ
  pub spec : NetworkPolicySpec
  pub status : NetworkPolicyStatus
