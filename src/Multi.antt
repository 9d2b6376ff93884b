-- ===== src/Multi.antt =====
-- The MultiNetworkPolicy resource that the operator writes, with the fields that the code reads or
-- sets: the structs of k8s.cni.cncf.io/v1beta1 and of metav1. A nil slice and an empty one are the
-- same list, as they are for the code and for equality.Semantic.
use fqdn_egress_operator.Base.{ℕ, Text, List, Option, ◌≡◌}
use fqdn_egress_operator.Base.Decimal.{itoa}
use fqdn_egress_operator.Base.Dict.{Dict}

-- intstr.IntOrString
pub data IntOrString : Type 0 where
  int_val : ℕ → IntOrString
  str_val : Text → IntOrString

-- IntOrString.String, of k8s.io/apimachinery: an integer is printed by strconv.Itoa.
pub record PortPrinter : Type 0 where
  pub string : IntOrString → Text
  pub string_int : (n : ℕ) → string (int_val n) ≡ itoa n

-- MultiNetworkPolicyPort
pub record Port : Type 0 where
  pub protocol : Option Text
  pub port : Option IntOrString
  pub end_port : Option ℕ

pub record IpBlock : Type 0 where
  pub cidr : Text

-- MultiNetworkPolicyPeer
pub record Peer : Type 0 where
  pub ip_block : Option IpBlock

-- MultiNetworkPolicyEgressRule
pub record Rule : Type 0 where
  pub ports : List Port
  pub to : List Peer

-- MultiNetworkPolicyIngressRule
pub record IngressRule : Type 0 where
  pub ports : List Port
  pub from : List Peer

-- metav1.LabelSelectorRequirement
pub record Requirement : Type 0 where
  pub key : Text
  pub operator : Text
  pub values : List Text

-- MultiNetworkPolicySpec, its PodSelector as two fields
pub record MultiSpec : Type 0 where
  pub match_labels : Dict Text
  pub match_expressions : List Requirement
  pub ingress : List IngressRule
  pub egress : List Rule
  pub policy_types : List Text

-- MultiNetworkPolicy
pub record MultiPolicy : Type 0 where
  pub name : Text
  pub namespace : Text
  pub labels : Dict Text
  pub annotations : Dict Text
  pub spec : MultiSpec
