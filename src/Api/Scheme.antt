-- ===== src/Api/Scheme.antt =====
-- api/v1alpha1/groupversion_info.go: the group and version of the API, and the types that the package
-- registers under it.
use fqdn_egress_operator.Base.{Text, bytes, List, [], ◌∷◌}
use fqdn_egress_operator.Api.Types.{NetworkPolicy}

-- schema.GroupVersion
pub record GroupVersion : Type 0 where
  pub group : Text
  pub version : Text

abbrev pub group_version : GroupVersion
group_version = record { group = bytes "networking.turbosimone.com"; version = bytes "v1alpha1" }

-- NetworkPolicyList
pub record NetworkPolicyList : Type 0 where
  pub list_items : List NetworkPolicy

-- The registration of init
abbrev pub registered_kinds : List (GroupVersion × Text)
registered_kinds =
    (group_version, bytes "NetworkPolicy") ∷ (group_version, bytes "NetworkPolicyList") ∷ []

-- The values of Label
abbrev pub label_keys : List Text
label_keys = bytes "vm.kubevirt.io/name" ∷ bytes "app.kubernetes.io/name" ∷ []
