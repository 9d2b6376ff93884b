-- ===== src/Api/Admission.antt =====
-- api/v1alpha1/networkpolicy_types.go: the validation markers of a NetworkPolicySpec, which the API server
-- checks before the operator sees the policy.
use fqdn_egress_operator.Base.{
  ℕ, Text, bytes, str_eq, Bool, true, false, not, ◌&&◌, List, [], ◌∷◌, none, some, any, leb, length,
  null, suc, ◌==◌, if◌then◌else◌,
}
use fqdn_egress_operator.Base.Int.{pos, leb_ℤ}
use fqdn_egress_operator.Base.Regex.{matches}
use fqdn_egress_operator.Api.Reason.{NetworkType, unknown}
use fqdn_egress_operator.Api.Types.{
  PolicyPort, EgressRule, MatchLabel, LabelSelectorRequirement, NetworkPolicySpec,
}
use fqdn_egress_operator.Api.Scheme.{label_keys}
use fqdn_egress_operator.Api.Fqdn.Admitted.{fqdn_pattern}

abbrev pub every {ℓ} : {A : Type ℓ} → (A → Bool) → List A → Bool
every p [] = true
every p (x ∷ xs) = p x && every p xs

-- Minimum and Maximum
abbrev pub within : ℕ → ℕ → ℕ → Bool
within low high n = leb low n && leb n high

-- Enum
abbrev pub one_of : List Text → Text → Bool
one_of values t = any (str_eq t) values

-- No two elements at different places are equal, listType=set.
unfoldable pub distinct_by {ℓ} : {A : Type ℓ} → (A → A → Bool) → List A → Bool
distinct_by same [] = true
distinct_by same (x ∷ xs) = every (λ y. not (same x y)) xs && distinct_by same xs

-- The number of elements that pass, `filter(...).size()`
unfoldable pub count {ℓ} : {A : Type ℓ} → (A → Bool) → List A → ℕ
count p [] = 0
count p (x ∷ xs) = let n = count p xs in if p x then suc n else n

-- MultiNetworkPolicyPort, with the rule on endPort
unfoldable pub port_admitted : PolicyPort → Bool
port_admitted p = one_of (bytes "TCP" ∷ bytes "UDP" ∷ bytes "SCTP" ∷ []) p.protocol && elim p.port [
  | none ↦ (elim p.end_port [ none ↦ true | some e ↦ false ])
  | some n ↦
      within 1 65535 n && (elim p.end_port [ none ↦ true | some e ↦ within 1 65535 e && leb n e ])
]

-- EgressRule: 1 to 100 different FQDNs that match the pattern, and at most 10 ports
unfoldable pub rule_admitted : EgressRule → Bool
unfolding port_admitted distinct_by
rule_admitted r =
    within 1 100 (length r.to_fqdns)
    && (every (matches fqdn_pattern) r.to_fqdns
        && (leb (length r.ports) 10
            && (every port_admitted r.ports && distinct_by str_eq r.to_fqdns)))

unfoldable pub match_label_admitted : MatchLabel → Bool
match_label_admitted l = one_of label_keys l.label && not (null l.value)

-- The keys of listType=map
unfoldable pub same_label : MatchLabel → MatchLabel → Bool
same_label l m = str_eq l.label m.label && str_eq l.value m.value

unfoldable pub requirement_admitted : LabelSelectorRequirement → Bool
unfolding distinct_by
requirement_admitted r =
    one_of label_keys r.key
    && (one_of (bytes "In" ∷ bytes "NotIn" ∷ []) r.operator
        && (leb (length r.values) 50
            && (every (λ v. not (null v)) r.values && distinct_by str_eq r.values)))

-- Two requirements with a value in common, for the same key and operator
unfoldable pub overlapping : LabelSelectorRequirement → LabelSelectorRequirement → Bool
overlapping i j =
    str_eq i.key j.key
    && (str_eq i.operator j.operator && any (λ v. any (str_eq v) i.values) j.values)

-- The rule on matchExpressions: each requirement overlaps exactly one, itself.
unfoldable pub requirements_apart : List LabelSelectorRequirement → Bool
unfolding overlapping count
requirements_apart rs = every (λ i. count (λ j. overlapping i j) rs == 1) rs

-- The Enum of NetworkType
unfoldable pub known_network : NetworkType → Bool
known_network (unknown s) = false
known_network _ = true

-- NetworkPolicySpec
unfoldable pub spec_admitted : NetworkPolicySpec → Bool
unfolding rule_admitted match_label_admitted requirement_admitted same_label distinct_by
    requirements_apart
spec_admitted s =
    not (null s.target_network)
    && (within 1 30 (length s.egress)
        && (every rule_admitted s.egress
            && (every match_label_admitted s.match_labels
                && (leb (length s.match_expressions) 30
                    && (every requirement_admitted s.match_expressions
                        && (within 1 60 s.resolution_timeout_seconds
                            && (leb_ℤ s.retry_timeout_seconds (pos 86400)
                                && (within 3 1800 s.ttl_seconds
                                    && (known_network s.enabled_network_type
                                        && (distinct_by same_label s.match_labels
                                            && requirements_apart s.match_expressions))))))))))
