-- ===== src/Api/Translate.antt =====
-- api/v1alpha1/networkpolicy_funcs.go: the translation of a policy and the addresses of its FQDNs to a
-- MultiNetworkPolicy.
pub mod Peers
pub mod Names
pub mod Meaning
pub mod MapOrder
pub mod RoundTrip
pub mod Lookups
use fqdn_egress_operator.Base.{
  ℕ, Text, bytes, str_eq, str_lt, Bool, true, false, not, ◌&&◌, List, [], ◌∷◌, ◌++◌, map, Option,
  none, some, null, if◌then◌else◌,
}
use fqdn_egress_operator.Base.Decimal.{itoa}
use fqdn_egress_operator.Base.Sort.{sort_by}
use fqdn_egress_operator.Base.Dict.{Dict, get, put, keys}
use fqdn_egress_operator.Base.Range.{RangeOrder}
use fqdn_egress_operator.Api.Ip.{Ip, is_private}
use fqdn_egress_operator.Api.Ip.Dotted.{V6Text, ip_string, parse_cidr}
use fqdn_egress_operator.Api.Types.{
  Cidr, AddressEntry, FqdnStatus, PolicyPort, EgressRule, MatchLabel, LabelSelectorRequirement,
  NetworkPolicy,
}
use fqdn_egress_operator.Multi.{int_val, Port, Peer, Rule, Requirement, MultiPolicy}

-- The textual forms of package net that the code goes through: IP.String, and net.ParseCIDR with the
-- length of the mask.
pub record NetText : Type 0 where
  pub ip_string : Ip → Text
  pub parse_cidr : Text → Option Cidr

-- The forms that package net has
abbrev pub net_text : V6Text → NetText
net_text v6 = record { ip_string = ip_string v6; parse_cidr = parse_cidr v6 }

-- NewCIDR
abbrev pub new_cidr : NetText → Text → Option Cidr
new_cidr net cidr = net.parse_cidr cidr

-- MustCIDR; `none` is a panic
abbrev pub must_cidr : NetText → Text → Option Cidr
must_cidr net cidr = new_cidr net cidr

-- CIDR.String: "%s/%d"
unfoldable pub cidr_string : NetText → Cidr → Text
cidr_string net c = net.ip_string c.ip ++ (b'/' ∷ itoa c.prefix)

-- CIDRList.Strings
unfoldable pub cidr_strings : NetText → List Cidr → List Text
unfolding cidr_string
cidr_strings net [] = []
cidr_strings net (cidr ∷ rest) = cidr_string net cidr ∷ cidr_strings net rest

-- The rule's setting where it has one, else the policy's
unfoldable pub blocks_private : Bool → Option Bool → Bool
blocks_private global_block none = global_block
blocks_private global_block (some b) = b

-- isAllowed
unfoldable pub is_allowed : NetText → Text → Bool → Option Bool → Bool
unfolding blocks_private
is_allowed net cidr global_block rule_block = elim (new_cidr net cidr) [
  | none ↦ false
  | some c ↦ if is_private c.ip && blocks_private global_block rule_block then false else true
]

-- The less of sortPeersByCIDR: a peer with no block is after all others
unfoldable pub peer_less : Peer → Peer → Bool
peer_less p q = elim p.ip_block [
  | none ↦ false
  | some a ↦ elim q.ip_block [ none ↦ true | some b ↦ str_lt a.cidr b.cidr ]
]

-- The inner loop of getPeers, over the addresses of one status
unfoldable pub address_peers : NetText → Bool → Option Bool → List AddressEntry → List Peer
address_peers net global_block rule_block [] = []
address_peers net global_block rule_block (entry ∷ rest) =
    let more = address_peers net global_block rule_block rest in
    if is_allowed net entry.address global_block rule_block
    then record { ip_block = some (record { cidr = entry.address }) } ∷ more
    else more

-- The outer loop of getPeers, over the FQDNs of one rule
unfoldable pub fqdn_peers : NetText → List Text → Dict FqdnStatus → Bool → Option Bool → List Peer
unfolding address_peers
fqdn_peers net [] ips global_block rule_block = []
fqdn_peers net (fqdn ∷ rest) ips global_block rule_block =
    let more = fqdn_peers net rest ips global_block rule_block in
    elim (get fqdn ips) [
      | none ↦ more
      | some status ↦ address_peers net global_block rule_block status.addresses ++ more
    ]

-- getPeers
unfoldable pub get_peers : NetText → List Text → Dict FqdnStatus → Bool → Option Bool → List Peer
unfolding fqdn_peers peer_less
get_peers net fqdns ips global_block rule_block =
    sort_by peer_less (fqdn_peers net fqdns ips global_block rule_block)

-- The copy of one port: the number becomes an IntOrString, and the protocol a pointer
unfoldable pub to_multi_port : PolicyPort → Port
to_multi_port p = record {
  protocol = some p.protocol;
  port = elim p.port [ none ↦ none | some n ↦ some (int_val n) ];
  end_port = p.end_port;
}

-- EgressRule.toMultiNetworkPolicyEgressRule; nil where no address is left
unfoldable pub to_multi_rule : NetText → Dict FqdnStatus → Bool → EgressRule → Option Rule
unfolding get_peers to_multi_port
to_multi_rule net ips global_block rule =
    let peers = get_peers net rule.to_fqdns ips global_block rule.block_private_ips in
    if null peers then none else some (record { ports = map to_multi_port rule.ports; to = peers })

-- FQDNStatusList.LookupTable: of two statuses of one FQDN the later one counts
unfoldable pub lookup_from : List FqdnStatus → Dict FqdnStatus → Dict FqdnStatus
lookup_from [] m = m
lookup_from (s ∷ rest) m = lookup_from rest (put s.fqdn s m)

unfoldable pub lookup_table : List FqdnStatus → Dict FqdnStatus
unfolding lookup_from
lookup_table statuses = lookup_from statuses []

-- The loop over np.Spec.Egress of ToMultiNetworkPolicy
unfoldable pub to_multi_rules : NetText → Dict FqdnStatus → Bool → List EgressRule → List Rule
unfolding to_multi_rule
to_multi_rules net ips global_block [] = []
to_multi_rules net ips global_block (rule ∷ rest) =
    let more = to_multi_rules net ips global_block rest in
    elim (to_multi_rule net ips global_block rule) [ none ↦ more | some r ↦ r ∷ more ]

-- matchLabels[string(item.Label)] = item.Value
unfoldable pub match_labels_from : List MatchLabel → Dict Text → Dict Text
match_labels_from [] m = m
match_labels_from (item ∷ rest) m = match_labels_from rest (put item.label item.value m)

unfoldable pub to_requirement : LabelSelectorRequirement → Requirement
to_requirement r = record { key = r.key; operator = r.operator; values = r.values }

-- NetworkPolicy.ToMultiNetworkPolicy
unfoldable pub to_multi_policy : NetText → NetworkPolicy → List FqdnStatus → Option MultiPolicy
unfolding to_multi_rules lookup_table match_labels_from to_requirement
to_multi_policy net np statuses =
    if null np.spec.egress
    then none
    else some (record {
      name = np.name;
      namespace = np.namespace;
      labels = np.labels;
      annotations =
          put (bytes "k8s.v1.cni.cncf.io/policy-for")
            (np.namespace ++ (b'/' ∷ np.spec.target_network)) [];
      spec = record {
        match_labels = match_labels_from np.spec.match_labels [];
        match_expressions = map to_requirement np.spec.match_expressions;
        ingress = [];
        egress =
            to_multi_rules net (lookup_table statuses) np.spec.block_private_ips np.spec.egress;
        policy_types = bytes "Egress" ∷ [];
      };
    })

-- The set of NetworkPolicy.FQDNs
unfoldable pub add_fqdns : List Text → Dict (Unit {0}) → Dict (Unit {0})
add_fqdns [] m = m
add_fqdns (f ∷ rest) m = add_fqdns rest (put f tt m)

unfoldable pub fqdn_set : List EgressRule → Dict (Unit {0}) → Dict (Unit {0})
unfolding add_fqdns
fqdn_set [] m = m
fqdn_set (rule ∷ rest) m = fqdn_set rest (add_fqdns rule.to_fqdns m)

-- NetworkPolicy.FQDNs
unfoldable pub fqdns : RangeOrder → NetworkPolicy → List Text
unfolding fqdn_set
fqdns o np = sort_by str_lt (keys (o.range 5 (fqdn_set np.spec.egress [])))
