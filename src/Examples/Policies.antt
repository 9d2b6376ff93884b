-- ===== src/Examples/Policies.antt =====
-- The translation, the deduplication and the reconciliation at concrete policies.
use mathlib.Core.List.{reverse}
use mathlib.Core.List.Permᴰ as PermD
use fqdn_egress_operator.Base.{
  str_lt, map, Text, bytes, str_eq, str_lt, has_prefix, join, true, ◌&&◌, [], ◌∷◌, none, some, inl,
  inr, if◌then◌else◌, ◌≡◌, ◌≢◌, refl, sym, ◌∙◌, any, All, All_mem, List, false, arith,
}
use fqdn_egress_operator.Base.Sort.{IsSorted, sort_by, insert_by}
use fqdn_egress_operator.Base.Decimal.{itoa}
use fqdn_egress_operator.Base.Sum.{count_if}
use fqdn_egress_operator.Base.Dict.{get, put, delete_where}
use fqdn_egress_operator.Base.Range.{RangeOrder}
use fqdn_egress_operator.Multi.{MultiPolicy, Port, Rule}
use fqdn_egress_operator.Utils.Dedupe.{
  dedupe, remove_duplicates, collect, add_peers, add_peer, entry_of, add_rule_ports, put_ports,
  single_port_key, protocol_of, port_of, absorb_all, absorb, absorb_protocol, regroup, group,
  group_one, port_slice, ports_fingerprint, start_cidrs, fill_cidrs, build_rule, cidr_peer,
}
use fqdn_egress_operator.Utils.Dedupe.Traffic.{egress_allows, peer_is, AllSupported}
use fqdn_egress_operator.Examples.Fixtures.{
  private_text, printer, in_order, public_text, net, dns, https, dns_status, policy, tcp, two_rules,
  no_end_ports,
}
use fqdn_egress_operator.Utils.Dedupe.Ranges.{range_rule, range_lost}
use fqdn_egress_operator.Utils.Dedupe.Order.{KeysDetermine, dedupe_order}
use fqdn_egress_operator.Utils.Dedupe.Access.{egress_allows-dedupe}
use fqdn_egress_operator.Utils.Dedupe.Unique.{occurrences, has_cidr, occurrences-dedupe}
use fqdn_egress_operator.Api.Types.{PolicyPort, EgressRule}
use fqdn_egress_operator.Api.Translate.{
  is_allowed, peer_less, get_peers, lookup_table, to_multi_policy, fqdns, to_multi_rules,
  to_multi_rule, fqdn_peers, address_peers, blocks_private, lookup_from, to_multi_port,
  match_labels_from, to_requirement,
}
use fqdn_egress_operator.Api.Ip.{to4, to16, is_private}
use fqdn_egress_operator.Api.Translate.Names.{names_fqdn, fqdns_lem}
use fqdn_egress_operator.Api.Translate.Peers.{lets_through, cidr_text, holds, get_peers_lem}
use fqdn_egress_operator.Api.Translate.Meaning.{policy_permits, PortsAgree, applied-policy_permits}

public-ne-empty : public_text ≢ []
public-ne-empty e = absurd (cc e)

two_rules-AllSupported : AllSupported two_rules
unfolding protocol_of
two_rules-AllSupported = (
  (record { known_protocol = inl refl; numbered = inr (443, refl) }, tt),
  (
    (
      record { known_protocol = inl refl; numbered = inr (80, refl) },
      (record { known_protocol = inl refl; numbered = inr (443, refl) }, tt),
    ),
    tt,
  ),
)

egress_allows-dedupe_example :
    egress_allows (dedupe printer in_order two_rules) public_text https
    ≡ egress_allows two_rules public_text https
egress_allows-dedupe_example =
    egress_allows-dedupe printer in_order two_rules public_text https two_rules-AllSupported
      (no_end_ports two_rules ((refl, tt), ((refl, (refl, tt)), tt))) public-ne-empty

occurrences-dedupe_example :
    occurrences public_text (dedupe printer in_order two_rules)
    ≡ (if has_cidr public_text two_rules then 1 else 0)
occurrences-dedupe_example =
    occurrences-dedupe printer in_order two_rules public_text public-ne-empty

-- The runtime visits every map backwards.
abbrev pub backwards : RangeOrder
backwards = record {
  range = λ loop {A} (xs : List A). reverse xs;
  range-perm = λ loop {A} (xs : List A). PermD.reverse xs;
}

-- Two rules with the one port, for two addresses and for one
abbrev one_port_rules : List Rule
one_port_rules =
    record { ports = tcp 443 ∷ []; to = cidr_peer public_text ∷ cidr_peer private_text ∷ [] }
    ∷ record { ports = tcp 443 ∷ []; to = cidr_peer public_text ∷ [] }
    ∷ []

one_port_rules-AllSupported : AllSupported one_port_rules
unfolding protocol_of
one_port_rules-AllSupported = (
  (record { known_protocol = inl refl; numbered = inr (443, refl) }, tt),
  ((record { known_protocol = inl refl; numbered = inr (443, refl) }, tt), tt),
)

one_port_rules-KeysDetermine : KeysDetermine printer one_port_rules
one_port_rules-KeysDetermine p q (r, m, i) (s, n, j) _ =
    let plain : All (λ (x : Rule). All (λ (y : Port). y ≡ tcp 443) x.ports) one_port_rules =
      ((refl, tt), ((refl, tt), tt)) in
    All_mem (λ (y : Port). y ≡ tcp 443) r.ports
      (All_mem (λ (x : Rule). All (λ (y : Port). y ≡ tcp 443) x.ports) one_port_rules plain m) i
    ∙ sym (
        All_mem (λ (y : Port). y ≡ tcp 443) s.ports
          (All_mem (λ (x : Rule). All (λ (y : Port). y ≡ tcp 443) x.ports) one_port_rules plain n)
          j)

dedupe_order_example :
    dedupe printer in_order one_port_rules ≡ dedupe printer backwards one_port_rules
dedupe_order_example =
    dedupe_order printer in_order backwards one_port_rules one_port_rules-AllSupported
      one_port_rules-KeysDetermine

-- The MultiNetworkPolicy of `policy`: one rule, with the public address alone
abbrev pub applied : MultiPolicy
applied = record {
  name = bytes "np";
  namespace = bytes "default";
  labels = (bytes "app", bytes "web") ∷ [];
  annotations = (bytes "k8s.v1.cni.cncf.io/policy-for", bytes "default/net") ∷ [];
  spec = record {
    match_labels = [];
    match_expressions = [];
    ingress = [];
    egress =
        record {
          ports = tcp 443 ∷ [];
          to = record { ip_block = some (record { cidr = public_text }) } ∷ [];
        }
        ∷ [];
    policy_types = bytes "Egress" ∷ [];
  };
}

pub policy-PortsAgree : PortsAgree policy.spec.egress
policy-PortsAgree p q (r, m, i) (s, n, j) _ _ =
    let plain : All (λ (x : EgressRule). All (λ (y : PolicyPort). y.end_port ≡ none) x.ports)
        policy.spec.egress =
      ((refl, tt), tt) in
    All_mem (λ (x : PolicyPort). x.end_port ≡ none) r.ports
      (All_mem (λ (x : EgressRule). All (λ (y : PolicyPort). y.end_port ≡ none) x.ports)
        policy.spec.egress plain m)
      i
    ∙ sym (
        All_mem (λ (x : PolicyPort). x.end_port ≡ none) s.ports
          (All_mem (λ (x : EgressRule). All (λ (y : PolicyPort). y.end_port ≡ none) x.ports)
            policy.spec.egress plain n)
          j)

policy-applied :
    remove_duplicates printer in_order (to_multi_policy net policy (dns_status ∷ [])) ≡ some applied
unfolding remove_duplicates to_multi_policy dedupe to_multi_rules to_multi_rule get_peers fqdn_peers
    address_peers is_allowed blocks_private is_private lookup_table lookup_from get put delete_where
    str_eq str_lt has_prefix join sort_by insert_by peer_less to_multi_port match_labels_from
    to_requirement collect add_peers add_peer entry_of add_rule_ports put_ports single_port_key
    protocol_of port_of absorb_all absorb absorb_protocol regroup group group_one port_slice
    ports_fingerprint start_cidrs fill_cidrs build_rule to4 to16 itoa
policy-applied = refl

applied-policy_permits_example :
    egress_allows applied.spec.egress public_text https
    ≡ policy_permits net (lookup_table (dns_status ∷ [])) policy public_text https
applied-policy_permits_example =
    applied-policy_permits printer in_order net policy (dns_status ∷ []) applied public_text https
      ((inl refl, tt), tt) policy-PortsAgree public-ne-empty policy-applied

get_peers_lem_example :
    ((c : Text)
      → any (peer_is c) (get_peers net (dns ∷ []) (lookup_table (dns_status ∷ [])) true none) ≡ (
          lets_through net c true none
          && any (holds (lookup_table (dns_status ∷ [])) c) (dns ∷ [])))
    × IsSorted str_lt
        (map cidr_text (get_peers net (dns ∷ []) (lookup_table (dns_status ∷ [])) true none))
get_peers_lem_example = get_peers_lem net (dns ∷ []) (lookup_table (dns_status ∷ [])) true none

fqdns_lem_example :
    ((f : Text)
      → count_if (str_eq f) (fqdns in_order policy)
        ≡ (if names_fqdn f policy.spec.egress then 1 else 0))
    × IsSorted str_lt (fqdns in_order policy)
    × ((o' : RangeOrder) → fqdns in_order policy ≡ fqdns o' policy)
fqdns_lem_example = fqdns_lem in_order policy

range_lost_example :
    (egress_allows
        (range_rule 80 90 public_text ∷ [])
        public_text
        (record { protocol = bytes "TCP"; number = 85 })
      ≡ true)
    × (egress_allows
          (dedupe printer in_order (range_rule 80 90 public_text ∷ []))
          public_text
          (record { protocol = bytes "TCP"; number = 85 })
        ≡ false)
range_lost_example =
    range_lost printer in_order 80 90 85 b'8' (bytes ".8.8.8/32") (omega arith) (omega arith)
