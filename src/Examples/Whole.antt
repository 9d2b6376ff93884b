-- ===== src/Examples/Whole.antt =====
-- A whole round of the reconciler at a concrete cluster.
use fqdn_egress_operator.Utils.Dedupe.{
  remove_duplicates, dedupe, collect, add_peers, add_peer, entry_of, add_rule_ports, put_ports,
  single_port_key, protocol_of, port_of, absorb_all, absorb, absorb_protocol, regroup, group,
  group_one, port_slice, ports_fingerprint, start_cidrs, fill_cidrs, build_rule,
}
use fqdn_egress_operator.Api.Translate.{
  to_multi_policy, to_multi_rules, to_multi_rule, get_peers, fqdn_peers, address_peers, is_allowed,
  blocks_private, lookup_table, lookup_from, peer_less, to_multi_port, match_labels_from,
  to_requirement, cidr_string,
}
use fqdn_egress_operator.Api.Ip.{is_private, to4, to16}
use fqdn_egress_operator.Base.Dict.{get, put, delete_where}
use fqdn_egress_operator.Base.{
  str_eq, str_lt, has_prefix, join, Text, bytes, [], ◌∷◌, none, some, ◌≡◌, ◌≢◌, refl, inl,
}
use fqdn_egress_operator.Base.Sort.{sort_by, insert_by}
use fqdn_egress_operator.Base.Decimal.{itoa}
use fqdn_egress_operator.Controller.Reconcile.{
  resolved_statuses, wanted_policy, change, resolved_policy, Round, Outcome, reconcile,
}
use fqdn_egress_operator.Controller.Statuses.{
  update_fqdn_statuses, update_from, starting_status, cleared_event,
}
use fqdn_egress_operator.Api.Status.{update, update_addresses, write_reason}
use fqdn_egress_operator.Controller.Retention.{retain, forget_missing, retention_period}
use fqdn_egress_operator.Network.Result.{new_result, all_cidrs}
use fqdn_egress_operator.Network.Errors.{resolution_reason, resolution_message}
use fqdn_egress_operator.Network.Aggregate.{aggregated_message, success_count}
use fqdn_egress_operator.Api.Reason.{reason_eq, transient}
use fqdn_egress_operator.Controller.Sync.{mutate}
use fqdn_egress_operator.Multi.{MultiPolicy}
use fqdn_egress_operator.Utils.Dedupe.Traffic.{Traffic, egress_allows}
use fqdn_egress_operator.Utils.Operation.{updated}
use fqdn_egress_operator.Api.Translate.Meaning.{policy_permits}
use fqdn_egress_operator.Controller.Cluster.{Cluster}
use fqdn_egress_operator.Controller.Reconcile.Permits.{statuses, reconcile-policy_permits}
use fqdn_egress_operator.Examples.Fixtures.{policy, dns, public_cidr, env_with}
use fqdn_egress_operator.Examples.Policies.{applied, policy-PortsAgree}
use fqdn_egress_operator.Examples.Rounds.{env-EnvLaws}

-- The cluster holds the policy alone, and its FQDN resolves.
abbrev cluster_before : Cluster
cluster_before = record { policy = some policy; multi = none; events = [] }

abbrev round_ok : Round
round_ok = record {
  results = new_result dns (public_cidr ∷ []) none ∷ [];
  clock = λ n. (n, n);
  now = 9;
}

round_ok-message :
    aggregated_message round_ok.results ≡ some (bytes "All 1 FQDNs resolved successfully.")
unfolding remove_duplicates to_multi_policy dedupe to_multi_rules to_multi_rule get_peers fqdn_peers
    address_peers is_allowed blocks_private is_private lookup_table lookup_from get put delete_where
    str_eq str_lt has_prefix join sort_by insert_by peer_less to_multi_port match_labels_from
    to_requirement collect add_peers add_peer entry_of add_rule_ports put_ports single_port_key
    protocol_of port_of absorb_all absorb absorb_protocol regroup group group_one port_slice
    ports_fingerprint start_cidrs fill_cidrs build_rule to4 to16 itoa resolved_statuses
    wanted_policy update_fqdn_statuses update_from starting_status cleared_event update
    update_addresses write_reason retain forget_missing retention_period cidr_string new_result
    resolution_reason resolution_message all_cidrs aggregated_message success_count reason_eq
    transient change mutate resolved_policy
round_ok-message = refl

round_ok-wanted :
    wanted_policy
      (env_with none)
      policy
      (statuses (env_with none) round_ok cluster_before policy [])
    ≡ some applied
unfolding remove_duplicates to_multi_policy dedupe to_multi_rules to_multi_rule get_peers fqdn_peers
    address_peers is_allowed blocks_private is_private lookup_table lookup_from get put delete_where
    str_eq str_lt has_prefix join sort_by insert_by peer_less to_multi_port match_labels_from
    to_requirement collect add_peers add_peer entry_of add_rule_ports put_ports single_port_key
    protocol_of port_of absorb_all absorb absorb_protocol regroup group group_one port_slice
    ports_fingerprint start_cidrs fill_cidrs build_rule to4 to16 itoa resolved_statuses
    wanted_policy update_fqdn_statuses update_from starting_status cleared_event update
    update_addresses write_reason retain forget_missing retention_period cidr_string new_result
    resolution_reason resolution_message all_cidrs aggregated_message success_count reason_eq
    transient change mutate resolved_policy
round_ok-wanted = refl

reconcile-policy_permits_example :
    (m : MultiPolicy) × (outcome : Outcome) × (after : Cluster) × (reconcile
        (env_with none)
        round_ok
        cluster_before
      ≡ some (after, outcome))
    × (after.multi ≡ some m)
    × ((c : Text) (t : Traffic)
        → c ≢ []
        → egress_allows m.spec.egress c t
          ≡ policy_permits
              (env_with none).net
              (lookup_table (
                statuses
                  (env_with none)
                  round_ok
                  cluster_before
                  policy
                  (bytes "All 1 FQDNs resolved successfully.")))
              policy
              c
              t)
reconcile-policy_permits_example =
    reconcile-policy_permits (env_with none) round_ok cluster_before policy
      (bytes "All 1 FQDNs resolved successfully.") env-EnvLaws applied updated ((inl refl, tt), tt)
      policy-PortsAgree (unfold get in (refl, tt)) refl round_ok-message round_ok-wanted
      (unfold change in refl)
