-- ===== src/Api/Translate/MapOrder.antt =====
-- The applied MultiNetworkPolicy and the order in which Go visits the maps.
use fqdn_egress_operator.Base.{List, null, ◌≡◌, inl, inr, Bool-cases, arith, All}
use fqdn_egress_operator.Base.Range.{RangeOrder}
use fqdn_egress_operator.Multi.{PortPrinter, Rule}
use fqdn_egress_operator.Api.Types.{EgressRule, FqdnStatus, NetworkPolicy}
use fqdn_egress_operator.Api.Translate.{NetText, lookup_table, to_multi_rules, to_multi_policy}
use fqdn_egress_operator.Api.Translate.Meaning.{
  KnownProtocol, PortsAgree, translation_supported, translation_determines,
}
use fqdn_egress_operator.Utils.Dedupe.{dedupe, remove_duplicates}
use fqdn_egress_operator.Utils.Dedupe.Order.{dedupe_order}

-- For a policy whose protocols are TCP, UDP or SCTP and of which no two ports have one protocol and port and
-- different end ports, the order does not matter.
pub remove_duplicates-orders :
    (pp : PortPrinter) (o o' : RangeOrder) (net : NetText) (np : NetworkPolicy)
    (statuses : List FqdnStatus)
    → All (λ (r : EgressRule). All KnownProtocol r.ports) np.spec.egress
    → PortsAgree np.spec.egress
    → remove_duplicates pp o (to_multi_policy net np statuses)
      ≡ remove_duplicates pp o' (to_multi_policy net np statuses)
unfolding to_multi_policy remove_duplicates
remove_duplicates-orders pp o o' net np statuses known agree =
    let ips = lookup_table statuses in
    let g = np.spec.block_private_ips in
    let rules : List Rule = to_multi_rules net ips g np.spec.egress in
    let same : dedupe pp o rules ≡ dedupe pp o' rules =
      dedupe_order pp o o' rules (translation_supported pp net ips g np.spec.egress known agree)
        (translation_determines pp net ips g np.spec.egress known agree) in
    elim (Bool-cases (null np.spec.egress)) [
      | inl e ↦ ground (arith, e)
      | inr e ↦ ground (arith, e, same)
    ]
