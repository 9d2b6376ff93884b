-- ===== src/Utils/Dedupe.antt =====
-- pkg/utils/networkpolicy.go: RemoveDuplicateCIDRsInMultiNetworkPolicy, phase by phase.
-- A map that the code ranges over is read in an order that `o : RangeOrder` gives for each loop.
pub mod Traffic
pub mod Keys
mod Collect
mod Rules
mod Absorb
mod Slices
mod Sorted
mod Group
pub mod Access
pub mod Unique
pub mod Order
pub mod Ranges
use mathlib.Core.Option
use fqdn_egress_operator.Base.{
  ℕ, ◌+◌, Text, bytes, str_eq, str_lt, has_prefix, join, Bool, true, false, not, ◌&&◌, List, [],
  ◌∷◌, ◌++◌, map, Option, none, some, null, length, is_some, if◌then◌else◌,
}
use fqdn_egress_operator.Base.Sort.{sort_by}
use fqdn_egress_operator.Base.Dict.{Dict, get, put, delete_where, keys, values}
use fqdn_egress_operator.Base.Range.{RangeOrder}
use fqdn_egress_operator.Multi.{PortPrinter, Port, Peer, Rule, MultiPolicy}

-- The `protocol` of getSinglePortKey: TCP where none is given
unfoldable pub protocol_of : Port → Text
protocol_of p = elim p.protocol [ none ↦ bytes "TCP" | some s ↦ s ]

-- The `port` of getSinglePortKey: Any where none is given
unfoldable pub port_of : PortPrinter → Port → Text
port_of pp p = elim p.port [ none ↦ bytes "Any" | some n ↦ pp.string n ]

-- getSinglePortKey
unfoldable pub single_port_key : PortPrinter → Port → Text
unfolding protocol_of port_of
single_port_key pp p = protocol_of p ++ (b':' ∷ port_of pp p)

-- getPortsFingerprint
unfoldable pub ports_fingerprint : PortPrinter → List Port → Text
ports_fingerprint pp ports =
    if null ports
    then bytes "All ports"
    else join (sort_by str_lt (map (single_port_key pp) ports)) (bytes ",")

-- portSet
pub record PortSet : Type 0 where
  pub allow_all : Bool
  pub ports : Dict Port

abbrev pub empty_set : PortSet
empty_set = record { allow_all = false; ports = [] }

-- `for k := range rule.Ports { ps.ports[getSinglePortKey(p)] = p }`
unfoldable pub put_ports : PortPrinter → List Port → Dict Port → Dict Port
put_ports pp [] m = m
put_ports pp (p ∷ rest) m = put_ports pp rest (put (single_port_key pp p) p m)

-- The two outcomes of a rule for the port set of one of its CIDRs.
unfoldable pub add_rule_ports : PortPrinter → Rule → PortSet → PortSet
unfolding put_ports
add_rule_ports pp rule ps =
    if ps.allow_all
    then ps
    else if null rule.ports
    then record { allow_all = true; ports = [] }
    else record ps { ports = put_ports pp rule.ports ps.ports }

-- `cidrToPortsMap[cidr]`, made empty where there is none
unfoldable pub entry_of : Dict PortSet → Text → PortSet
entry_of m cidr = Option.get_or (get cidr m) empty_set

-- The body of the loop over `rule.To`
unfoldable pub add_peer : PortPrinter → Rule → Dict PortSet → Peer → Dict PortSet
unfolding add_rule_ports entry_of
add_peer pp rule m peer = elim peer.ip_block [
  | none ↦ m
  | some block ↦
      if str_eq block.cidr []
      then m
      else put block.cidr (add_rule_ports pp rule (entry_of m block.cidr)) m
]

unfoldable pub add_peers : PortPrinter → Rule → List Peer → Dict PortSet → Dict PortSet
add_peers pp rule [] m = m
add_peers pp rule (peer ∷ rest) m = add_peers pp rule rest (add_peer pp rule m peer)

-- Phase 1: every CIDR with the ports that any rule opens to it
unfoldable pub collect : PortPrinter → List Rule → Dict PortSet → Dict PortSet
collect pp [] m = m
collect pp (rule ∷ rest) m = collect pp rest (add_peers pp rule rule.to m)

-- Phase 1.5, for one protocol: with the key "proto:Any" present, its other keys go
unfoldable pub absorb_protocol : Text → Dict Port → Dict Port
absorb_protocol proto ports =
    let any_key = proto ++ bytes ":Any" in
    if is_some (get any_key ports)
    then delete_where (λ k. has_prefix k (proto ++ bytes ":") && not (str_eq k any_key)) ports
    else ports

unfoldable pub absorb : PortSet → PortSet
unfolding absorb_protocol
absorb ps = if ps.allow_all then ps else if null ps.ports then ps else record ps {
  ports =
      absorb_protocol (bytes "SCTP")
        (absorb_protocol (bytes "UDP") (absorb_protocol (bytes "TCP") ps.ports));
}

-- Phase 1.5. The loop changes each port set in its place, so no order of the map shows.
unfoldable pub absorb_all : Dict PortSet → Dict PortSet
unfolding absorb
absorb_all [] = []
absorb_all ((cidr, ps) ∷ m) = (cidr, absorb ps) ∷ absorb_all m

-- cidrGrouping
pub record Grouping : Type 0 where
  pub cidr : Text
  pub fingerprint : Text

-- What phase 2 builds: groupings, fingerprintIPCounts, fingerprintToPortSlice
pub record Groups : Type 0 where
  pub groupings : List Grouping
  pub counts : Dict ℕ
  pub slices : Dict (List Port)

abbrev pub no_groups : Groups
no_groups = record { groupings = []; counts = []; slices = [] }

-- The `portSlice` of one CIDR: none for all ports, else the ports in the order of their keys
unfoldable pub port_slice : PortPrinter → RangeOrder → PortSet → List Port
port_slice pp o ps =
    if not ps.allow_all && not (null ps.ports)
    then sort_by (λ p q. str_lt (single_port_key pp p) (single_port_key pp q))
        (values (o.range 2 ps.ports))
    else []

-- The body of phase 2's loop
unfoldable pub group_one : PortPrinter → RangeOrder → Text → PortSet → Groups → Groups
group_one pp o cidr ps g =
    let slice = port_slice pp o ps in
    let f = ports_fingerprint pp slice in
    record {
      groupings = g.groupings ++ (record { cidr = cidr; fingerprint = f } ∷ []);
      counts = put f (Option.get_or (get f g.counts) 0 + 1) g.counts;
      slices = if is_some (get f g.slices) then g.slices else put f slice g.slices;
    }

-- Phase 2
unfoldable pub group : PortPrinter → RangeOrder → Dict PortSet → Groups → Groups
group pp o [] g = g
group pp o ((cidr, ps) ∷ m) g = group pp o m (group_one pp o cidr ps g)

-- Phase 3: `portsFingerprintToCidrs[f] = make([]string, 0, count)` for every fingerprint
unfoldable pub start_cidrs : Dict ℕ → Dict (List Text) → Dict (List Text)
start_cidrs [] m = m
start_cidrs ((f, count) ∷ rest) m = start_cidrs rest (put f [] m)

-- Phase 3: every CIDR is appended under its fingerprint
unfoldable pub fill_cidrs : List Grouping → Dict (List Text) → Dict (List Text)
fill_cidrs [] m = m
fill_cidrs (g ∷ rest) m =
    fill_cidrs rest (put g.fingerprint (Option.get_or (get g.fingerprint m) [] ++ (g.cidr ∷ [])) m)

abbrev pub cidr_peer : Text → Peer
cidr_peer c = record { ip_block = some (record { cidr = c }) }

-- The body of phase 4's loop
unfoldable pub build_rule : Dict (List Text) → Dict (List Port) → Text → Rule
build_rule cidrs slices f = record {
  ports = Option.get_or (get f slices) [];
  to = map cidr_peer (sort_by str_lt (Option.get_or (get f cidrs) []));
}

-- Phases 2 to 4 on the port sets of phase 1.5
unfoldable pub regroup : PortPrinter → RangeOrder → Dict PortSet → List Rule
regroup pp o m =
    let g = group pp o (o.range 1 m) no_groups in
    let cidrs = fill_cidrs g.groupings (start_cidrs (o.range 3 g.counts) []) in
    map (build_rule cidrs g.slices) (sort_by str_lt (keys (o.range 4 cidrs)))

-- The new `mnp.Spec.Egress`
unfoldable pub dedupe : PortPrinter → RangeOrder → List Rule → List Rule
dedupe pp o rules = regroup pp o (absorb_all (collect pp rules []))

-- RemoveDuplicateCIDRsInMultiNetworkPolicy; a nil policy stays nil
unfoldable pub remove_duplicates :
    PortPrinter → RangeOrder → Option MultiPolicy → Option MultiPolicy
remove_duplicates pp o none = none
remove_duplicates pp o (some mnp) =
    if null mnp.spec.egress
    then some mnp
    else some (record mnp { spec = record mnp.spec { egress = dedupe pp o mnp.spec.egress } })

-- CountUniqueAddresses
unfoldable pub count_peers : List Rule → ℕ
count_peers [] = 0
count_peers (rule ∷ rest) = length rule.to + count_peers rest

unfoldable pub count_unique_addresses : Option MultiPolicy → ℕ
unfolding count_peers
count_unique_addresses none = 0
count_unique_addresses (some mnp) = count_peers mnp.spec.egress

-- IsEmpty
unfoldable pub is_empty : Option MultiPolicy → Bool
is_empty none = true
is_empty (some mnp) = null mnp.spec.ingress && null mnp.spec.egress
