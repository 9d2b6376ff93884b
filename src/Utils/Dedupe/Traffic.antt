-- ===== src/Utils/Dedupe/Traffic.antt =====
-- What an egress section allows: the meaning that the deduplication has to keep.
use fqdn_egress_operator.Base.{
  ℕ, Text, str_eq, Bool, true, false, ◌&&◌, ◌||◌, List, any, null, Option, none, some, leb, ◌==◌,
  ◌≡◌, ◌⊎◌, bytes, Memᴰ, All,
}
use fqdn_egress_operator.Multi.{IntOrString, int_val, str_val, PortPrinter, Port, Peer, Rule}
use fqdn_egress_operator.Utils.Dedupe.{protocol_of, single_port_key}

-- A packet to an address: its protocol and its port.
pub record Traffic : Type 0 where
  pub protocol : Text
  pub number : ℕ

-- No port is every port, and an end port makes a range. A named port stands for a container's port,
-- and selects nothing at an IP block.
unfoldable pub number_matches : Option IntOrString → Option ℕ → ℕ → Bool
number_matches none end_port t = true
number_matches (some (int_val n)) none t = n == t
number_matches (some (int_val n)) (some e) t = leb n t && leb t e
number_matches (some (str_val s)) end_port t = false

unfoldable pub port_matches : Traffic → Port → Bool
unfolding number_matches
port_matches t p = str_eq (protocol_of p) t.protocol && number_matches p.port p.end_port t.number

unfoldable pub peer_is : Text → Peer → Bool
peer_is c peer = elim peer.ip_block [ none ↦ false | some block ↦ str_eq block.cidr c ]

-- A rule with no ports opens every port.
unfoldable pub ports_allow : List Port → Traffic → Bool
ports_allow ports t = null ports || any (port_matches t) ports

unfoldable pub rule_allows : Text → Traffic → Rule → Bool
unfolding peer_is ports_allow
rule_allows c t rule = any (peer_is c) rule.to && ports_allow rule.ports t

-- The egress section allows the traffic to the block `c`.
unfoldable pub egress_allows : List Rule → Text → Traffic → Bool
unfolding rule_allows
egress_allows rules c t = any (rule_allows c t) rules

-- The ports that the operator writes: TCP, UDP or SCTP, and a number or no port.
pub record IsSupported (p : Port) : Type 0 where
  pub known_protocol :
      (protocol_of p ≡ bytes "TCP") ⊎ (protocol_of p ≡ bytes "UDP") ⊎ (protocol_of p ≡ bytes "SCTP")
  pub numbered : (p.port ≡ none) ⊎ ((n : ℕ) × (p.port ≡ some (int_val n)))

-- Every port of every rule is one that the operator writes.
abbrev pub AllSupported : List Rule → Type 0
AllSupported rules = All (λ (r : Rule). All IsSupported r.ports) rules

-- Some rule has the port.
abbrev pub HasPort : List Rule → Port → Type 0
HasPort rules p = (r : Rule) × Memᴰ r rules × Memᴰ p r.ports

-- No two ports of the section have one key and different end ports.
abbrev pub KeysAgree : PortPrinter → List Rule → Type 0
KeysAgree pp rules =
    (p q : Port)
    → HasPort rules p
    → HasPort rules q
    → single_port_key pp p ≡ single_port_key pp q
    → p.end_port ≡ q.end_port
