-- ===== src/Api/Translate/Meaning.antt =====
-- What a NetworkPolicy means, and ToMultiNetworkPolicy against that meaning.
use mathlib.Core.Path.{subst}
use fqdn_egress_operator.Base.{
  ℕ, Text, bytes, str_eq, Bool, true, false, ◌&&◌, ◌||◌, List, [], ◌∷◌, map, Option, none, some,
  null, ◌≡◌, ◌≢◌, refl, ap, sym, ◌∙◌, ◌⊎◌, inl, inr, any, any-map, any_congr, arith, Option-cases,
  All, All_mem, All-of_mem, Memᴰ, mem-map_elim, leb, ◌==◌,
}
use fqdn_egress_operator.Base.Dict.{Dict}
use fqdn_egress_operator.Base.Range.{RangeOrder}
use fqdn_egress_operator.Multi.{PortPrinter, Port, Rule, MultiPolicy}
use fqdn_egress_operator.Utils.Dedupe.{protocol_of, single_port_key, dedupe, remove_duplicates}
use fqdn_egress_operator.Utils.Dedupe.Traffic.{
  Traffic, port_matches, peer_is, ports_allow, egress_allows, IsSupported, AllSupported, HasPort,
  KeysAgree,
}
use fqdn_egress_operator.Utils.Dedupe.Keys.{key_parts, port_of-injective}
use fqdn_egress_operator.Utils.Dedupe.Order.{KeysDetermine}
use fqdn_egress_operator.Utils.Dedupe.Access.{egress_allows-dedupe}
use fqdn_egress_operator.Api.Types.{FqdnStatus, PolicyPort, EgressRule, NetworkPolicy}
use fqdn_egress_operator.Api.Translate.{
  NetText, is_allowed, get_peers, to_multi_port, to_multi_rule, to_multi_rules, lookup_table,
  to_multi_policy,
}
use fqdn_egress_operator.Api.Translate.Peers.{holds, get_peers-is_allowed}

-- The numbers that a port of the policy selects: all, one, or a range.
unfoldable pub selects : Option ℕ → Option ℕ → ℕ → Bool
selects none end_port t = true
selects (some n) none t = n == t
selects (some n) (some e) t = leb n t && leb t e

unfoldable pub port_selects : Traffic → PolicyPort → Bool
unfolding selects
port_selects t p = str_eq p.protocol t.protocol && selects p.port p.end_port t.number

-- One egress rule permits the traffic: an FQDN of it resolved to the address, the private filter lets
-- the address through, and the ports, if there are any, select the traffic.
unfoldable pub rule_permits : NetText → Dict FqdnStatus → Bool → Text → Traffic → EgressRule → Bool
unfolding port_selects
rule_permits net ips global_block c t rule =
    (is_allowed net c global_block rule.block_private_ips && any (holds ips c) rule.to_fqdns)
    && (null rule.ports || any (port_selects t) rule.ports)

-- Some rule of the policy permits the traffic.
unfoldable pub policy_permits : NetText → Dict FqdnStatus → NetworkPolicy → Text → Traffic → Bool
unfolding rule_permits
policy_permits net ips np c t =
    any (rule_permits net ips np.spec.block_private_ips c t) np.spec.egress

-- What the validation of the resource promises of a port: its protocol is TCP, UDP or SCTP.
abbrev pub KnownProtocol : PolicyPort → Type 0
KnownProtocol p =
    (p.protocol ≡ bytes "TCP") ⊎ (p.protocol ≡ bytes "UDP") ⊎ (p.protocol ≡ bytes "SCTP")

abbrev pub NamesPort : List EgressRule → PolicyPort → Type 0
NamesPort rules p = (r : EgressRule) × Memᴰ r rules × Memᴰ p r.ports

-- No two ports of the policy have one protocol and port, and different end ports.
abbrev pub PortsAgree : List EgressRule → Type 0
PortsAgree rules =
    (p q : PolicyPort)
    → NamesPort rules p
    → NamesPort rules q
    → p.protocol ≡ q.protocol
    → p.port ≡ q.port
    → p.end_port ≡ q.end_port

port_matches-to_multi_port :
    (t : Traffic) (p : PolicyPort) → port_matches t (to_multi_port p) ≡ port_selects t p
unfolding port_matches to_multi_port port_selects protocol_of
port_matches-to_multi_port t p = ground arith

ports_allow-map :
    (t : Traffic) (ps : List PolicyPort)
    → ports_allow (map to_multi_port ps) t ≡ (null ps || any (port_selects t) ps)
unfolding ports_allow
ports_allow-map t [] = refl
ports_allow-map t (p ∷ ps) =
    any-map (port_matches t) to_multi_port (p ∷ ps)
    ∙ any_congr _ _ (p ∷ ps) (λ q _. port_matches-to_multi_port t q)

any_of_null {ℓ} : {A : Type ℓ} (p : A → Bool) (xs : List A) → null xs ≡ true → any p xs ≡ false
unfolding any
any_of_null p [] h = refl
any_of_null p (x ∷ xs) h = absurd (cc)

module _ (net : NetText) (ips : Dict FqdnStatus) (global_block : Bool) where
  -- The translation of the rules allows what some rule permits; a rule with no address is left out.
  any-to_multi_rules :
      (c : Text) (t : Traffic) (rules : List EgressRule)
      → egress_allows (to_multi_rules net ips global_block rules) c t
        ≡ any (rule_permits net ips global_block c t) rules
  unfolding to_multi_rules to_multi_rule egress_allows any rule_permits
  any-to_multi_rules c t [] = refl
  any-to_multi_rules c t (r ∷ rest) =
      let peers = get_peers net r.to_fqdns ips global_block r.block_private_ips in
      let found = get_peers-is_allowed net r.to_fqdns ips global_block r.block_private_ips c in
      let none_found = any_of_null (peer_is c) peers in
      ground (arith, any-to_multi_rules c t rest, found, none_found, ports_allow-map t r.ports)

  ports-to_multi_rule :
      (e : EgressRule) (r : Rule)
      → to_multi_rule net ips global_block e ≡ some r
      → r.ports ≡ map to_multi_port e.ports
  unfolding to_multi_rule
  ports-to_multi_rule e r h = ground arith

  -- Every rule of the translation has the ports of a rule of the policy.
  to_multi_rules-ports :
      (rules : List EgressRule) (r : Rule)
      → Memᴰ r (to_multi_rules net ips global_block rules)
      → (e : EgressRule) × Memᴰ e rules × (r.ports ≡ map to_multi_port e.ports)
  unfolding to_multi_rules
  to_multi_rules-ports [] r m = elim m [ ]
  to_multi_rules-ports (e ∷ rest) r m =
      let more = to_multi_rules net ips global_block rest in
      let ih = to_multi_rules-ports rest r in
      elim (Option-cases (to_multi_rule net ips global_block e)) [
        | inl h ↦
            let same : to_multi_rules net ips global_block (e ∷ rest) ≡ more = ground arith in
            later ih (subst (Memᴰ r) same m)
        | inr (r', h) ↦
            let same : to_multi_rules net ips global_block (e ∷ rest) ≡ r' ∷ more = ground arith in
            either ih r' h (subst (Memᴰ r) same m)
      ]
    where
      later :
          (Memᴰ r (to_multi_rules net ips global_block rest)
            → (d : EgressRule) × Memᴰ d rest × (r.ports ≡ map to_multi_port d.ports))
          → Memᴰ r (to_multi_rules net ips global_block rest)
          → (d : EgressRule) × Memᴰ d (e ∷ rest) × (r.ports ≡ map to_multi_port d.ports)
      later ih n = let (d, k, q) = ih n in (d, Memᴰ.tail k, q)

      either :
          (Memᴰ r (to_multi_rules net ips global_block rest)
            → (d : EgressRule) × Memᴰ d rest × (r.ports ≡ map to_multi_port d.ports))
          → (r' : Rule) → to_multi_rule net ips global_block e ≡ some r'
          → Memᴰ r (r' ∷ to_multi_rules net ips global_block rest)
          → (d : EgressRule) × Memᴰ d (e ∷ rest) × (r.ports ≡ map to_multi_port d.ports)
      either ih r' h (Memᴰ.head q) =
          (e, Memᴰ.head refl, ap (λ (x : Rule). x.ports) q ∙ ports-to_multi_rule e r' h)
      either ih r' h (Memᴰ.tail n) = later ih n

  -- Every port of the translation is the copy of a port of the policy.
  copied :
      (rules : List EgressRule) (q : Port)
      → HasPort (to_multi_rules net ips global_block rules) q
      → (p : PolicyPort) × NamesPort rules p × (to_multi_port p ≡ q)
  copied rules q (r, m, n) =
      let (e, k, same) = to_multi_rules-ports rules r m in
      let (p, h, is_q) = mem-map_elim to_multi_port e.ports (subst (Memᴰ q) same n) in
      (p, (e, k, h), is_q)

to_multi_port-IsSupported : (p : PolicyPort) → KnownProtocol p → IsSupported (to_multi_port p)
unfolding to_multi_port protocol_of
to_multi_port-IsSupported p k = record {
  known_protocol = k;
  numbered = elim (Option-cases p.port) [
    | inl e ↦ inl (ground (arith, e))
    | inr (n, e) ↦ inr (n, ground (arith, e))
  ];
}

port_of_copy :
    (p q : PolicyPort) → (to_multi_port p).port ≡ (to_multi_port q).port → p.port ≡ q.port
unfolding to_multi_port
port_of_copy p q e = ground arith

protocol_of_copy : (p : PolicyPort) → protocol_of (to_multi_port p) ≡ p.protocol
unfolding to_multi_port protocol_of
protocol_of_copy p = refl

same_copies :
    (p q : PolicyPort)
    → p.protocol ≡ q.protocol
    → p.port ≡ q.port
    → p.end_port ≡ q.end_port
    → to_multi_port p ≡ to_multi_port q
unfolding to_multi_port
same_copies p q e f g = rw (e, f, g) refl

module _ (pp : PortPrinter) (net : NetText) (ips : Dict FqdnStatus) (global_block : Bool)
    (rules : List EgressRule) (known : All (λ (r : EgressRule). All KnownProtocol r.ports) rules)
    (agree : PortsAgree rules) where
  known_at : (p : PolicyPort) → NamesPort rules p → KnownProtocol p
  known_at p (r, m, n) =
      All_mem KnownProtocol r.ports
        (All_mem (λ (r : EgressRule). All KnownProtocol r.ports) rules known m) n

  pub translation_supported : AllSupported (to_multi_rules net ips global_block rules)
  translation_supported = All-of_mem _ _ λ r m. All-of_mem IsSupported r.ports λ q n.
      let (p, h, same) = copied net ips global_block rules q (r, m, n) in
      subst IsSupported same (to_multi_port-IsSupported p (known_at p h))

  pub translation_determines : KeysDetermine pp (to_multi_rules net ips global_block rules)
  translation_determines q q' h h' e =
      let (p, n, same) = copied net ips global_block rules q h in
      let (p', n', same') = copied net ips global_block rules q' h' in
      let s = to_multi_port-IsSupported p (known_at p n) in
      let s' = to_multi_port-IsSupported p' (known_at p' n') in
      let keys : single_port_key pp (to_multi_port p) ≡ single_port_key pp (to_multi_port p') =
        ap (single_port_key pp) same ∙ (e ∙ ap (single_port_key pp) (sym same')) in
      let parts = key_parts pp (to_multi_port p) (to_multi_port p') s s' keys in
      let number =
        port_of_copy p p'
          (port_of-injective pp (to_multi_port p) (to_multi_port p') s s' parts.1) in
      let proto = sym (protocol_of_copy p) ∙ (parts.0 ∙ protocol_of_copy p') in
      sym same ∙ (same_copies p p' proto number (agree p p' n n' proto number) ∙ same')

  translation_agrees : KeysAgree pp (to_multi_rules net ips global_block rules)
  translation_agrees q q' h h' e =
      ap (λ (x : Port). x.end_port) (translation_determines q q' h h' e)

applied_egress :
    (pp : PortPrinter) (o : RangeOrder) (net : NetText) (np : NetworkPolicy)
    (statuses : List FqdnStatus) (mnp : MultiPolicy)
    → remove_duplicates pp o (to_multi_policy net np statuses) ≡ some mnp
    → let rules =
        to_multi_rules net (lookup_table statuses) np.spec.block_private_ips np.spec.egress in
      (mnp.spec.egress ≡ rules) ⊎ (mnp.spec.egress ≡ dedupe pp o rules)
unfolding remove_duplicates to_multi_policy
applied_egress pp o net np statuses mnp e = ground arith

-- The MultiNetworkPolicy that the operator applies allows exactly what the NetworkPolicy permits,
-- given the recorded addresses of its FQDNs: traffic to a CIDR that is not empty is allowed
-- exactly when some egress rule has an FQDN whose status holds the CIDR, the private filter of
-- that rule lets it through, and the rule's ports select the traffic (or it has none). The
-- protocols are TCP, UDP or SCTP, and no two ports of the policy have one protocol and port and
-- different end ports.
pub applied-policy_permits :
    (pp : PortPrinter) (o : RangeOrder) (net : NetText) (np : NetworkPolicy)
    (statuses : List FqdnStatus) (mnp : MultiPolicy) (c : Text) (t : Traffic)
    → All (λ (r : EgressRule). All KnownProtocol r.ports) np.spec.egress
    → PortsAgree np.spec.egress
    → c ≢ []
    → remove_duplicates pp o (to_multi_policy net np statuses) ≡ some mnp
    → egress_allows mnp.spec.egress c t ≡ policy_permits net (lookup_table statuses) np c t
unfolding policy_permits
applied-policy_permits pp o net np statuses mnp c t known agree h e =
    let ips = lookup_table statuses in
    let g = np.spec.block_private_ips in
    let rules = to_multi_rules net ips g np.spec.egress in
    let translated = any-to_multi_rules net ips g c t np.spec.egress in
    let same = λ (l : List Rule). egress_allows l c t in
    elim (applied_egress pp o net np statuses mnp e) [
      | inl q ↦ ap same q ∙ translated
      | inr q ↦
          ap same q
          ∙ (egress_allows-dedupe pp o rules c t
                (translation_supported pp net ips g np.spec.egress known agree)
                (translation_agrees pp net ips g np.spec.egress known agree) h
              ∙ translated)
    ]
