-- ===== src/Utils/Dedupe/Ranges.antt =====
-- Two ports of one protocol and port, of which the first has an end port.
use mathlib.Core.Path.{subst}
use fqdn_egress_operator.Base.{
  ℕ, ◌<◌, ◌≤◌, Text, bytes, str_eq, str_eq_refl, true, false, [], ◌∷◌, Option, none, some, ◌≡◌,
  refl, ap, sym, ◌∙◌, inl, inr, any, arith,
}
use fqdn_egress_operator.Base.Dict.{Dict, get, put}
use fqdn_egress_operator.Base.Range.{RangeOrder}
use fqdn_egress_operator.Multi.{int_val, PortPrinter, Port, Rule}
use fqdn_egress_operator.Utils.Dedupe.{
  protocol_of, single_port_key, PortSet, put_ports, add_rule_ports, entry_of, add_peer, add_peers,
  collect, absorb_all, cidr_peer, regroup, dedupe,
}
use fqdn_egress_operator.Utils.Dedupe.Traffic.{
  Traffic, number_matches, port_matches, peer_is, ports_allow, rule_allows, egress_allows,
  IsSupported,
}
use fqdn_egress_operator.Utils.Dedupe.Collect.{set_allows, map_allows, Universe, AllGood}
use fqdn_egress_operator.Utils.Dedupe.Absorb.{
  map_allows-absorb_all, absorb_all-AllGood, absorb_all-UniqueKeys,
}
use fqdn_egress_operator.Utils.Dedupe.Access.{regroup_allows}

abbrev pub tcp_port : ℕ → Option ℕ → Port
tcp_port n end_port = record {
  protocol = some (bytes "TCP");
  port = some (int_val n);
  end_port = end_port;
}

-- A rule with a range of ports and then the first port of the range alone
abbrev pub range_rule : ℕ → ℕ → Text → Rule
range_rule n e c = record {
  ports = tcp_port n (some e) ∷ tcp_port n none ∷ [];
  to = cidr_peer c ∷ [];
}

module _ (pp : PortPrinter) (n : ℕ) where
  abbrev single : Port
  single = tcp_port n none

  -- What is recorded for the CIDR: the later port alone
  abbrev recorded : Text → Dict PortSet
  recorded c =
      (c, record { allow_all = false; ports = (single_port_key pp single, single) ∷ [] }) ∷ []

  collect_range :
      (e d : ℕ) (c : Text) → collect pp (range_rule n e (d ∷ c) ∷ []) [] ≡ recorded (d ∷ c)
  unfolding collect add_peers add_peer entry_of add_rule_ports put_ports put get str_eq
      single_port_key protocol_of
  collect_range e d c = rw (str_eq_refl (single_port_key pp single)) refl

  only : Universe pp (λ p. p ≡ single)
  unfolding protocol_of
  only = record {
    supported = λ p same.
        subst IsSupported (sym same)
          (record { known_protocol = inl refl; numbered = inr (n, refl) });
    agree = λ p q h k _. ap (λ (x : Port). x.end_port) (h ∙ sym k);
  }

  recorded-AllGood : (c : Text) → AllGood pp (λ p. p ≡ single) (recorded c)
  recorded-AllGood c = (
    record { keyed = ((refl, refl), tt); unique = (unfold get in refl, tt); filled = λ _. refl },
    tt,
  )

allowed_lem :
    (n e x d : ℕ) (c : Text)
    → n < x
    → x ≤ e
    → egress_allows
        (range_rule n e (d ∷ c) ∷ [])
        (d ∷ c)
        (record { protocol = bytes "TCP"; number = x })
      ≡ true
unfolding egress_allows rule_allows ports_allow port_matches number_matches peer_is any protocol_of
allowed_lem n e x d c above below =
    ground (arith, above, below, str_eq_refl (d ∷ c), str_eq_refl (bytes "TCP"))

denied_lem :
    (pp : PortPrinter) (n x d : ℕ) (c : Text)
    → n < x
    → map_allows (record { protocol = bytes "TCP"; number = x }) (d ∷ c) (recorded pp n (d ∷ c))
      ≡ false
unfolding map_allows set_allows entry_of get port_matches number_matches any protocol_of
denied_lem pp n x d c above = ground (arith, above, str_eq_refl (d ∷ c))

-- For a rule that opens the TCP ports n to e and then n alone to one CIDR, traffic to a port above n
-- and up to e is allowed by the rule and denied after the deduplication, which keeps the later of two
-- ports with the same protocol and port.
pub range_lost :
    (pp : PortPrinter) (o : RangeOrder) (n e x d : ℕ) (c : Text)
    → n < x
    → x ≤ e
    → let t : Traffic = record { protocol = bytes "TCP"; number = x } in
      (egress_allows (range_rule n e (d ∷ c) ∷ []) (d ∷ c) t ≡ true)
      × (egress_allows (dedupe pp o (range_rule n e (d ∷ c) ∷ [])) (d ∷ c) t ≡ false)
unfolding dedupe
range_lost pp o n e x d c above below =
    let t : Traffic = record { protocol = bytes "TCP"; number = x } in
    let U = λ (p : Port). p ≡ single pp n in
    let m = recorded pp n (d ∷ c) in
    let good = recorded-AllGood pp n (d ∷ c) in
    let through =
      ap (λ (k : Dict PortSet). egress_allows (regroup pp o (absorb_all k)) (d ∷ c) t)
        (collect_range pp n e d c)
      ∙ (regroup_allows pp o U (only pp n) (absorb_all m)
            (absorb_all-AllGood pp U (only pp n) m good)
            (absorb_all-UniqueKeys m (unfold get in (refl, tt))) (d ∷ c) t
          ∙ map_allows-absorb_all pp U (only pp n) t (d ∷ c) m good) in
    (allowed_lem n e x d c above below, through ∙ denied_lem pp n x d c above)
