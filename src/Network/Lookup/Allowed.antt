-- ===== src/Network/Lookup/Allowed.antt =====
-- From the addresses that the resolver answers to the peers of a MultiNetworkPolicy.
use mathlib.Core.List.{Permᴰ}
use mathlib.Core.Path.{subst}
use fqdn_egress_operator.Base.{
  some, bytes, ◌++◌, if◌then◌else◌, is_some, ap, ◌∙◌, ◌≤◌, inl, inr, Bool-cases, Option-cases,
  str_lt, false, All_mem, All-of_mem, mem-perm, mem-map_elim, map-perm, ℕ, Text, Bool, not, ◌&&◌,
  List, [], ◌∷◌, map, Option, none, ◌≡◌, refl, arith, All, select,
}
use fqdn_egress_operator.Base.Int.{ℤ}
use fqdn_egress_operator.Api.Reason.{success, reason_eq}
use fqdn_egress_operator.Api.Ip.{Ip, to4, to16, is_private}
use fqdn_egress_operator.Api.Ip.Dotted.{V6Text}
use fqdn_egress_operator.Api.Ip.Forms.{IsAddress, V6Laws}
use fqdn_egress_operator.Api.Types.{Cidr, AddressEntry, FqdnStatus}
use fqdn_egress_operator.Api.Status.{update, update_addresses, write_reason}
use fqdn_egress_operator.Api.Translate.{
  net_text, cidr_string, is_allowed, blocks_private, address_peers,
}
use fqdn_egress_operator.Api.Translate.RoundTrip.{is_allowed-cidr_string}
use fqdn_egress_operator.Base.Decimal.{itoa}
use fqdn_egress_operator.Base.Sort.{IsSorted}
use fqdn_egress_operator.Network.Errors.{resolution_reason}
use fqdn_egress_operator.Network.Result.{new_result}
use fqdn_egress_operator.Network.Result.Order.{Ascending, new_result-cidrs}
use fqdn_egress_operator.Network.Lookup.{host_cidr}
use fqdn_egress_operator.Utils.Dedupe.{cidr_peer}

-- The text of a resolved address, `<address>/32` or `<address>/128`
abbrev pub literal_text : V6Text → Ip → Text
literal_text v6 ip =
    (net_text v6).ip_string ip ++ (b'/' ∷ (if is_some (to4 ip) then bytes "32" else bytes "128"))

-- The address is not a private one that the rule, or else the policy, blocks.
abbrev pub stays : Bool → Option Bool → Ip → Bool
stays global_block rule_block ip =
    not (is_private ip && elim rule_block [ none ↦ global_block | some b ↦ b ])

module _ (v6 : V6Text) (global_block : Bool) (rule_block : Option Bool) where
  -- The text of one resolved address.
  abbrev host_text : Ip → Text
  host_text ip = cidr_string (net_text v6) (host_cidr ip)

  abbrev passes : Ip → Bool
  passes ip = not (is_private ip && blocks_private global_block rule_block)

  host-is_allowed :
      (ip : Ip)
      → V6Laws v6
      → IsAddress ip
      → is_allowed (net_text v6) (host_text ip) global_block rule_block ≡ passes ip
  unfolding host_cidr
  host-is_allowed ip laws h =
      is_allowed-cidr_string v6 (host_cidr ip) global_block rule_block laws h (omega arith)

  abbrev entry : Cidr → AddressEntry
  entry c = record { address = cidr_string (net_text v6) c; missing_since = none }

  entries-address_peers :
      (ips : List Ip)
      → V6Laws v6
      → All IsAddress ips
      → address_peers (net_text v6) global_block rule_block (map entry (map host_cidr ips))
        ≡ map (λ ip. cidr_peer (host_text ip)) (select passes ips)
  unfolding address_peers select
  entries-address_peers [] laws h = refl
  entries-address_peers (ip ∷ ips) laws h =
      ground (arith, host-is_allowed ip laws h.0, entries-address_peers ips laws h.1)

  literal-host_text : (ip : Ip) → host_text ip ≡ literal_text v6 ip
  unfolding host_cidr cidr_string itoa
  literal-host_text ip = elim (Bool-cases (is_some (to4 ip))) [
    | inl e ↦ ground (arith, e)
    | inr e ↦ ground (arith, e)
  ]

  passes-lets : (ip : Ip) → passes ip ≡ stays global_block rule_block ip
  unfolding blocks_private
  passes-lets ip = elim (Option-cases rule_block) [
    | inl e ↦ ground (arith, e)
    | inr (b, e) ↦ ground (arith, e)
  ]

  literal-peers :
      (ips : List Ip)
      → map (λ ip. cidr_peer (host_text ip)) (select passes ips)
        ≡ map (λ ip. cidr_peer (literal_text v6 ip)) (select (stays global_block rule_block) ips)
  unfolding select
  literal-peers [] = refl
  literal-peers (ip ∷ ips) = elim (Bool-cases (passes ip)) [
    | inl e ↦
        ground (
          arith,
          e,
          passes-lets ip,
          ap (λ t. cidr_peer t) (literal-host_text ip),
          literal-peers ips,
        )
    | inr e ↦ ground (arith, e, passes-lets ip, literal-peers ips)
  ]

  hosts-of :
      (cidrs : List Cidr)
      → All (λ (c : Cidr). c ≡ host_cidr c.ip) cidrs
      → cidrs ≡ map host_cidr (map (λ (c : Cidr). c.ip) cidrs)
  hosts-of [] h = refl
  hosts-of (c ∷ rest) h = cc (h.0, hosts-of rest h.1)

  ips-of : (ips : List Ip) → map (λ (c : Cidr). c.ip) (map host_cidr ips) ≡ ips
  unfolding host_cidr
  ips-of [] = refl
  ips-of (ip ∷ ips) = ap (◌∷◌ ip) (ips-of ips)

  host-again : (ip : Ip) → host_cidr ip ≡ host_cidr (host_cidr ip).ip
  unfolding host_cidr
  host-again ip = refl

  Ascending-IsSorted :
      (cidrs : List Cidr)
      → Ascending cidrs
      → IsSorted str_lt (map to16 (map (λ (c : Cidr). c.ip) cidrs))
  Ascending-IsSorted [] h = tt
  Ascending-IsSorted (a ∷ rest) h = (
    All-of_mem _ (map to16 (map (λ (c : Cidr). c.ip) rest)) λ t m.
        let (ip, n, e) = mem-map_elim to16 (map (λ (c : Cidr). c.ip) rest) m in
        let (b, k, f) = mem-map_elim (λ (c : Cidr). c.ip) rest n in
        subst (λ x. str_lt x (to16 a.ip) ≡ false) (ap to16 f ∙ e)
          (All_mem
            (λ (b : Cidr).
              (str_lt (to16 b.ip) (to16 a.ip) ≡ false)
              × (to16 a.ip ≡ to16 b.ip → a.prefix ≤ b.prefix))
            rest h.0 k).0,
    Ascending-IsSorted rest h.1,
  )

  -- After a successful resolution the peers of the FQDN are the answered addresses, as often and in
  -- ascending order of their 16-byte forms, each with /32 if it is an IPv4 address and /128 if not, without
  -- the private ones where the rule, or else the policy, blocks those.
  pub resolved-address_peers :
      (f : FqdnStatus) (fqdn : Text) (ips : List Ip) (retry : ℤ) (now later : ℕ)
      → V6Laws v6
      → All IsAddress ips
      → let r = new_result fqdn (map host_cidr ips) none in
        (sorted : List Ip) × Permᴰ sorted ips
        × IsSorted str_lt (map to16 sorted)
        × (address_peers
              (net_text v6)
              global_block
              rule_block
              (update
                (cidr_string (net_text v6))
                f
                r.cidrs
                r.status
                r.message
                retry
                now
                later).0.addresses
            ≡ map
                (λ ip. cidr_peer (literal_text v6 ip))
                (select (stays global_block rule_block) sorted))
  unfolding update update_addresses write_reason reason_eq
  resolved-address_peers f fqdn ips retry now later laws h =
      let r = new_result fqdn (map host_cidr ips) none in
      let (same, ascending) = new_result-cidrs fqdn (map host_cidr ips) none in
      let sorted = map (λ (c : Cidr). c.ip) r.cidrs in
      let perm : Permᴰ sorted ips =
        subst (Permᴰ sorted) (ips-of ips) (map-perm (λ (c : Cidr). c.ip) same) in
      let hosts : r.cidrs ≡ map host_cidr sorted = hosts-of r.cidrs (
        All-of_mem (λ (c : Cidr). c ≡ host_cidr c.ip) r.cidrs
          λ c m.
            let (ip, n, e) = mem-map_elim host_cidr ips (mem-perm same m) in
            subst (λ (x : Cidr). x ≡ host_cidr x.ip) e (host-again ip)) in
      let addresses =
        All-of_mem IsAddress sorted λ ip m. All_mem IsAddress ips h (mem-perm perm m) in
      let ok : r.status ≡ success = unfold new_result in unfold resolution_reason in refl in
      let first : address_peers (net_text v6) global_block rule_block (map entry r.cidrs)
          ≡ map (λ ip. cidr_peer (literal_text v6 ip))
              (select (stays global_block rule_block) sorted) =
        ap (λ l. address_peers (net_text v6) global_block rule_block (map entry l)) hosts
        ∙ (entries-address_peers sorted laws addresses ∙ literal-peers sorted) in
      (sorted, perm, Ascending-IsSorted r.cidrs ascending, rw ok first)
