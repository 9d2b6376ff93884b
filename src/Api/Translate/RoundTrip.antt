-- ===== src/Api/Translate/RoundTrip.antt =====
-- CIDR.String and NewCIDR: what is printed is read again.
use fqdn_egress_operator.Base.{
  ℕ, ◌*◌, ◌<◌, ◌≤◌, Text, Bool, not, ◌&&◌, ◌∷◌, ◌++◌, Option, some, length, if◌then◌else◌, ◌≡◌, ap,
  ◌∙◌, arith, is_some,
}
use fqdn_egress_operator.Base.Decimal.{itoa}
use fqdn_egress_operator.Api.Ip.{Ip, to4, to16, is_private}
use fqdn_egress_operator.Api.Ip.Dotted.{
  V6Text, parse_cidr, cut, dtoi, with_mask, ip_string, parse_addr,
}
use fqdn_egress_operator.Api.Ip.Cidrs.{cut-Free, dtoi-itoa}
use fqdn_egress_operator.Api.Ip.Forms.{IsAddress, V6Laws, IsAddress-Read, is_private-to16}
use fqdn_egress_operator.Api.Types.{Cidr}
use fqdn_egress_operator.Api.Translate.{net_text, new_cidr, cidr_string, is_allowed, blocks_private}

-- The number of bits of an address's family.
abbrev pub bits : Ip → ℕ
bits ip = if is_some (to4 ip) then 32 else 128

parse_cidr_parts :
    (v6 : V6Text) (s addr mask : Text) (ip : Ip) (n : ℕ)
    → cut b'/' s ≡ some (addr, mask)
    → parse_addr v6 addr ≡ some ip
    → dtoi mask ≡ some n
    → n ≤ 8 * length ip
    → parse_cidr v6 s ≡ some (record { ip = to16 ip; prefix = n })
unfolding parse_cidr with_mask
parse_cidr_parts v6 s addr mask ip n c a d fits = ground (arith, c, a, d, fits)

-- CIDR.String is read by NewCIDR as the same CIDR, the address in its 16-byte form, for IPv4 in 4 or 16
-- bytes and for IPv6, and every prefix that the family has.
pub new_cidr-cidr_string :
    (v6 : V6Text) (c : Cidr)
    → V6Laws v6
    → IsAddress c.ip
    → c.prefix ≤ bits c.ip
    → new_cidr (net_text v6) (cidr_string (net_text v6) c)
      ≡ some (record { ip = to16 c.ip; prefix = c.prefix })
unfolding cidr_string
new_cidr-cidr_string v6 c laws h fits =
    let r = IsAddress-Read v6 c.ip laws h in
    let small : c.prefix < 1000 = ground arith in
    let room : c.prefix ≤ 8 * length r.short = ground (arith, r.bits, fits) in
    parse_cidr_parts v6 (ip_string v6 c.ip ++ (b'/' ∷ itoa c.prefix)) (ip_string v6 c.ip)
      (itoa c.prefix) r.short c.prefix
      (cut-Free b'/' (ip_string v6 c.ip) (itoa c.prefix) r.slashless) r.read
      (dtoi-itoa c.prefix small) room
    ∙ ap (λ (ip : Ip). some (record { ip = ip; prefix = c.prefix })) r.wide

-- An address that was printed with its prefix is let through unless it is private and private addresses
-- are blocked, by the rule where it says so and else by the policy.
pub is_allowed-cidr_string :
    (v6 : V6Text) (c : Cidr) (global_block : Bool) (rule_block : Option Bool)
    → V6Laws v6
    → IsAddress c.ip
    → c.prefix ≤ bits c.ip
    → is_allowed (net_text v6) (cidr_string (net_text v6) c) global_block rule_block
      ≡ not (is_private c.ip && blocks_private global_block rule_block)
unfolding is_allowed
is_allowed-cidr_string v6 c global_block rule_block laws h fits =
    ground (arith, new_cidr-cidr_string v6 c laws h fits, is_private-to16 c.ip h)
