-- ===== src/Examples/Texts.antt =====
-- Addresses and their texts at concrete inputs.
use mathlib.Core.List.{Permᴰ}
use fqdn_egress_operator.Base.{
  ℕ, ◌+◌, ◌-◌, Text, true, [], ◌∷◌, map, any, List, Option, none, some, ◌≡◌, refl, arith, inl,
  str_lt, select,
}
use fqdn_egress_operator.Base.Int.{pos}
use fqdn_egress_operator.Base.Split.{Free}
use fqdn_egress_operator.Api.Ip.{Ip, to4, to16}
use fqdn_egress_operator.Api.Ip.Dotted.{V6Text, first_mark}
use fqdn_egress_operator.Api.Ip.Forms.{IsAddress, V6Laws}
use fqdn_egress_operator.Api.Status.{update}
use fqdn_egress_operator.Api.Translate.{net_text, new_cidr, cidr_string, address_peers}
use fqdn_egress_operator.Api.Translate.RoundTrip.{new_cidr-cidr_string}
use fqdn_egress_operator.Base.Sort.{IsSorted}
use fqdn_egress_operator.Network.Result.{new_result}
use fqdn_egress_operator.Network.Lookup.{host_cidr}
use fqdn_egress_operator.Network.Lookup.Allowed.{literal_text, stays, resolved-address_peers}
use fqdn_egress_operator.Utils.Dedupe.{cidr_peer}
use fqdn_egress_operator.Examples.Fixtures.{dns_status, public_cidr, private_cidr, dns}

-- A text for what is no IPv4 address: a colon, and each byte raised by 48.
abbrev raised : Ip → Text
raised ip = map (λ n. n + 48) ip

abbrev lowered : Text → Option Ip
lowered [] = none
lowered (c ∷ s) = some (map (λ n. n - 48) s)

abbrev v6 : V6Text
v6 = record { print = λ ip. b':' ∷ raised ip; parse = lowered }

lowered-raised : (ip : Ip) → map (λ n. n - 48) (raised ip) ≡ ip
lowered-raised [] = refl
lowered-raised (n ∷ ip) = cc (lowered-raised ip, back n)
  where
    back : (n : ℕ) → n + 48 - 48 ≡ n
    back n = omega arith

raised-Free : (ip : Ip) → Free b'/' (raised ip)
unfolding any
raised-Free [] = refl
raised-Free (n ∷ ip) = ground (arith, raised-Free ip)

v6-V6Laws : V6Laws v6
v6-V6Laws = record {
  marked = λ ip h e. unfold first_mark in refl;
  slashless = λ ip h e. unfold any in raised-Free ip;
  parsed = λ ip h e. cc (lowered-raised ip);
}

new_cidr-cidr_string_example :
    new_cidr (net_text v6) (cidr_string (net_text v6) private_cidr)
    ≡ some (record { ip = to16 private_cidr.ip; prefix = 32 })
new_cidr-cidr_string_example =
    new_cidr-cidr_string v6 private_cidr v6-V6Laws private-IsAddress (unfold to4 in omega arith)
  where
    private-IsAddress : IsAddress private_cidr.ip
    private-IsAddress = record {
      size = inl refl;
      bytes = (omega arith, (omega arith, (omega arith, (omega arith, tt))));
    }

resolved-address_peers_example :
    let r = new_result dns (map host_cidr (public_cidr.ip ∷ private_cidr.ip ∷ [])) none in
    (sorted : List Ip) × Permᴰ sorted (public_cidr.ip ∷ private_cidr.ip ∷ [])
    × IsSorted str_lt (map to16 sorted)
    × (address_peers
          (net_text v6)
          true
          none
          (update
            (cidr_string (net_text v6))
            dns_status
            r.cidrs
            r.status
            r.message
            (pos 60)
            8
            9).0.addresses
        ≡ map (λ ip. cidr_peer (literal_text v6 ip)) (select (stays true none) sorted))
resolved-address_peers_example =
    resolved-address_peers v6 true none dns_status dns (public_cidr.ip ∷ private_cidr.ip ∷ [])
      (pos 60) 8 9 v6-V6Laws
      (
        record {
          size = inl refl;
          bytes = (omega arith, (omega arith, (omega arith, (omega arith, tt))));
        },
        (
          record {
            size = inl refl;
            bytes = (omega arith, (omega arith, (omega arith, (omega arith, tt))));
          },
          tt,
        ),
      )
