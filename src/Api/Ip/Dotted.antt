-- ===== src/Api/Ip/Dotted.antt =====
-- The textual forms of package net: IP.String, netip.ParseAddr and net.ParseCIDR. The forms of IPv6
-- addresses are the record V6Text.
use fqdn_egress_operator.Base.{
  ℕ, suc, ◌+◌, ◌*◌, ◌-◌, Text, bytes, Bool, ◌&&◌, ◌||◌, List, [], ◌∷◌, ◌++◌, map, Option, none,
  some, length, null, ltb, leb, ◌==◌, if◌then◌else◌, join, ◌≡◌, refl,
}
use fqdn_egress_operator.Base.Decimal.{itoa}
use fqdn_egress_operator.Api.Ip.{Ip, to4, to16}
use fqdn_egress_operator.Api.Types.{Cidr}

-- The text of what is no IPv4 address, and the parser of what has a colon first, zones refused
pub record V6Text : Type 0 where
  pub print : Ip → Text
  pub parse : Text → Option Ip

-- Dotted decimal
unfoldable pub dotted : Ip → Text
dotted ip = join (map itoa ip) (bytes ".")

-- IP.String
unfoldable pub ip_string : V6Text → Ip → Text
unfolding dotted
ip_string v6 ip = elim (to4 ip) [ some v4 ↦ dotted v4 | none ↦ v6.print ip ]

abbrev pub is_digit : ℕ → Bool
is_digit c = leb b'0' c && leb c b'9'

-- The loop of netip's parser of IPv4: the fields so far, and the value and the number of digits of the one
-- that is read. A field has no leading zero and is at most 255; there are four.
unfoldable pub parse_fields : List ℕ → ℕ → ℕ → Text → Option Ip
parse_fields fields value digits [] =
    if length fields == 3 then some (fields ++ (value ∷ [])) else none
parse_fields fields value digits (c ∷ s) =
    let next : ℕ = value * 10 + (c - b'0') in
    let within = parse_fields fields next (suc digits) s in
    let after = parse_fields (fields ++ (value ∷ [])) 0 0 s in
    if is_digit c
    then if (digits == 1 && value == 0) || ltb 255 next then none else within
    else if c == b'.'
    then if digits == 0 || (null s || length fields == 3) then none else after
    else none

-- The first of the characters that tell the families apart
unfoldable pub first_mark : Text → Option ℕ
first_mark [] = none
first_mark (c ∷ s) =
    let rest = first_mark s in if c == b'.' || (c == b':' || c == b'%') then some c else rest

-- netip.ParseAddr: 4 bytes or 16
unfoldable pub parse_addr : V6Text → Text → Option Ip
unfolding first_mark parse_fields
parse_addr v6 s = elim (first_mark s) [
  | none ↦ none
  | some c ↦ if c == b'.' then parse_fields [] 0 0 s else if c == b':' then v6.parse s else none
]

-- strings.Cut
unfoldable pub cut : ℕ → Text → Option (Text × Text)
cut sep [] = none
cut sep (c ∷ s) =
    let rest = cut sep s in
    if c == sep
    then some ([], s)
    else elim rest [ none ↦ none | some (before, after) ↦ some (c ∷ before, after) ]

-- The loop of dtoi, which has to read the whole text; 0xFFFFFF is its `big`
unfoldable pub dtoi_from : ℕ → Text → Option ℕ
dtoi_from n [] = some n
dtoi_from n (c ∷ s) =
    let next : ℕ = n * 10 + (c - b'0') in
    let rest = dtoi_from next s in if is_digit c && ltb next 16777215 then rest else none

unfoldable pub dtoi : Text → Option ℕ
unfolding dtoi_from
dtoi s = if null s then none else dtoi_from 0 s

-- The address and the length of the mask, which is at most the number of the address's bits
unfoldable pub with_mask : Option Ip → Option ℕ → Option Cidr
with_mask none n = none
with_mask (some ip) none = none
with_mask (some ip) (some n) =
    if leb n (8 * length ip) then some (record { ip = to16 ip; prefix = n }) else none

-- net.ParseCIDR: the address in 16 bytes, and the size of the mask
unfoldable pub parse_cidr : V6Text → Text → Option Cidr
unfolding cut parse_addr dtoi with_mask
parse_cidr v6 s = elim (cut b'/' s) [
  | none ↦ none
  | some (addr, mask) ↦ with_mask (parse_addr v6 addr) (dtoi mask)
]

abbrev no_v6 : V6Text
no_v6 = record { print = λ ip. []; parse = λ s. none }

parse_cidr_good :
    parse_cidr no_v6 (bytes "10.20.0.255/24")
    ≡ some (record { ip = to16 (10 ∷ 20 ∷ 0 ∷ 255 ∷ []); prefix = 24 })
unfolding parse_cidr to16
parse_cidr_good = refl

parse_cidr_leading_zero : parse_cidr no_v6 (bytes "10.020.0.1/24") ≡ none
unfolding parse_cidr
parse_cidr_leading_zero = refl

parse_cidr_long_mask : parse_cidr no_v6 (bytes "10.20.0.1/33") ≡ none
unfolding parse_cidr
parse_cidr_long_mask = refl
