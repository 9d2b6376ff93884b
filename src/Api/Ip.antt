-- ===== src/Api/Ip.antt =====
-- net.IP of Go's standard library: a slice of bytes, of length 4 or 16 where it is an address.
pub mod Dotted
pub mod Cidrs
pub mod Forms
use fqdn_egress_operator.Base.{
  ℕ, ◌/◌, ◌≡◌, refl, Bool, true, false, ◌&&◌, ◌||◌, List, [], ◌∷◌, ◌++◌, Option, none, some, length,
  ◌==◌, if◌then◌else◌,
}

abbrev pub Ip : Type 0
Ip = List ℕ

-- The first twelve bytes of an IPv4 address in sixteen.
abbrev pub v4_prefix : List ℕ
v4_prefix = 0 ∷ 0 ∷ 0 ∷ 0 ∷ 0 ∷ 0 ∷ 0 ∷ 0 ∷ 0 ∷ 0 ∷ 255 ∷ 255 ∷ []

-- What follows a prefix, if the list begins with it.
unfoldable pub strip_prefix : List ℕ → List ℕ → Option (List ℕ)
strip_prefix [] s = some s
strip_prefix (c ∷ p) [] = none
strip_prefix (c ∷ p) (d ∷ s) = let rest = strip_prefix p s in if c == d then rest else none

-- IP.To4
unfoldable pub to4 : Ip → Option Ip
unfolding strip_prefix
to4 ip =
    if length ip == 4 then some ip else if length ip == 16 then strip_prefix v4_prefix ip else none

-- IP.To16; nil for what is no address
unfoldable pub to16 : Ip → Ip
to16 ip = if length ip == 4 then v4_prefix ++ ip else if length ip == 16 then ip else []

-- `ip[i] == …` of IP.IsPrivate: 10/8, 172.16/12 and 192.168/16
unfoldable pub private_v4 : Ip → Bool
private_v4 (a ∷ b ∷ rest) = a == 10 || ((a == 172 && b / 16 == 1) || (a == 192 && b == 168))
private_v4 _ = false

-- `ip[0]&0xfe == 0xfc`: fc00::/7
unfoldable pub private_v6 : Ip → Bool
private_v6 (a ∷ rest) = a / 2 == 126
private_v6 [] = false

-- IP.IsPrivate
unfoldable pub is_private : Ip → Bool
unfolding to4 private_v4 private_v6
is_private ip = elim (to4 ip) [ some v4 ↦ private_v4 v4 | none ↦ length ip == 16 && private_v6 ip ]

is_private_mapped : is_private (v4_prefix ++ (172 ∷ 31 ∷ 0 ∷ 1 ∷ [])) ≡ true
unfolding is_private
is_private_mapped = refl

is_private_public : is_private (8 ∷ 8 ∷ 8 ∷ 8 ∷ []) ≡ false
unfolding is_private
is_private_public = refl
