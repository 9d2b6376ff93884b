-- ===== src/Base/Words.antt =====
-- Go's conversions to int32 and int64, which keep the last bits.
use fqdn_egress_operator.Base.{ℕ, ◌-◌, ◌%◌, ◌<◌, ◌≡◌, refl, arith, ltb, if◌then◌else◌}
use fqdn_egress_operator.Base.Int.{ℤ, pos, negsuc}

-- 2 ^ 31, 2 ^ 32, 2 ^ 63 and 2 ^ 64
abbrev pub half_32 : ℕ
half_32 = 2_147_483_648

abbrev pub full_32 : ℕ
full_32 = 4_294_967_296

abbrev pub half_64 : ℕ
half_64 = 9_223_372_036_854_775_808

abbrev pub full_64 : ℕ
full_64 = 18_446_744_073_709_551_616

-- `int32(n)` of an int that is not negative
unfoldable pub to_int32 : ℕ → ℤ
to_int32 n = let r : ℕ = n % full_32 in if ltb r half_32 then pos r else negsuc (full_32 - 1 - r)

-- A product of two int64, from the product in the integers
unfoldable pub wrap_int64 : ℤ → ℤ
wrap_int64 (pos n) =
    let r : ℕ = n % full_64 in if ltb r half_64 then pos r else negsuc (full_64 - 1 - r)
wrap_int64 (negsuc n) =
    let r : ℕ = n % full_64 in if ltb r half_64 then negsuc r else pos (full_64 - 1 - r)

-- The value of an int32
abbrev pub IsInt32 : ℤ → Type 0
IsInt32 (pos n) = n < half_32
IsInt32 (negsuc n) = n < half_32

pub to_int32_exact : (n : ℕ) → n < half_32 → to_int32 n ≡ pos n
unfolding to_int32
to_int32_exact n h = ground arith

pub wrap_int64_pos : (n : ℕ) → n < half_64 → wrap_int64 (pos n) ≡ pos n
unfolding wrap_int64
wrap_int64_pos n h = ground arith

pub wrap_int64_negsuc : (n : ℕ) → n < half_64 → wrap_int64 (negsuc n) ≡ negsuc n
unfolding wrap_int64
wrap_int64_negsuc n h = ground arith

to_int32_wraps : to_int32 2147483648 ≡ negsuc 2147483647
unfolding to_int32
to_int32_wraps = refl
