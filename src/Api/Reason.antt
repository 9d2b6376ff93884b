-- ===== src/Api/Reason.antt =====
-- api/v1alpha1/networkpolicy_types.go: the enumerations and their methods.
use fqdn_egress_operator.Base.{ℕ, Text, bytes, Bool, true, false, [], ◌≡◌, arith}

-- NetworkPolicyResolutionReason. `unset` is the empty string that a new status starts from.
pub data ResolutionReason : Type 0 where
  unset success partial_success failure : ResolutionReason
  error host_not_found invalid_format timeout temporary_error : ResolutionReason

-- The text of the constant.
unfoldable pub reason_string : ResolutionReason → Text
reason_string unset = []
reason_string success = bytes "Success"
reason_string partial_success = bytes "PartialSuccess"
reason_string failure = bytes "Failure"
reason_string error = bytes "Error"
reason_string host_not_found = bytes "HostNotFound"
reason_string invalid_format = bytes "InvalidFormat"
reason_string timeout = bytes "Timeout"
reason_string temporary_error = bytes "TemporaryError"

-- `a == b` on two reasons.
unfoldable pub reason_eq : ResolutionReason → ResolutionReason → Bool
reason_eq unset unset = true
reason_eq success success = true
reason_eq partial_success partial_success = true
reason_eq failure failure = true
reason_eq error error = true
reason_eq host_not_found host_not_found = true
reason_eq invalid_format invalid_format = true
reason_eq timeout timeout = true
reason_eq temporary_error temporary_error = true
reason_eq _ _ = false

-- NetworkPolicyResolutionReason.Priority
unfoldable pub priority : ResolutionReason → ℕ
priority failure = 100
priority partial_success = 90
priority error = 10
priority host_not_found = 8
priority invalid_format = 6
priority timeout = 4
priority temporary_error = 2
priority _ = 0

-- NetworkPolicyResolutionReason.Transient
unfoldable pub transient : ResolutionReason → Bool
transient timeout = true
transient temporary_error = true
transient error = true
transient _ = false

pub data NetworkType : Type 0 where
  ipv4 ipv6 all : NetworkType
  unknown : Text → NetworkType

-- NetworkType.ResolverString
unfoldable pub resolver_string : NetworkType → Text
resolver_string ipv4 = bytes "ip4"
resolver_string ipv6 = bytes "ip6"
resolver_string all = bytes "ip"
resolver_string (unknown s) = []

pub reason_eq_eq : (a b : ResolutionReason) → reason_eq a b ≡ true → a ≡ b
unfolding reason_eq
reason_eq_eq a b h = ground arith

pub reason_eq_refl : (a : ResolutionReason) → reason_eq a a ≡ true
unfolding reason_eq
reason_eq_refl a = ground arith

-- The two tests on strings agree: distinct constants have distinct texts.
pub reason_string-injective : (a b : ResolutionReason) → reason_string a ≡ reason_string b → a ≡ b
unfolding reason_string
reason_string-injective a b h = ground arith
