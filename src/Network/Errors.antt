-- ===== src/Network/Errors.antt =====
-- pkg/network/resolver.go: what an error of the resolution is reported as.
-- A Go error is its text and the chain that errors.As and errors.Is walk, outermost first.
use fqdn_egress_operator.Base.{
  Text, bytes, Bool, true, false, List, [], ◌∷◌, Option, none, some, ◌≡◌, ◌≢◌, arith, any,
  if◌then◌else◌, Option-cases, inl, inr, All,
}
use fqdn_egress_operator.Api.Reason.{
  ResolutionReason, success, error, host_not_found, timeout, temporary_error,
}

-- The fields of net.DNSError that the code reads
pub record DnsError : Type 0 where
  pub is_timeout : Bool
  pub is_not_found : Bool
  pub is_temporary : Bool

pub data Layer : Type 0 where
  lookup_error : ResolutionReason → Text → Layer
  deadline_exceeded : Layer
  canceled : Layer
  dns_error : DnsError → Layer
  other : Layer

pub record GoError : Type 0 where
  pub text : Text
  pub chain : List Layer

-- errors.As(err, &lookupErr): the first lookupError of the chain
unfoldable pub as_lookup_error : List Layer → Option (ResolutionReason × Text)
as_lookup_error [] = none
as_lookup_error (lookup_error r m ∷ rest) = some (r, m)
as_lookup_error (l ∷ rest) = as_lookup_error rest

-- errors.As(err, &dnsErr)
unfoldable pub as_dns_error : List Layer → Option DnsError
as_dns_error [] = none
as_dns_error (dns_error d ∷ rest) = some d
as_dns_error (l ∷ rest) = as_dns_error rest

abbrev is_deadline : Layer → Bool
is_deadline deadline_exceeded = true
is_deadline _ = false

abbrev is_canceled : Layer → Bool
is_canceled canceled = true
is_canceled _ = false

-- The chain of tests of resolutionReason below the one on lookupError
unfoldable pub foreign_reason : List Layer → ResolutionReason
foreign_reason chain =
    if any is_deadline chain
    then timeout
    else if any is_canceled chain
    then error
    else elim (as_dns_error chain) [
      | none ↦ error
      | some d ↦
          if d.is_timeout
          then timeout
          else if d.is_not_found
          then host_not_found
          else if d.is_temporary
          then temporary_error
          else error
    ]

-- resolutionReason
unfoldable pub resolution_reason : Option GoError → ResolutionReason
unfolding foreign_reason
resolution_reason none = success
resolution_reason (some e) = elim (as_lookup_error e.chain) [
  | some (r, m) ↦ r
  | none ↦ foreign_reason e.chain
]

-- The chain of tests of resolutionMessage below the one on lookupError
unfoldable pub foreign_message : GoError → Text
foreign_message e =
    if any is_deadline e.chain
    then bytes "Timeout waiting for resolution task to complete"
    else if any is_canceled e.chain
    then bytes "Resolution task was canceled by the system"
    else elim (as_dns_error e.chain) [
      | none ↦ e.text
      | some d ↦
          if d.is_timeout
          then bytes "Timeout waiting for DNS server response"
          else if d.is_not_found
          then bytes "Domain not found or no address records exist"
          else if d.is_temporary
          then bytes "Temporary failure in name resolution"
          else e.text
    ]

-- resolutionMessage
unfoldable pub resolution_message : Option GoError → Text
unfolding foreign_message
resolution_message none = bytes "Resolved successfully"
resolution_message (some e) = elim (as_lookup_error e.chain) [
  | some (r, m) ↦ m
  | none ↦ foreign_message e
]

-- `&lookupError{Reason: r, Message: m}`
abbrev pub new_lookup_error : ResolutionReason → Text → GoError
new_lookup_error r m = record { text = m; chain = lookup_error r m ∷ [] }

-- A lookupError that claims no success: the code makes them with Error and InvalidFormat.
abbrev pub HonestLayer : Layer → Type 0
HonestLayer (lookup_error r m) = r ≢ success
HonestLayer _ = Unit

abbrev pub IsHonest : GoError → Type 0
IsHonest e = All HonestLayer e.chain

foreign_reason-ne-success : (chain : List Layer) → foreign_reason chain ≢ success
unfolding foreign_reason
foreign_reason-ne-success chain h = ground arith

as_lookup_error-honest :
    (chain : List Layer) (r : ResolutionReason) (m : Text)
    → All HonestLayer chain
    → as_lookup_error chain ≡ some (r, m)
    → r ≢ success
unfolding as_lookup_error
as_lookup_error-honest [] r m h e = absurd (cc)
as_lookup_error-honest (lookup_error q n ∷ rest) r m h e = λ s. h.0 (ground arith)
as_lookup_error-honest (deadline_exceeded ∷ rest) r m h e = as_lookup_error-honest rest r m h.1 e
as_lookup_error-honest (canceled ∷ rest) r m h e = as_lookup_error-honest rest r m h.1 e
as_lookup_error-honest (dns_error d ∷ rest) r m h e = as_lookup_error-honest rest r m h.1 e
as_lookup_error-honest (other ∷ rest) r m h e = as_lookup_error-honest rest r m h.1 e

-- An error is never reported as success, unless a lookupError inside it says so itself.
pub resolution_reason-ne-success : (e : GoError) → IsHonest e → resolution_reason (some e) ≢ success
unfolding resolution_reason
resolution_reason-ne-success e h s = elim (Option-cases (as_lookup_error e.chain)) [
  | inl n ↦ foreign_reason-ne-success e.chain (ground (arith, n))
  | inr ((r, m), n) ↦ as_lookup_error-honest e.chain r m h n (ground (arith, n))
]
