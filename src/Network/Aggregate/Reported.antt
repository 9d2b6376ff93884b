-- ===== src/Network/Aggregate/Reported.antt =====
-- What the aggregated message reports.
use fqdn_egress_operator.Base.{
  ℕ, suc, Text, bytes, str_eq, true, List, [], ◌∷◌, ◌++◌, some, ◌≡◌, any, if◌then◌else◌,
}
use fqdn_egress_operator.Api.Reason.{
  ResolutionReason, error, host_not_found, invalid_format, timeout, temporary_error, success,
  reason_eq,
}
use fqdn_egress_operator.Network.Errors.{GoError, resolution_message}
use fqdn_egress_operator.Network.Result.{Result}

-- The ways in which a lookup fails, the worst first
abbrev pub by_severity : List ResolutionReason
by_severity = error ∷ host_not_found ∷ invalid_format ∷ timeout ∷ temporary_error ∷ []

-- The place of a reason in a list, from 0 on; the length where it is not there
abbrev pub place : ResolutionReason → List ResolutionReason → ℕ
place r [] = 0
place r (s ∷ rest) = if reason_eq r s then 0 else suc (place r rest)

abbrev pub Known : ResolutionReason → Type 0
Known r = any (reason_eq r) (success ∷ by_severity) ≡ true

-- The text for an error: what resolutionMessage says, and the error's own text where that is another
abbrev pub sample_text : GoError → Text
sample_text e =
    if str_eq (resolution_message (some e)) e.text
    then resolution_message (some e)
    else resolution_message (some e) ++ (bytes ": " ++ e.text)
