-- ===== src/Network/Aggregate.antt =====
-- pkg/network/resolver.go: the status and the message of a list of results.
pub mod Worst
pub mod Order
pub mod Reported
use fqdn_egress_operator.Base.{
  ℕ, suc, ◌+◌, Text, bytes, str_eq, Bool, true, false, List, [], ◌∷◌, ◌++◌, Option, none, some, ltb,
  if◌then◌else◌, ◌==◌, length,
}
use fqdn_egress_operator.Base.Decimal.{itoa}
use fqdn_egress_operator.Api.Reason.{
  ResolutionReason, success, failure, partial_success, reason_eq, priority,
}
use fqdn_egress_operator.Network.Errors.{GoError, resolution_message}
use fqdn_egress_operator.Network.Result.{Result}

-- The loop that counts the successes
unfoldable pub success_count : List Result → ℕ
success_count [] = 0
success_count (r ∷ rest) = (if reason_eq r.status success then 1 else 0) + success_count rest

-- DNSResolverResultList.AggregatedResolutionStatus
unfoldable pub aggregated_status : List Result → ResolutionReason
unfolding success_count
aggregated_status rl =
    if length rl == 0
    then success
    else if success_count rl == length rl
    then success
    else if success_count rl == 0
    then failure
    else partial_success

-- `worstResult == nil || result.Status.Priority() > worstResult.Status.Priority()`
unfoldable pub worse : Result → Option Result → Bool
worse r none = true
worse r (some w) = ltb (priority w.status) (priority r.status)

-- The loop that keeps the worst result
unfoldable pub worst_from : List Result → Option Result → Option Result
unfolding worse
worst_from [] w = w
worst_from (r ∷ rest) w =
    worst_from rest (if reason_eq r.status success then w else if worse r w then some r else w)

-- sampleMessage; the call of Error() on a nil error is a panic, `none`
unfoldable pub sample_message : Option Result → Option Text
sample_message none = some (bytes "Unknown error")
sample_message (some w) = elim w.error [
  | none ↦ none
  | some e ↦
      let message = resolution_message (some e) in
      if str_eq message e.text then some message else some (message ++ (bytes ": " ++ e.text))
]

-- The text around the sample
abbrev pub failure_text : ℕ → ℕ → Text → Text
failure_text successes total sample =
    if successes == 0
    then bytes "Failed to resolve any of the "
      ++ (itoa total ++ (bytes " FQDNs. " ++ (sample ++ bytes ".")))
    else bytes "Partially resolved ("
      ++ (itoa successes ++ (b'/' ∷ (itoa total ++ (bytes " FQDNs). " ++ (sample ++ bytes ".")))))

-- DNSResolverResultList.AggregatedResolutionMessage; `none` is a panic
unfoldable pub aggregated_message : List Result → Option Text
unfolding success_count worst_from sample_message
aggregated_message rl =
    if length rl == 0
    then some (bytes "Network policy has no FQDNs defined.")
    else if success_count rl == length rl
    then some (bytes "All " ++ (itoa (length rl) ++ bytes " FQDNs resolved successfully."))
    else elim (sample_message (worst_from rl none)) [
      | none ↦ none
      | some sample ↦ some (failure_text (success_count rl) (length rl) sample)
    ]
