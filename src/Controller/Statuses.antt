-- ===== src/Controller/Statuses.antt =====
-- internal/controller/networkpolicy_fqdn_status.go: updateFQDNStatuses, with the events it records.
pub mod Tracked
pub mod Order
use fqdn_egress_operator.Base.{
  ℕ, suc, ◌+◌, ◌*◌, ◌/◌, ◌%◌, Text, bytes, Bool, true, false, List, [], ◌∷◌, ◌++◌, Option, none,
  some, ltb, if◌then◌else◌, ◌==◌,
}
use fqdn_egress_operator.Base.Int.{ℤ, pos, negsuc}
use fqdn_egress_operator.Base.Decimal.{itoa}
use fqdn_egress_operator.Base.Dict.{Dict, get}
use fqdn_egress_operator.Api.Reason.{ResolutionReason, unset, transient, reason_string}
use fqdn_egress_operator.Api.Types.{Cidr, FqdnStatus}
use fqdn_egress_operator.Api.Status.{update}
use fqdn_egress_operator.Api.Translate.{lookup_table}
use fqdn_egress_operator.Network.Result.{Result}

-- An event on the NetworkPolicy: a warning or a normal one
pub record Event : Type 0 where
  pub warning : Bool
  pub reason : Text
  pub message : Text

-- Duration.String for a whole number of seconds
abbrev seconds_string : ℕ → Text
seconds_string n =
    let h : ℕ = n / 3600 in
    let m : ℕ = n / 60 % 60 in
    let s : ℕ = n % 60 in
    if ltb 0 h
    then itoa h ++ (bytes "h" ++ (itoa m ++ (bytes "m" ++ (itoa s ++ bytes "s"))))
    else if ltb 0 m
    then itoa m ++ (bytes "m" ++ (itoa s ++ bytes "s"))
    else itoa s ++ bytes "s"

unfoldable pub duration_string : ℤ → Text
duration_string (pos n) = seconds_string n
duration_string (negsuc n) = bytes "-" ++ seconds_string (suc n)

-- The event for addresses that were taken away
unfoldable pub cleared_event : FqdnStatus → ResolutionReason → ℤ → Event
unfolding duration_string
cleared_event status reason retry =
    if transient reason
    then record {
      warning = true;
      reason = bytes "StaleIPsRemoved";
      message =
          bytes "Removed stale IPs for FQDN "
          ++ (status.fqdn
              ++ (bytes " after "
                  ++ (duration_string retry
                      ++ (bytes " (Status: " ++ (reason_string status.reason ++ bytes ")")))));
    }
    else record {
      warning = true;
      reason = bytes "IPsRevoked";
      message =
          bytes "Immediately removed IPs for FQDN "
          ++ (status.fqdn
              ++ (bytes ": domain not found or no address records exist (Status: "
                  ++ (reason_string status.reason ++ bytes ")")));
    }

-- A copy of the previous status where there is one, else a zero one with the FQDN
abbrev pub or_zero : Text → Option FqdnStatus → FqdnStatus
or_zero fqdn (some existing) = existing
or_zero fqdn none = record {
  fqdn = fqdn;
  failing_since = none;
  last_transition_time = 0;
  reason = unset;
  message = [];
  addresses = [];
}

-- The status that an FQDN starts the round with
unfoldable pub starting_status : Dict FqdnStatus → Text → FqdnStatus
starting_status previous fqdn = or_zero fqdn (get fqdn previous)

-- The two readings of the clock in the n-th call of Update
abbrev pub Clock : Type 0
Clock = ℕ → ℕ × ℕ

-- The loop of updateFQDNStatuses, from its n-th result on
unfoldable pub update_from :
    (Cidr → Text) → Clock → ℤ → Dict FqdnStatus → ℕ → List Result → List FqdnStatus × List Event
unfolding starting_status cleared_event
update_from cidr_string clock retry previous n [] = ([], [])
update_from cidr_string clock retry previous n (result ∷ rest) =
    let (statuses, events) = update_from cidr_string clock retry previous (suc n) rest in
    let (now, later) = clock n in
    let (status, cleared) =
      update cidr_string (starting_status previous result.fqdn) result.cidrs result.status
        result.message retry now later in
    (
      status ∷ statuses,
      if cleared then cleared_event status result.status retry ∷ events else events,
    )

-- updateFQDNStatuses
unfoldable pub update_fqdn_statuses :
    (Cidr → Text) → Clock → ℤ → List FqdnStatus → List Result → List FqdnStatus × List Event
unfolding update_from
update_fqdn_statuses cidr_string clock retry previous results =
    update_from cidr_string clock retry (lookup_table previous) 0 results
