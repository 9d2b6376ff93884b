-- ===== src/Examples/Names.antt =====
-- Names, results and the concurrent resolution at concrete inputs.
use mathlib.Core.List.{Permᴰ}
use fqdn_egress_operator.Base.{
  str_eq, Text, ℕ, ◌<◌, bytes, true, false, List, [], ◌∷◌, none, some, ◌⊎◌, inl, inr, if◌then◌else◌,
  ◌≡◌, ◌↔◌, refl, any, All, length, arith,
}
use fqdn_egress_operator.Api.Ip.{Ip}
use fqdn_egress_operator.Api.Reason.{
  success, failure, partial_success, invalid_format, host_not_found, all, resolver_string,
}
use fqdn_egress_operator.Api.Types.{Cidr}
use fqdn_egress_operator.Api.Fqdn.{valid}
use fqdn_egress_operator.Api.Fqdn.Labels.{IsFqdn, valid_iff}
use fqdn_egress_operator.Network.Errors.{GoError, new_lookup_error, resolution_reason}
use fqdn_egress_operator.Network.Result.{Result, new_result}
use fqdn_egress_operator.Network.Result.Order.{Ascending, new_result-cidrs}
use fqdn_egress_operator.Network.Aggregate.{aggregated_status, aggregated_message}
use fqdn_egress_operator.Network.Aggregate.Worst.{
  succeeded, failed, aggregated_status_lem, aggregated_message_total,
}
use fqdn_egress_operator.Network.Lookup.{Resolver, lookup_ip, IsHost, lookup_ip_lem}
use fqdn_egress_operator.Network.Resolve.{Pool, start, Step, acquire, Run, here, next, IsFinal}
use fqdn_egress_operator.Network.Resolve.Runs.{
  names, Invariant, Run-Invariant, work, IsCancel, Step-work, resolve_completes,
}
use fqdn_egress_operator.Base.Int.{pos}
use fqdn_egress_operator.Base.Dict.{Dict, get}
use fqdn_egress_operator.Utils.Operation.{map_contains}
use fqdn_egress_operator.Utils.Operation.Contains.{map_contains_iff}
use fqdn_egress_operator.Cmd.{max_concurrent_resolves, configured_resolve_completes}
use fqdn_egress_operator.Examples.Fixtures.{in_order, public_cidr, private_cidr, dns}

valid_iff_example : (valid dns ≡ true) ↔ IsFqdn dns
valid_iff_example = valid_iff dns

abbrev no_host : GoError
no_host = new_lookup_error host_not_found (bytes "no such host")

new_result-cidrs_example :
    Permᴰ
      (new_result dns (private_cidr ∷ public_cidr ∷ []) none).cidrs
      (private_cidr ∷ public_cidr ∷ [])
    × Ascending (new_result dns (private_cidr ∷ public_cidr ∷ []) none).cidrs
new_result-cidrs_example = new_result-cidrs dns (private_cidr ∷ public_cidr ∷ []) none

-- One result that is good and one that is not
abbrev mixed : List Result
mixed = new_result dns (public_cidr ∷ []) none ∷ new_result (bytes "x.y") [] (some no_host) ∷ []

aggregated_status_lem_example : aggregated_status mixed ≡ (
    if any failed mixed
    then (if any succeeded mixed then partial_success else failure)
    else success)
aggregated_status_lem_example = aggregated_status_lem mixed

aggregated_message_total_example : (m : List ℕ) × (aggregated_message mixed ≡ some m)
aggregated_message_total_example =
    aggregated_message_total mixed (unfold new_result in (refl, (refl, tt)))

abbrev answer : Resolver
answer network host = inl ((8 ∷ 8 ∷ 8 ∷ 8 ∷ []) ∷ [])

lookup_ip_lem_example :
    (valid dns ≡ false
      → (err : GoError) × (lookup_ip answer all dns ≡ inr err)
        × (resolution_reason (some err) ≡ invalid_format))
    × ((cidrs : List Cidr)
        → lookup_ip answer all dns ≡ inl cidrs
        → (valid dns ≡ true)
          × ((ips : List Ip) × (answer (resolver_string all) dns ≡ inl ips)
              × (length cidrs ≡ length ips)
              × All IsHost cidrs))
lookup_ip_lem_example = lookup_ip_lem answer all dns

-- The pool after one goroutine has its slot
abbrev one_running : Pool
one_running = record { waiting = bytes "x.y" ∷ []; running = dns ∷ []; sent = []; done = false }

abbrev first_step : Step 1 all (start (dns ∷ bytes "x.y" ∷ []) false) one_running
first_step =
    acquire (start (dns ∷ bytes "x.y" ∷ []) false) [] (bytes "x.y" ∷ []) dns refl (omega arith)

Run-Invariant_example : Invariant 1 (dns ∷ bytes "x.y" ∷ []) one_running
Run-Invariant_example =
    Run-Invariant 1 all (dns ∷ bytes "x.y" ∷ []) false one_running (next here first_step)

Step-work_example :
    (work one_running < work (start (dns ∷ bytes "x.y" ∷ []) false))
    ⊎ (IsCancel first_step × (work one_running ≡ work (start (dns ∷ bytes "x.y" ∷ []) false)))
Step-work_example = Step-work 1 all (start (dns ∷ bytes "x.y" ∷ []) false) one_running first_step

resolve_completes_example :
    ((r : Pool) × Run 1 all one_running r × IsFinal r)
    × (IsFinal one_running → Permᴰ (names one_running.sent) (dns ∷ bytes "x.y" ∷ []))
resolve_completes_example =
    resolve_completes 1 all (dns ∷ bytes "x.y" ∷ []) false one_running (omega arith)
      (next here first_step)

configured_resolve_completes_example :
    ((r : Pool) × Run (max_concurrent_resolves (pos 0) 4) all (start (dns ∷ []) false) r
      × IsFinal r)
    × (IsFinal (start (dns ∷ []) false) → Permᴰ (names []) (dns ∷ []))
configured_resolve_completes_example =
    configured_resolve_completes (pos 0) 4 all (dns ∷ []) false (start (dns ∷ []) false) here

-- A map and one entry of it
abbrev labels : Dict Text
labels = (bytes "app", bytes "web") ∷ (bytes "env", bytes "prod") ∷ []

abbrev app_label : Dict Text
app_label = (bytes "app", bytes "web") ∷ []

map_contains_iff_example :
    (map_contains in_order labels app_label ≡ true)
    ↔ ((k v : Text) → get k app_label ≡ some v → get k labels ≡ some v)
map_contains_iff_example =
    map_contains_iff in_order labels app_label (unfold get in unfold str_eq in (refl, (refl, tt)))
      (unfold get in (refl, tt))
