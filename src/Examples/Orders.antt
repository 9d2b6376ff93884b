-- ===== src/Examples/Orders.antt =====
-- Two orders of the same results.
use fqdn_egress_operator.Base.Int.{ltb_ℤ}
use fqdn_egress_operator.Base.Dict.{get}
use fqdn_egress_operator.Controller.Retention.{retention_period}
use fqdn_egress_operator.Controller.Reconcile.NextPolicy.{then_env}
use fqdn_egress_operator.Examples.Policies.{policy-PortsAgree, backwards}
use fqdn_egress_operator.Base.{
  inl, Text, bytes, List, [], ◌∷◌, some, none, ◌≡◌, ◌≢◌, refl, arith, str_eq_refl, ◌≤◌, true,
}
use fqdn_egress_operator.Api.Reason.{timeout, all, reason_eq, priority}
use fqdn_egress_operator.Network.Errors.{
  new_lookup_error, resolution_reason, resolution_message, as_lookup_error,
}
use fqdn_egress_operator.Network.Result.{Result, new_result}
use fqdn_egress_operator.Network.Aggregate.{sample_message, aggregated_message, aggregated_status}
use fqdn_egress_operator.Network.Aggregate.Order.{Says, aggregated_message_order}
use fqdn_egress_operator.Network.Aggregate.Worst.{failed}
use fqdn_egress_operator.Network.Resolve.{Pool, start, canceled_result, give_up, Run, here, next}
use fqdn_egress_operator.Controller.Report.{reported}
use fqdn_egress_operator.Controller.Reconcile.{wanted_policy, resolved_policy}
use fqdn_egress_operator.Controller.Reconcile.Order.{round_of, final}
use fqdn_egress_operator.Controller.Reconcile.Schedules.{schedules_agree}
use fqdn_egress_operator.Examples.Fixtures.{dns, policy, env_with}

abbrev failing : Text → Text → Result
failing fqdn text = new_result fqdn [] (some (new_lookup_error timeout text))

has_failed : (f t : Text) → failed (failing f t) ≡ true
unfolding new_result resolution_reason as_lookup_error reason_eq
has_failed f t = refl

not_worse : (f g s t : Text) → priority (failing g t).status ≤ priority (failing f s).status
unfolding new_result resolution_reason as_lookup_error priority
not_worse f g s t = omega arith

says : (f t : Text) → Says (failing f t) t
unfolding new_result resolution_message as_lookup_error sample_message
says f t = rw (str_eq_refl t) refl

abbrev other_name : Text
other_name = bytes "x.y"

abbrev slow : Result
slow = failing dns (bytes "no answer")

abbrev late : Result
late = failing (bytes "x.y") (bytes "no route")

aggregated_message_order_example :
    (aggregated_message (slow ∷ late ∷ []) ≢ aggregated_message (late ∷ slow ∷ []))
    × (aggregated_status (slow ∷ late ∷ []) ≡ aggregated_status (late ∷ slow ∷ []))
aggregated_message_order_example =
    aggregated_message_order slow late [] (bytes "no answer") (bytes "no route") (has_failed dns _)
      (has_failed other_name _) (not_worse dns other_name _ _, tt)
      (not_worse other_name dns _ _, tt) (says dns _) (says other_name _) (λ e. cc e)

-- Both goroutines give up, in one order and in the other.
abbrev names_asked : List Text
names_asked = dns ∷ other_name ∷ []

abbrev end_with : List Result → Pool
end_with results = record { waiting = []; running = []; sent = results; done = true }

abbrev first_gone : Pool
first_gone = record {
  waiting = other_name ∷ [];
  running = [];
  sent = canceled_result dns ∷ [];
  done = true;
}

abbrev second_gone : Pool
second_gone = record {
  waiting = dns ∷ [];
  running = [];
  sent = canceled_result other_name ∷ [];
  done = true;
}

in_turn :
    Run 1 all
      (start names_asked true)
      (end_with (canceled_result dns ∷ canceled_result other_name ∷ []))
in_turn =
    next (next here (give_up (start names_asked true) [] (other_name ∷ []) dns refl refl))
      (give_up first_gone [] [] other_name refl refl)

out_of_turn :
    Run 1 all
      (start names_asked true)
      (end_with (canceled_result other_name ∷ canceled_result dns ∷ []))
out_of_turn =
    next (next here (give_up (start names_asked true) (dns ∷ []) [] other_name refl refl))
      (give_up second_gone [] [] dns refl refl)

canceled_own : (f : Text) → canceled_result f ≡ canceled_result (canceled_result f).fqdn
unfolding canceled_result new_result
canceled_own f = refl

schedules_agree_example :
    let sent = canceled_result dns ∷ canceled_result other_name ∷ [] in
    let then_sent = canceled_result other_name ∷ canceled_result dns ∷ [] in
    let before = env_with none in
    let after = then_env (env_with none) backwards in
    (wanted_policy before policy (final before policy 5 6 7 sent)
      ≡ wanted_policy after policy (final after policy 5 6 7 then_sent))
    × (reported (
          resolved_policy before policy
            (final before policy 5 6 7 sent)
            (round_of before policy 5 6 7 sent)
            (bytes "m"))
        ≡ reported (
            resolved_policy after policy
              (final after policy 5 6 7 then_sent)
              (round_of after policy 5 6 7 then_sent)
              (bytes "m")))
schedules_agree_example =
    schedules_agree (env_with none) backwards policy 5 6 7 1 all names_asked true canceled_result
      (end_with (canceled_result dns ∷ canceled_result other_name ∷ []))
      (end_with (canceled_result other_name ∷ canceled_result dns ∷ [])) (bytes "m")
      (unfold retention_period get ltb_ℤ in refl) ((inl refl, tt), tt) policy-PortsAgree
      (omega arith) in_turn out_of_turn (refl, refl) (refl, refl)
      (canceled_own dns, (canceled_own other_name, tt))
      (canceled_own other_name, (canceled_own dns, tt))
