-- ===== src/Examples/Limits.antt =====
-- The bounds, and the end of the retention, at concrete inputs.
use mathlib.Core.List.{Permᴰ}
use mathlib.Core.List.Permᴰ as PermD
use fqdn_egress_operator.Base.{
  ◌∙◌, ap, sym, ℕ, ◌+◌, some, ltb, if◌then◌else◌, true, any, [], ◌∷◌, none, ◌≡◌, refl, arith,
  length, ◌*◌, str_eq, str_lt, bytes, Memᴰ, false, inl,
}
use fqdn_egress_operator.Base.Int.{pos, ltb_ℤ}
use fqdn_egress_operator.Base.Words.{to_int32, wrap_int64}
use fqdn_egress_operator.Base.Regex.{matches}
use fqdn_egress_operator.Base.Sort.{sort_by}
use fqdn_egress_operator.Base.Dict.{get, put}
use fqdn_egress_operator.Api.Fqdn.{is_alnum, is_label_char}
use fqdn_egress_operator.Api.Fqdn.Admitted.{is_letter}
use fqdn_egress_operator.Api.Admission.{spec_admitted, known_network}
use fqdn_egress_operator.Api.Status.{second, seconds, update}
use fqdn_egress_operator.Api.Translate.{fqdns, cidr_string, lookup_table}
use fqdn_egress_operator.Network.Errors.{resolution_reason, new_lookup_error, as_lookup_error}
use fqdn_egress_operator.Network.Result.{new_result, all_cidrs}
use fqdn_egress_operator.Controller.Report.{active_count, failing_count}
use fqdn_egress_operator.Controller.Reconcile.{
  Env, bare, Outcome, reconcile, wanted_policy, Round, resolved_statuses,
}
use fqdn_egress_operator.Controller.Reconcile.Requeue.{ComesBack, reconcile-ComesBack}
use fqdn_egress_operator.Controller.Cluster.{Cluster}
use fqdn_egress_operator.Controller.Reconcile.Announced.{Announced}
use fqdn_egress_operator.Controller.Reconcile.Bounds.{FitsMessage, machine_integers_exact}
use fqdn_egress_operator.Network.Resolve.Runs.{names}
use fqdn_egress_operator.Examples.Fixtures.{
  dns, dns_status, public_cidr, private_text, public_text, policy, env_with, in_order, net,
}
use fqdn_egress_operator.Base.Decimal.{itoa}
use fqdn_egress_operator.Api.Reason.{reason_eq, success, host_not_found, transient}
use fqdn_egress_operator.Api.Types.{FqdnStatus, NetworkPolicy}
use fqdn_egress_operator.Network.Result.{Result}
use fqdn_egress_operator.Controller.Retention.{retention_period, missing_map, old_missing_map}
use fqdn_egress_operator.Controller.Retention.Expiry.{NotAnswered}
use fqdn_egress_operator.Controller.Reconcile.Single.{one_alone}
use fqdn_egress_operator.Controller.Reconcile.NextPolicy.{
  then_env, Meeting, next_policy, run_rounds, mark_in,
}
use fqdn_egress_operator.Controller.Reconcile.Order.{final}
use fqdn_egress_operator.Controller.Statuses.{starting_status}
use fqdn_egress_operator.Controller.Retention.Entries.{find_entry}
use fqdn_egress_operator.Controller.Reconcile.Revoked.{revoked_kept}
use fqdn_egress_operator.Controller.Reconcile.Steady.{steady_round}
use fqdn_egress_operator.Examples.Policies.{policy-PortsAgree, backwards}
use fqdn_egress_operator.Controller.Reconcile.Expired.{Misses, Follows, run_rounds_expiry}

abbrev one_answer : Round
one_answer = record {
  results = new_result dns (public_cidr ∷ []) none ∷ [];
  clock = λ n. (n, n);
  now = 9;
}

policy-admitted : spec_admitted policy.spec ≡ true
unfolding spec_admitted known_network matches is_alnum is_label_char is_letter str_eq any
policy-admitted = refl

asked : Permᴰ (names one_answer.results) (fqdns in_order policy)
unfolding fqdns new_result sort_by put str_eq str_lt
asked = PermD.refl (dns ∷ [])

fits : FitsMessage (new_result dns (public_cidr ∷ []) none)
unfolding new_result sort_by
fits = omega arith

machine_integers_exact_example :
    (to_int32 (length (all_cidrs one_answer.results)) ≡ pos (length (all_cidrs one_answer.results)))
    × (to_int32 (active_count (resolved_statuses (env_with none) policy one_answer).0)
        ≡ pos (active_count (resolved_statuses (env_with none) policy one_answer).0))
    × (to_int32 (failing_count (resolved_statuses (env_with none) policy one_answer).0)
        ≡ pos (failing_count (resolved_statuses (env_with none) policy one_answer).0))
    × (wrap_int64 (seconds policy.spec.retry_timeout_seconds)
        ≡ seconds policy.spec.retry_timeout_seconds)
    × (wrap_int64 (seconds (pos policy.spec.ttl_seconds)) ≡ pos (policy.spec.ttl_seconds * second))
    × (wrap_int64 (seconds (pos policy.spec.resolution_timeout_seconds))
        ≡ pos (policy.spec.resolution_timeout_seconds * second))
machine_integers_exact_example =
    machine_integers_exact (env_with none) policy one_answer policy-admitted (omega arith) asked
      (fits, tt)

-- A policy with a retention period of 100 ns, and the environment that reads it
abbrev keeping_policy : NetworkPolicy
keeping_policy = record policy {
  annotations = (bytes "networking.turbosimone.com/retention-period", bytes "100ns") ∷ [];
}

abbrev keeping_env : Env
keeping_env = record (env_with none) {
  parse_duration = λ t. if str_eq t (bytes "100ns") then some (pos 100) else none;
}

-- Two rounds that resolve the FQDN to its public address alone, one before the end of the period and one
-- after it
abbrev meeting_at : ℕ → Meeting
meeting_at wall = record {
  results = new_result dns (public_cidr ∷ []) none ∷ [];
  now = wall;
  later = wall;
  wall = wall;
  message = [];
  wanted = bare keeping_env keeping_policy;
  applied = none;
}

meeting-NotAnswered :
    (wall : ℕ)
    → NotAnswered (cidr_string net) (pos 0) in_order 0 private_text (record {
      result = new_result dns (public_cidr ∷ []) none;
      now = wall;
      later = wall;
      wall = wall;
    })
unfolding new_result sort_by any str_eq cidr_string itoa reason_eq resolution_reason
meeting-NotAnswered wall = refl

answered-named : (new_result dns (public_cidr ∷ []) none).fqdn ≡ dns
unfolding new_result
answered-named = refl

meeting-Misses : (wall : ℕ) → Misses keeping_env.net dns private_text (meeting_at wall)
meeting-Misses wall = record {
  one_each = one_alone (λ (r : Result). r.fqdn) (new_result dns (public_cidr ∷ []) none);
  result = new_result dns (public_cidr ∷ []) none;
  received = Memᴰ.head refl;
  named = answered-named;
  not_answered = meeting-NotAnswered wall;
}

keeping_policy-Follows : Follows dns keeping_policy dns_status
keeping_policy-Follows = record {
  one_each = one_alone (λ (s : FqdnStatus). s.fqdn) dns_status;
  listed = Memᴰ.head refl;
  named = refl;
}

run_rounds_expiry_example :
    mark_in keeping_env dns private_text
      (run_rounds keeping_env (λ n. backwards) keeping_policy (meeting_at 60 ∷ meeting_at 111 ∷ []))
    ≡ (if any (λ t. ltb (10 + 100) t.wall) (meeting_at 60 ∷ meeting_at 111 ∷ [])
        then none
        else some (some 10))
run_rounds_expiry_example =
    run_rounds_expiry keeping_env dns private_text (λ n. backwards) keeping_policy 100 10 dns_status
      (meeting_at 60 ∷ meeting_at 111 ∷ []) (unfold retention_period get str_eq in refl)
      (unfold ltb_ℤ in refl) (omega arith) keeping_policy-Follows
      (meeting-Misses 60, (meeting-Misses 111, tt))
      (unfold missing_map old_missing_map get put str_eq in refl)

one_answer-made : (new_result dns (public_cidr ∷ []) none).status ≡ resolution_reason none
unfolding new_result
one_answer-made = refl

one_answer-error : (new_result dns (public_cidr ∷ []) none).error ≡ none
unfolding new_result
one_answer-error = refl

-- The policy alone, before its first round
abbrev policy_alone : Cluster
policy_alone = record { policy = some policy; multi = none; events = [] }

reconcile-ComesBack_example :
    (after : Cluster) × (outcome : Outcome) × (reconcile (env_with none) one_answer policy_alone
      ≡ some (after, outcome))
    × ComesBack outcome
reconcile-ComesBack_example =
    reconcile-ComesBack (env_with none) one_answer policy_alone policy refl policy-admitted
      (one_answer-made ∙ ap resolution_reason (sym one_answer-error), tt)

one_answer-success : (new_result dns (public_cidr ∷ []) none).status ≡ success
unfolding new_result resolution_reason
one_answer-success = refl

steady_round_example :
    let first = next_policy (env_with none) policy (meeting_at 60) in
    ((next_policy (then_env (env_with none) backwards) first (meeting_at 111)).status.fqdns
      ≡ first.status.fqdns)
    × (wanted_policy
          (then_env (env_with none) backwards)
          first
          (final (then_env (env_with none) backwards) first 111 111 111 (meeting_at 111).results)
        ≡ wanted_policy
            (env_with none)
            policy
            (final (env_with none) policy 60 60 60 (meeting_at 60).results))
steady_round_example =
    steady_round (env_with none) backwards policy (meeting_at 60) (meeting_at 111)
      (unfold retention_period get ltb_ℤ in refl)
      (one_alone (λ (r : Result). r.fqdn) (new_result dns (public_cidr ∷ []) none))
      (one_answer-success, tt) refl ((inl refl, tt), tt) policy-PortsAgree

-- The host is gone, while its public address was there in the round before.
abbrev gone_result : Result
gone_result = new_result dns [] (some (new_lookup_error host_not_found (bytes "no such host")))

gone-named : gone_result.fqdn ≡ dns
unfolding new_result
gone-named = refl

gone-status :
    (reason_eq gone_result.status success ≡ false) × (transient gone_result.status ≡ false)
unfolding new_result resolution_reason as_lookup_error reason_eq transient
gone-status = (refl, refl)

revoked_kept_example :
    let (updated, cleared) =
      update
        (cidr_string net)
        (starting_status (lookup_table (dns_status ∷ [])) gone_result.fqdn)
        gone_result.cidrs
        gone_result.status
        gone_result.message
        (pos 60)
        7
        8 in
    (cleared ≡ true)
    × (updated.addresses ≡ [])
    × ((kept : FqdnStatus) × Memᴰ kept (final keeping_env keeping_policy 7 8 9 (gone_result ∷ []))
        × (kept.fqdn ≡ gone_result.fqdn)
        × (find_entry public_text kept.addresses ≡ some (some 9)))
revoked_kept_example =
    revoked_kept keeping_env keeping_policy 7 8 9 100 dns_status gone_result (gone_result ∷ [])
      public_text (unfold retention_period get str_eq in refl) (unfold ltb_ℤ in refl) (omega arith)
      (one_alone (λ (s : FqdnStatus). s.fqdn) dns_status)
      (one_alone (λ (r : Result). r.fqdn) gone_result) (Memᴰ.head refl) (Memᴰ.head refl)
      (sym gone-named) gone-status.0 gone-status.1 (unfold missing_map get put str_eq in refl)
