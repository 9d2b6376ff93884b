-- ===== src/Controller/Reconcile/Schedules.antt =====
-- Two runs of Resolve under different schedules, and what Reconcile makes of them.
use mathlib.Core.List.{Permᴰ}
use mathlib.Core.List.Permᴰ as PermD
use mathlib.Core.Path.{subst}
use fqdn_egress_operator.Base.{
  ℕ, ◌<◌, false, Text, Bool, List, [], ◌∷◌, map, All, All_mem, ◌≡◌, refl, ap, sym, ◌∙◌, map-perm,
}
use fqdn_egress_operator.Base.Int.{pos, ltb_ℤ}
use fqdn_egress_operator.Base.Range.{RangeOrder}
use fqdn_egress_operator.Base.Fold.{Determined}
use fqdn_egress_operator.Api.Conditions.{set_resolved_condition}
use fqdn_egress_operator.Api.Translate.Meaning.{KnownProtocol, PortsAgree}
use fqdn_egress_operator.Api.Translate.MapOrder.{remove_duplicates-orders}
use fqdn_egress_operator.Utils.Dedupe.{count_unique_addresses}
use fqdn_egress_operator.Controller.Retention.{retention_period}
use fqdn_egress_operator.Controller.Reconcile.NextPolicy.{then_env}
use fqdn_egress_operator.Controller.Reconcile.Steady.{final_of-off, map_congr_mem}
use fqdn_egress_operator.Api.Reason.{NetworkType}
use fqdn_egress_operator.Api.Types.{EgressRule, FqdnStatus, NetworkPolicy}
use fqdn_egress_operator.Network.Result.{Result}
use fqdn_egress_operator.Network.Resolve.{Pool, start, Run, IsFinal}
use fqdn_egress_operator.Network.Resolve.Runs.{names, resolve_completes}
use fqdn_egress_operator.Controller.Report.{reported}
use fqdn_egress_operator.Controller.Reconcile.{Env, wanted_policy, resolved_policy}
use fqdn_egress_operator.Controller.Reconcile.Order.{round_of, final, final-map, round_order}

-- Every result is the one that an assignment gives its FQDN.
abbrev pub Assigned : (Text → Result) → List Result → Type 0
Assigned given results = All (λ (r : Result). r ≡ given r.fqdn) results

Assigned-map :
    (given : Text → Result) (results : List Result)
    → Assigned given results
    → results ≡ map given (names results)
Assigned-map given [] h = refl
Assigned-map given (r ∷ rest) h = cc (h.0, Assigned-map given rest h.1)

Assigned-Determined :
    (given : Text → Result) (results : List Result)
    → Assigned given results
    → Determined (λ (r : Result). r.fqdn) results
Assigned-Determined given results h x y p q e =
    let Is : Result → Type 0 = λ r. r ≡ given r.fqdn in
    All_mem Is results h p ∙ (ap given e ∙ sym (All_mem Is results h q))

Assigned-perm :
    (given : Text → Result) (xs ys : List Result)
    → Permᴰ (names xs) (names ys)
    → Assigned given xs
    → Assigned given ys
    → Permᴰ xs ys
Assigned-perm given xs ys d h k =
    subst (λ l. Permᴰ l ys) (sym (Assigned-map given xs h))
      (subst (λ l. Permᴰ (map given (names xs)) l) (sym (Assigned-map given ys k))
        (map-perm given d))

-- The same where the maps are visited in one order, with any retention period
pub schedules_agree_in_order :
    (env : Env) (np : NetworkPolicy) (now later wall max : ℕ) (network : NetworkType)
    (fqdns : List Text) (done : Bool) (given : Text → Result) (p q : Pool) (message : Text)
    → 0 < max
    → Run max network (start fqdns done) p
    → Run max network (start fqdns done) q
    → IsFinal p
    → IsFinal q
    → Assigned given p.sent
    → Assigned given q.sent
    → let xs = p.sent in
      let ys = q.sent in
      let statuses = final env np now later wall in
      let turn = round_of env np now later wall in
      (wanted_policy env np (statuses xs) ≡ wanted_policy env np (statuses ys))
      × (reported (resolved_policy env np (statuses xs) (turn xs) message)
          ≡ reported (resolved_policy env np (statuses ys) (turn ys) message))
schedules_agree_in_order env np now later wall max network fqdns done given p q message slot run sun
      ends fins h k =
    let left = (resolve_completes max network fqdns done p slot run).1 ends in
    let right = (resolve_completes max network fqdns done q slot sun).1 fins in
    round_order env np now later wall p.sent q.sent message
      (Assigned-perm given p.sent q.sent (Permᴰ.trans left (PermD.symm right)) h k)
      (Assigned-Determined given p.sent h)

final-orders :
    (env : Env) (o : RangeOrder) (np : NetworkPolicy) (now later wall : ℕ) (results : List Result)
    → ltb_ℤ (pos 0) (retention_period env.parse_duration np.annotations) ≡ false
    → final (then_env env o) np now later wall results ≡ final env np now later wall results
final-orders env o np now later wall results off =
    final-map (then_env env o) np now later wall results
    ∙ (map_congr_mem _ _ results (λ r m.
          final_of-off (then_env env o) np now later wall results r off
          ∙ sym (final_of-off env np now later wall results r off))
        ∙ sym (final-map env np now later wall results))

wanted-orders :
    (env : Env) (o : RangeOrder) (np : NetworkPolicy) (statuses : List FqdnStatus)
    → All (λ (r : EgressRule). All KnownProtocol r.ports) np.spec.egress
    → PortsAgree np.spec.egress
    → wanted_policy env np statuses ≡ wanted_policy (then_env env o) np statuses
unfolding wanted_policy
wanted-orders env o np statuses known agree =
    remove_duplicates-orders env.ports env.order o env.net np statuses known agree

-- The resolved policy reads its environment for the applied MultiNetworkPolicy and the condition alone.
resolved-orders :
    (env : Env) (o : RangeOrder) (np : NetworkPolicy) (now later wall : ℕ) (results : List Result)
    (statuses : List FqdnStatus) (message : Text)
    → wanted_policy env np statuses ≡ wanted_policy (then_env env o) np statuses
    → resolved_policy env np statuses (round_of env np now later wall results) message
      ≡ resolved_policy
          (then_env env o)
          np
          statuses
          (round_of (then_env env o) np now later wall results)
          message
unfolding resolved_policy set_resolved_condition
resolved-orders env o np now later wall results statuses message e =
    cc (ap count_unique_addresses e)

-- Two runs of Resolve on the same FQDNs, in which the goroutines took any turns and each FQDN met the
-- same result, lead to the same MultiNetworkPolicy and to the same status, whatever the orders in which the
-- two rounds visit the maps, given the message of the condition Resolved and one clock that stands still.
-- There is no retention period, the protocols are TCP, UDP or SCTP, and no two ports of the policy have
-- one protocol and port and different end ports.
pub schedules_agree :
    (env : Env) (o : RangeOrder) (np : NetworkPolicy) (now later wall max : ℕ)
    (network : NetworkType) (fqdns : List Text) (done : Bool) (given : Text → Result) (p q : Pool)
    (message : Text)
    → ltb_ℤ (pos 0) (retention_period env.parse_duration np.annotations) ≡ false
    → All (λ (r : EgressRule). All KnownProtocol r.ports) np.spec.egress
    → PortsAgree np.spec.egress
    → 0 < max
    → Run max network (start fqdns done) p
    → Run max network (start fqdns done) q
    → IsFinal p
    → IsFinal q
    → Assigned given p.sent
    → Assigned given q.sent
    → let then = then_env env o in
      let first = final env np now later wall p.sent in
      let second = final then np now later wall q.sent in
      (wanted_policy env np first ≡ wanted_policy then np second)
      × (reported (resolved_policy env np first (round_of env np now later wall p.sent) message)
          ≡ reported
              (resolved_policy then np second (round_of then np now later wall q.sent) message))
schedules_agree env o np now later wall max network fqdns done given p q message off known agree
      slot run sun ends fins h k =
    let then = then_env env o in
    let one =
      schedules_agree_in_order env np now later wall max network fqdns done given p q message slot
        run sun ends fins h k in
    let same = sym (final-orders env o np now later wall q.sent off) in
    let wanted = wanted-orders env o np (final env np now later wall q.sent) known agree in
    (
      one.0 ∙ (wanted ∙ ap (wanted_policy then np) same),
      one.1
          ∙ ap reported (
              resolved-orders env o np now later wall q.sent (final env np now later wall q.sent)
                message wanted
              ∙ ap (λ l. resolved_policy then np l (round_of then np now later wall q.sent) message)
                  same),
    )
