-- ===== src/Controller/Reconcile/Bounds.antt =====
-- The machine integers of the status and of the durations, for a policy that the API server admits.
use mathlib.Core.List.{Permᴰ}
use fqdn_egress_operator.Base.{
  ℕ, suc, ◌+◌, ◌*◌, ◌≤◌, Text, true, List, [], ◌∷◌, length, length-perm, length-map, ◌≡◌, refl, ap,
  ◌∙◌, arith, All, Bool-cases, inl, inr, str_lt,
}
use fqdn_egress_operator.Base.Int.{ℤ, pos, negsuc, ltb_ℤ}
use fqdn_egress_operator.Base.Words.{
  to_int32, wrap_int64, IsInt32, to_int32_exact, wrap_int64_pos, wrap_int64_negsuc,
}
use fqdn_egress_operator.Base.Sort.{sort_by-perm}
use fqdn_egress_operator.Base.Dict.{Dict, put, keys}
use fqdn_egress_operator.Base.Keys.{keys-perm}
use fqdn_egress_operator.Base.Range.{RangeOrder}
use fqdn_egress_operator.Api.Types.{Cidr, EgressRule, NetworkPolicy, FqdnStatus}
use fqdn_egress_operator.Api.Status.{second, seconds}
use fqdn_egress_operator.Api.Admission.{every, rule_admitted, spec_admitted}
use fqdn_egress_operator.Api.Translate.{add_fqdns, fqdn_set, fqdns, cidr_string}
use fqdn_egress_operator.Network.Result.{Result, total_cidrs, all_cidrs}
use fqdn_egress_operator.Network.Resolve.Runs.{names}
use fqdn_egress_operator.Controller.Statuses.{Clock, update_from, update_fqdn_statuses}
use fqdn_egress_operator.Controller.Retention.{retain}
use fqdn_egress_operator.Controller.Report.{active_count, failing_count, counts-length}
use fqdn_egress_operator.Controller.Reconcile.Totals.{length-all_cidrs}
use fqdn_egress_operator.Controller.Reconcile.{Env, Round, resolved_statuses}

-- A set grows by one key at most.
length-put : (f : Text) (m : Dict (Unit {0})) → length (keys (put f tt m)) ≤ suc (length (keys m))
unfolding put
length-put f [] = omega arith
length-put f ((g, u) ∷ m) = ground (arith, length-put f m)

length-add_fqdns :
    (fs : List Text) (m : Dict (Unit {0}))
    → length (keys (add_fqdns fs m)) ≤ length (keys m) + length fs
unfolding add_fqdns
length-add_fqdns [] m = omega arith
length-add_fqdns (f ∷ fs) m =
    let ih = length-add_fqdns fs (put f tt m) in let one = length-put f m in omega arith

few_fqdns : (r : EgressRule) → rule_admitted r ≡ true → length r.to_fqdns ≤ 100
unfolding rule_admitted
few_fqdns r h = ground arith

length-fqdn_set :
    (rules : List EgressRule) (m : Dict (Unit {0}))
    → every rule_admitted rules ≡ true
    → length (keys (fqdn_set rules m)) ≤ length (keys m) + 100 * length rules
unfolding fqdn_set
length-fqdn_set [] m h = omega arith
length-fqdn_set (r ∷ rules) m h =
    let here : rule_admitted r ≡ true = ground arith in
    let rest : every rule_admitted rules ≡ true = ground arith in
    let ih = length-fqdn_set rules (add_fqdns r.to_fqdns m) rest in
    let one = length-add_fqdns r.to_fqdns m in let few = few_fqdns r here in omega arith

length-fqdns :
    (o : RangeOrder) (np : NetworkPolicy)
    → spec_admitted np.spec ≡ true
    → length (fqdns o np) ≤ 3000
unfolding fqdns
length-fqdns o np h =
    let set = fqdn_set np.spec.egress [] in
    let few : length np.spec.egress ≤ 30 = unfold spec_admitted in ground arith in
    let all : every rule_admitted np.spec.egress ≡ true = unfold spec_admitted in ground arith in
    let bound = length-fqdn_set np.spec.egress [] all in
    let sorted = length-perm (sort_by-perm str_lt (keys (o.range 5 set))) in
    let ranged = length-perm (keys-perm _ _ (o.range-perm 5 set)) in
    omega (arith, few, bound, sorted, ranged)

length-names : (rl : List Result) → length (names rl) ≡ length rl
length-names [] = refl
length-names (r ∷ rest) = ap suc (length-names rest)

-- An answer has at most as many addresses as a message of 65535 bytes has bytes.
abbrev pub FitsMessage : Result → Type 0
FitsMessage r = length r.cidrs ≤ 65535

total_cidrs-le : (rl : List Result) → All FitsMessage rl → total_cidrs rl ≤ 65535 * length rl
unfolding total_cidrs
total_cidrs-le [] h = omega arith
total_cidrs-le (r ∷ rest) h = let ih = total_cidrs-le rest h.1 in let one = h.0 in omega arith

length-update_from :
    (cs : Cidr → Text) (clock : Clock) (retry : ℤ) (previous : Dict FqdnStatus) (n : ℕ)
    (results : List Result)
    → length (update_from cs clock retry previous n results).0 ≡ length results
unfolding update_from
length-update_from cs clock retry previous n [] = refl
length-update_from cs clock retry previous n (r ∷ rest) =
    ap suc (length-update_from cs clock retry previous (suc n) rest)

length-retain :
    (o : RangeOrder) (cs : Cidr → Text) (now : ℕ) (retention : ℤ) (previous : List FqdnStatus)
    (results : List Result) (statuses : List FqdnStatus)
    → length (retain o cs now retention previous results statuses) ≡ length statuses
unfolding retain
length-retain o cs now retention previous results statuses =
    elim (Bool-cases (ltb_ℤ (pos 0) retention)) [
      | inl e ↦ rw e (length-map _ statuses)
      | inr e ↦ rw e (length-map _ statuses)
    ]

length-resolved_statuses :
    (env : Env) (np : NetworkPolicy) (round : Round)
    → length (resolved_statuses env np round).0 ≡ length round.results
unfolding resolved_statuses update_fqdn_statuses
length-resolved_statuses env np round =
    length-retain env.order (cidr_string env.net) round.now _ np.status.fqdns round.results _
    ∙ length-update_from (cidr_string env.net) round.clock _ _ 0 round.results

-- A number of seconds that is an int32, as a Duration: no bit is lost.
seconds_exact : (n : ℤ) → IsInt32 n → wrap_int64 (seconds n) ≡ seconds n
unfolding seconds
seconds_exact (pos n) h = wrap_int64_pos (n * second) (omega arith)
seconds_exact (negsuc n) h = wrap_int64_negsuc (n * second + 999_999_999) (omega arith)

-- For a policy that the API server admits, with the results of its FQDNs in any order, these conversions
-- lose nothing: to int32, of the number of resolved addresses and of the numbers of active and of failing
-- FQDNs; and to a Duration, of the retry timeout, of the TTL and of the resolution timeout. An answer is
-- taken to have at most 65535 addresses. The number of applied addresses, which the retention can raise
-- in every round, is not among them.
pub machine_integers_exact :
    (env : Env) (np : NetworkPolicy) (round : Round)
    → spec_admitted np.spec ≡ true
    → IsInt32 np.spec.retry_timeout_seconds
    → Permᴰ (names round.results) (fqdns env.order np)
    → All FitsMessage round.results
    → let statuses = (resolved_statuses env np round).0 in
      let total = length (all_cidrs round.results) in
      (to_int32 total ≡ pos total)
      × (to_int32 (active_count statuses) ≡ pos (active_count statuses))
      × (to_int32 (failing_count statuses) ≡ pos (failing_count statuses))
      × (wrap_int64 (seconds np.spec.retry_timeout_seconds) ≡ seconds np.spec.retry_timeout_seconds)
      × (wrap_int64 (seconds (pos np.spec.ttl_seconds)) ≡ pos (np.spec.ttl_seconds * second))
      × (wrap_int64 (seconds (pos np.spec.resolution_timeout_seconds))
          ≡ pos (np.spec.resolution_timeout_seconds * second))
machine_integers_exact env np round admitted retry asked fits =
    let statuses = (resolved_statuses env np round).0 in
    let few : length round.results ≤ 3000 =
      let a = length-fqdns env.order np admitted in
      let b = length-perm asked in let c = length-names round.results in omega arith in
    let total = length-all_cidrs round.results in
    let bound = total_cidrs-le round.results fits in
    let counted = counts-length statuses in
    let size = length-resolved_statuses env np round in
    let timeout : np.spec.resolution_timeout_seconds ≤ 60 = unfold spec_admitted in ground arith in
    let ttl : np.spec.ttl_seconds ≤ 1800 = unfold spec_admitted in ground arith in
    (
      to_int32_exact (length (all_cidrs round.results)) (omega arith),
      to_int32_exact (active_count statuses) (omega arith),
      to_int32_exact (failing_count statuses) (omega arith),
      seconds_exact np.spec.retry_timeout_seconds retry,
      seconds_exact (pos np.spec.ttl_seconds) (omega arith) ∙ unfold seconds in refl,
      seconds_exact (pos np.spec.resolution_timeout_seconds) (omega arith) ∙ unfold seconds in refl,
    )
