-- ===== src/Controller/Reconcile/Order.antt =====
-- Reconcile and the order in which the resolver's goroutines finished.
use mathlib.Core.List.{Permᴰ}
use mathlib.Core.Path.{subst}
use fqdn_egress_operator.Base.{
  ℕ, Text, List, [], ◌∷◌, map, Memᴰ, ◌≡◌, refl, ap, sym, ◌∙◌, inl, inr, length, mem-map_elim,
  map-perm, mem-map,
}
use fqdn_egress_operator.Base.Sort.{
  sort_by_of_perm, Comparable, StrictOrder, str_order, str-Comparable,
}
use fqdn_egress_operator.Base.Fold.{Determined}
use fqdn_egress_operator.Api.Types.{FqdnStatus, NetworkPolicyStatus, NetworkPolicy}
use fqdn_egress_operator.Api.Reason.{ResolutionReason}
use fqdn_egress_operator.Api.Conditions.{set_resolved_condition}
use fqdn_egress_operator.Utils.Dedupe.{count_unique_addresses}
use fqdn_egress_operator.Api.Translate.{cidr_string}
use fqdn_egress_operator.Api.Translate.Lookups.{to_multi_policy-perm}
use fqdn_egress_operator.Network.Result.{Result, all_cidrs}
use fqdn_egress_operator.Network.Aggregate.{aggregated_status}
use fqdn_egress_operator.Controller.Statuses.Order.{
  status_of, update_fqdn_statuses-map, status_of-fqdn,
}
use fqdn_egress_operator.Controller.Retention.{retention_period}
use fqdn_egress_operator.Controller.Retention.Order.{
  retained, retain-map, retained-fqdn, retained-perm,
}
use fqdn_egress_operator.Controller.Report.{fqdn_less, sort_status, reported}
use fqdn_egress_operator.Controller.Reconcile.Totals.{
  active_count-perm, failing_count-perm, total_cidrs-perm, length-all_cidrs, aggregated_status-perm,
}
use fqdn_egress_operator.Controller.Reconcile.{
  Env, Round, resolved_statuses, wanted_policy, resolved_policy,
}

map-map :
    {A B C : Type 0} (f : A → B) (g : B → C) (xs : List A)
    → map g (map f xs) ≡ map (λ x. g (f x)) xs
map-map f g [] = refl
map-map f g (x ∷ xs) = ap (◌∷◌ (g (f x))) (map-map f g xs)

map_congr :
    {A B : Type 0} (f g : A → B) → ((x : A) → f x ≡ g x) → (xs : List A) → map f xs ≡ map g xs
map_congr f g h [] = refl
map_congr f g h (x ∷ xs) = cc (h x, map_congr f g h xs)

-- One status for each FQDN.
abbrev pub OnePerFqdn : List FqdnStatus → Type 0
OnePerFqdn statuses = Determined (λ (s : FqdnStatus). s.fqdn) statuses

fqdn_order : StrictOrder fqdn_less
fqdn_order = record {
  irrefl = λ x. str_order.irrefl x.fqdn;
  trans = λ x y z. str_order.trans x.fqdn y.fqdn z.fqdn;
  neg_trans = λ x y z. str_order.neg_trans x.fqdn y.fqdn z.fqdn;
}

fqdn_less-Comparable :
    (statuses : List FqdnStatus)
    → OnePerFqdn statuses
    → (x y : FqdnStatus) → Memᴰ x statuses
    → Memᴰ y statuses
    → Comparable fqdn_less x y
fqdn_less-Comparable statuses h x y p q = elim (str-Comparable x.fqdn y.fqdn) [
  | inl l ↦ inl l
  | inr (inl g) ↦ inr (inl g)
  | inr (inr e) ↦ inr (inr (h x y p q e))
]

module _ (env : Env) (np : NetworkPolicy) (now later wall : ℕ) where
  -- A round in which the clock stands still.
  abbrev pub round_of : List Result → Round
  round_of results = record { results = results; clock = λ n. (now, later); now = wall }

  abbrev pub final : List Result → List FqdnStatus
  final results = (resolved_statuses env np (round_of results)).0

  unfoldable pub final_of : List Result → Result → FqdnStatus
  final_of results r =
      retained (cidr_string env.net) env.order wall
        (retention_period env.parse_duration np.annotations) np.status.fqdns results
        (status_of (cidr_string env.net) np.spec.retry_timeout_seconds now later np.status.fqdns r)

  pub final-map : (results : List Result) → final results ≡ map (final_of results) results
  unfolding resolved_statuses final_of
  final-map results =
      let cs = cidr_string env.net in
      let retry = np.spec.retry_timeout_seconds in
      let period = retention_period env.parse_duration np.annotations in
      let old = np.status.fqdns in
      retain-map cs env.order wall period old results _
      ∙ (ap (map (retained cs env.order wall period old results))
            (update_fqdn_statuses-map cs retry now later old results)
          ∙ map-map (status_of cs retry now later old)
              (retained cs env.order wall period old results) results)

  -- The status of each result is in the list.
  pub final-mem :
      (results : List Result) (r : Result)
      → Memᴰ r results
      → Memᴰ
          (retained
            (cidr_string env.net)
            env.order
            wall
            (retention_period env.parse_duration np.annotations)
            np.status.fqdns
            results
            (status_of
              (cidr_string env.net)
              np.spec.retry_timeout_seconds
              now
              later
              np.status.fqdns
              r))
          (final results)
  unfolding final_of
  final-mem results r m =
      subst (Memᴰ _) (sym (final-map results)) (mem-map (final_of results) results m)

  pub final_of-fqdn : (results : List Result) (r : Result) → (final_of results r).fqdn ≡ r.fqdn
  unfolding final_of
  final_of-fqdn results r =
      retained-fqdn _ env.order wall _ np.status.fqdns results _
      ∙ status_of-fqdn _ _ now later np.status.fqdns r

  final-perm :
      {xs ys : List Result}
      → Permᴰ xs ys
      → Determined (λ (r : Result). r.fqdn) xs
      → Permᴰ (final xs) (final ys)
  unfolding final_of
  final-perm {xs} {ys} d h =
      let same : map (final_of xs) ys ≡ map (final_of ys) ys =
        map_congr (final_of xs) (final_of ys)
          (λ r. retained-perm _ env.order wall _ np.status.fqdns d h _) ys in
      subst (λ l. Permᴰ l (final ys)) (sym (final-map xs))
        (subst (λ l. Permᴰ (map (final_of xs) xs) l) (same ∙ sym (final-map ys))
          (map-perm (final_of xs) d))

  pub final-OnePerFqdn :
      (results : List Result)
      → Determined (λ (r : Result). r.fqdn) results
      → OnePerFqdn (final results)
  final-OnePerFqdn results h x y p q e =
      let (r, m, i) =
        mem-map_elim (final_of results) results (subst (Memᴰ x) (final-map results) p) in
      let (s, n, j) =
        mem-map_elim (final_of results) results (subst (Memᴰ y) (final-map results) q) in
      let same : r ≡ s = h r s m n (
        sym (final_of-fqdn results r)
        ∙ (ap (λ (z : FqdnStatus). z.fqdn) i
            ∙ (e ∙ (ap (λ (z : FqdnStatus). z.fqdn) (sym j) ∙ final_of-fqdn results s)))) in
      sym i ∙ (ap (final_of results) same ∙ j)

  wanted_policy-perm :
      {xs ys : List Result}
      → Permᴰ xs ys
      → Determined (λ (r : Result). r.fqdn) xs
      → wanted_policy env np (final xs) ≡ wanted_policy env np (final ys)
  unfolding wanted_policy
  wanted_policy-perm {xs} {ys} d h =
      rw (to_multi_policy-perm env.net np (final-perm d h) (final-OnePerFqdn xs h)) refl

  -- What is written, by the parts that come from the results.
  reported_of : Text → List FqdnStatus → ℕ → ℕ → ResolutionReason → NetworkPolicyStatus
  reported_of message fqdns total applied reason = reported (
      set_resolved_condition env.set_condition reason message (record np {
        status = record np.status {
          fqdns = fqdns;
          total_address_count = total;
          applied_address_count = applied;
        };
      }))

  reported-perm :
      {xs ys : List FqdnStatus} (message : Text) (total applied : ℕ) (reason : ResolutionReason)
      → Permᴰ xs ys
      → OnePerFqdn xs
      → reported_of message xs total applied reason ≡ reported_of message ys total applied reason
  unfolding reported_of reported sort_status set_resolved_condition
  reported-perm {xs} {ys} message total applied reason d h = cc (
    sort_by_of_perm fqdn_less fqdn_order d (fqdn_less-Comparable xs h),
    active_count-perm d,
    failing_count-perm d,
  )

  -- The order in which the results come in does not matter. If no two different results have the same
  -- FQDN and the clock stands still, the wanted MultiNetworkPolicy is the same for any order of the
  -- results, and so is the status that is written, given the message of the condition Resolved.
  pub round_order :
      (xs ys : List Result) (message : Text)
      → Permᴰ xs ys
      → Determined (λ (r : Result). r.fqdn) xs
      → (wanted_policy env np (final xs) ≡ wanted_policy env np (final ys))
        × (reported (resolved_policy env np (final xs) (round_of xs) message)
            ≡ reported (resolved_policy env np (final ys) (round_of ys) message))
  unfolding resolved_policy reported_of
  round_order xs ys message d h =
      let wanted = wanted_policy-perm d h in
      let total : length (all_cidrs xs) ≡ length (all_cidrs ys) =
        length-all_cidrs xs ∙ (total_cidrs-perm d ∙ sym (length-all_cidrs ys)) in
      let first =
        reported-perm message (length (all_cidrs xs))
          (count_unique_addresses (wanted_policy env np (final xs))) (aggregated_status xs)
          (final-perm d h) (final-OnePerFqdn xs h) in
      (
        wanted,
        first ∙ cc (total, ap (λ w. count_unique_addresses w) wanted, aggregated_status-perm d),
      )
