-- ===== src/Controller/Reconcile/Steady.antt =====
-- A round that resolves what the round before it has resolved.
use mathlib.Core.List.Permᴰ as PermD
use mathlib.Core.Path.{subst}
use fqdn_egress_operator.Base.{
  ℕ, Text, false, List, [], ◌∷◌, map, Option, some, ◌≡◌, refl, ap, sym, ◌∙◌, All, All_mem, Memᴰ,
  mem-perm, mem-map,
}
use fqdn_egress_operator.Base.Int.{ℤ, pos, ltb_ℤ}
use fqdn_egress_operator.Base.Dict.{get}
use fqdn_egress_operator.Base.Range.{RangeOrder}
use fqdn_egress_operator.Api.Translate.Meaning.{KnownProtocol, PortsAgree}
use fqdn_egress_operator.Api.Translate.MapOrder.{remove_duplicates-orders}
use fqdn_egress_operator.Base.Sort.{sort_by, sort_by-perm}
use fqdn_egress_operator.Base.Fold.{Determined}
use fqdn_egress_operator.Api.Reason.{ResolutionReason, success, reason_eq}
use fqdn_egress_operator.Api.Types.{EgressRule, Cidr, FqdnStatus, NetworkPolicy}
use fqdn_egress_operator.Api.Status.{update, update_addresses, write_reason}
use fqdn_egress_operator.Api.Translate.{cidr_string, lookup_table, to_multi_policy}
use fqdn_egress_operator.Network.Result.{Result}
use fqdn_egress_operator.Controller.Statuses.{starting_status, or_zero}
use fqdn_egress_operator.Controller.Statuses.Order.{status_of}
use fqdn_egress_operator.Controller.Retention.{retention_period, forget_missing}
use fqdn_egress_operator.Controller.Report.{fqdn_less, sort_addresses}
use fqdn_egress_operator.Controller.Reconcile.{Env, wanted_policy}
use fqdn_egress_operator.Controller.Reconcile.Order.{
  final, final_of, final-map, final_of-fqdn, final-OnePerFqdn,
}
use fqdn_egress_operator.Controller.Reconcile.Single.{get-lookup_table}
use fqdn_egress_operator.Controller.Reconcile.NextPolicy.{
  then_env, Meeting, next_policy, next_policy-fqdns,
}
use fqdn_egress_operator.Controller.Reconcile.Expired.{sorted-OnePerFqdn}

pub map_congr_mem :
    {A B : Type 0} (f g : A → B) (xs : List A)
    → ((x : A) → Memᴰ x xs → f x ≡ g x)
    → map f xs ≡ map g xs
map_congr_mem f g [] h = refl
map_congr_mem f g (x ∷ xs) h =
    cc (h x (Memᴰ.head refl), map_congr_mem f g xs (λ y m. h y (Memᴰ.tail m)))

-- A success after the same success, whose entries were sorted and are not marked, leaves the status.
update-again :
    (cs : Cidr → Text) (f : FqdnStatus) (cidrs : List Cidr) (reason : ResolutionReason)
    (message : Text) (retry : ℤ) (now later now' later' : ℕ)
    → reason ≡ success
    → let u = (update cs f cidrs reason message retry now later).0 in
      (update cs (sort_addresses (forget_missing u)) cidrs reason message retry now' later').0 ≡ u
unfolding update update_addresses write_reason forget_missing reason_eq
update-again cs f cidrs reason message retry now later now' later' e = rw e refl

-- Without a retention period the marks are wiped.
pub final_of-off :
    (env : Env) (np : NetworkPolicy) (now later wall : ℕ) (results : List Result) (r : Result)
    → ltb_ℤ (pos 0) (retention_period env.parse_duration np.annotations) ≡ false
    → final_of env np now later wall results r
      ≡ forget_missing (
          status_of (cidr_string env.net) np.spec.retry_timeout_seconds now later np.status.fqdns r)
unfolding final_of
final_of-off env np now later wall results r off = rw off refl

module _ (env : Env) (o : RangeOrder) (np : NetworkPolicy) (t t' : Meeting) where
  stored-get :
      (r : Result)
      → Determined (λ (r : Result). r.fqdn) t.results
      → Memᴰ r t.results
      → get r.fqdn (lookup_table (next_policy env np t).status.fqdns)
        ≡ some (sort_addresses (final_of env np t.now t.later t.wall t.results r))
  stored-get r one m =
      let statuses = final env np t.now t.later t.wall t.results in
      let x = final_of env np t.now t.later t.wall t.results r in
      let member : Memᴰ x statuses =
        subst (Memᴰ x) (sym (final-map env np t.now t.later t.wall t.results))
          (mem-map (final_of env np t.now t.later t.wall t.results) t.results m) in
      ap (λ l. get r.fqdn (lookup_table l)) (next_policy-fqdns env np t)
      ∙ get-lookup_table (sort_addresses x) (map sort_addresses (sort_by fqdn_less statuses)) r.fqdn
          (sorted-OnePerFqdn statuses (final-OnePerFqdn env np t.now t.later t.wall t.results one))
          (mem-map sort_addresses (sort_by fqdn_less statuses)
            (mem-perm (PermD.symm (sort_by-perm fqdn_less statuses)) member))
          (final_of-fqdn env np t.now t.later t.wall t.results r)

  final_of-again :
      (r : Result)
      → ltb_ℤ (pos 0) (retention_period env.parse_duration np.annotations) ≡ false
      → Determined (λ (r : Result). r.fqdn) t.results
      → Memᴰ r t.results
      → r.status ≡ success
      → final_of (then_env env o) (next_policy env np t) t'.now t'.later t'.wall t.results r
        ≡ final_of env np t.now t.later t.wall t.results r
  unfolding next_policy starting_status
  final_of-again r off one m ok =
      let cs = cidr_string env.net in
      let retry = np.spec.retry_timeout_seconds in
      let wiped = final_of-off env np t.now t.later t.wall t.results r off in
      let start = stored-get r one m ∙ ap (λ (s : FqdnStatus). some (sort_addresses s)) wiped in
      let again =
        ap
          (λ (s : Option FqdnStatus).
            forget_missing
              (update cs (or_zero r.fqdn s) r.cidrs r.status r.message retry t'.now t'.later).0)
          start
        ∙ ap forget_missing (
            update-again cs (starting_status (lookup_table np.status.fqdns) r.fqdn) r.cidrs r.status
              r.message retry t.now t.later t'.now t'.later ok) in
      final_of-off (then_env env o) (next_policy env np t) t'.now t'.later t'.wall t.results r off
      ∙ (again ∙ sym wiped)

  final-again :
      ltb_ℤ (pos 0) (retention_period env.parse_duration np.annotations) ≡ false
      → Determined (λ (r : Result). r.fqdn) t.results
      → All (λ (r : Result). r.status ≡ success) t.results
      → t'.results ≡ t.results
      → final (then_env env o) (next_policy env np t) t'.now t'.later t'.wall t'.results
        ≡ final env np t.now t.later t.wall t.results
  final-again off one ok same =
      ap (final (then_env env o) (next_policy env np t) t'.now t'.later t'.wall) same
      ∙ (final-map (then_env env o) (next_policy env np t) t'.now t'.later t'.wall t.results
          ∙ (map_congr_mem _ _ t.results (λ r m.
                final_of-again r off one m
                  (All_mem (λ (r : Result). r.status ≡ success) t.results ok m))
              ∙ sym (final-map env np t.now t.later t.wall t.results)))

  -- A round whose results are those of the round before it, all of them successes, one for each FQDN,
  -- leads to the same FQDN statuses and to the same MultiNetworkPolicy, whatever the times of the two
  -- rounds, the orders in which they visit the maps, and the statuses before the first of them. In each of
  -- the two the clock stands still; there is no retention period; the protocols are TCP, UDP or SCTP, and
  -- no two ports of the policy have one protocol and port and different end ports.
  pub steady_round :
      ltb_ℤ (pos 0) (retention_period env.parse_duration np.annotations) ≡ false
      → Determined (λ (r : Result). r.fqdn) t.results
      → All (λ (r : Result). r.status ≡ success) t.results
      → t'.results ≡ t.results
      → All (λ (r : EgressRule). All KnownProtocol r.ports) np.spec.egress
      → PortsAgree np.spec.egress
      → let first = next_policy env np t in
        ((next_policy (then_env env o) first t').status.fqdns ≡ first.status.fqdns)
        × (wanted_policy
              (then_env env o)
              first
              (final (then_env env o) first t'.now t'.later t'.wall t'.results)
            ≡ wanted_policy env np (final env np t.now t.later t.wall t.results))
  unfolding next_policy wanted_policy to_multi_policy
  steady_round off one ok same known agree =
      let again = final-again off one ok same in
      (
        next_policy-fqdns (then_env env o) (next_policy env np t) t'
            ∙ (ap (λ l. map sort_addresses (sort_by fqdn_less l)) again
                ∙ sym (next_policy-fqdns env np t)),
        ap (wanted_policy (then_env env o) np) again
            ∙ remove_duplicates-orders env.ports o env.order env.net np
                (final env np t.now t.later t.wall t.results) known agree,
      )
