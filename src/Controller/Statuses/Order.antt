-- ===== src/Controller/Statuses/Order.antt =====
-- updateFQDNStatuses where the clock stands still: each status comes from its result alone.
use fqdn_egress_operator.Base.{ℕ, suc, Text, List, [], ◌∷◌, map, ◌≡◌, refl, ap, ◌∙◌}
use fqdn_egress_operator.Base.Int.{ℤ}
use fqdn_egress_operator.Base.Dict.{get}
use fqdn_egress_operator.Api.Types.{Cidr, FqdnStatus}
use fqdn_egress_operator.Api.Status.{update}
use fqdn_egress_operator.Api.Status.Lifecycle.{update-failing_since}
use fqdn_egress_operator.Api.Translate.{lookup_table}
use fqdn_egress_operator.Network.Result.{Result}
use fqdn_egress_operator.Controller.Statuses.{starting_status, update_from, update_fqdn_statuses}
use fqdn_egress_operator.Controller.Statuses.Tracked.{
  OwnKeys, lookup_from-OwnKeys, starting_status-fqdn,
}

module _ (cidr_string : Cidr → Text) (retry : ℤ) (now later : ℕ) (previous : List FqdnStatus) where
  -- The status that a result leads to.
  abbrev pub status_of : Result → FqdnStatus
  status_of r =
      (update cidr_string (starting_status (lookup_table previous) r.fqdn) r.cidrs r.status
        r.message retry now later).0

  update_from-map :
      (n : ℕ) (results : List Result)
      → (update_from cidr_string (λ k. (now, later)) retry (lookup_table previous) n results).0
        ≡ map status_of results
  unfolding update_from
  update_from-map n [] = refl
  update_from-map n (r ∷ rest) = ap (◌∷◌ (status_of r)) (update_from-map (suc n) rest)

  pub update_fqdn_statuses-map :
      (results : List Result)
      → (update_fqdn_statuses cidr_string (λ k. (now, later)) retry previous results).0
        ≡ map status_of results
  unfolding update_fqdn_statuses
  update_fqdn_statuses-map results = update_from-map 0 results

  table-OwnKeys : OwnKeys (lookup_table previous)
  unfolding lookup_table
  table-OwnKeys = lookup_from-OwnKeys previous [] λ k s e. absurd (unfold get in cc e)

  pub status_of-fqdn : (r : Result) → (status_of r).fqdn ≡ r.fqdn
  status_of-fqdn r =
      let kept =
        update-failing_since cidr_string (starting_status (lookup_table previous) r.fqdn) r.cidrs
          r.status r.message retry now later in
      kept.3 ∙ starting_status-fqdn (lookup_table previous) r.fqdn table-OwnKeys
