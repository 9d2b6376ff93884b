-- ===== src/Controller/Retention/Order.antt =====
-- The retention of one status reads the results by their FQDNs alone.
use mathlib.Core.List.{Permᴰ}
use fqdn_egress_operator.Base.{
  ℕ, Text, List, [], ◌∷◌, map, ◌≡◌, refl, ap, sym, ◌∙◌, if◌then◌else◌, Bool, true, false,
  Bool-cases, inl, inr,
}
use fqdn_egress_operator.Base.Int.{ℤ, pos, ltb_ℤ}
use fqdn_egress_operator.Base.Range.{RangeOrder}
use fqdn_egress_operator.Base.Dict.{Dict, get, put}
use fqdn_egress_operator.Base.Fold.{SameEntries, Determined, put_each, put_each-perm}
use fqdn_egress_operator.Api.Reason.{success, reason_eq}
use fqdn_egress_operator.Api.Types.{Cidr, FqdnStatus}
use fqdn_egress_operator.Network.Result.{Result}
use fqdn_egress_operator.Controller.Retention.{
  fresh_set, freshly_resolved, old_missing_map, retain_status, forget_missing, retain,
}

if_map :
    (b : Bool) (f g : FqdnStatus → FqdnStatus) (xs : List FqdnStatus)
    → (if b then map f xs else map g xs) ≡ map (λ s. if b then f s else g s) xs
if_map true f g xs = refl
if_map false f g xs = refl

module _ (cidr_string : Cidr → Text) where
  pub freshly_resolved-put_each :
      (results : List Result) (m : Dict (Dict (Unit {0})))
      → freshly_resolved cidr_string results m
        ≡ put_each
            (λ r. r.fqdn)
            (λ r. fresh_set cidr_string r.cidrs [])
            (λ r. reason_eq r.status success)
            results
            m
  unfolding freshly_resolved put_each
  freshly_resolved-put_each [] m = refl
  freshly_resolved-put_each (r ∷ rest) m =
      freshly_resolved-put_each rest
        (if reason_eq r.status success then put r.fqdn (fresh_set cidr_string r.cidrs []) m else m)

  freshly_resolved-perm :
      {xs ys : List Result}
      → Permᴰ xs ys
      → Determined (λ (r : Result). r.fqdn) xs
      → SameEntries (freshly_resolved cidr_string xs []) (freshly_resolved cidr_string ys [])
  freshly_resolved-perm {xs} {ys} d h k =
      ap (get k) (freshly_resolved-put_each xs [])
      ∙ (put_each-perm (λ r. r.fqdn) (λ r. fresh_set cidr_string r.cidrs [])
            (λ r. reason_eq r.status success) d h [] k
          ∙ ap (get k) (sym (freshly_resolved-put_each ys [])))

  module _ (o : RangeOrder) (now : ℕ) (retention : ℤ) (previous : List FqdnStatus) where
    -- What retention makes of one status.
    abbrev pub retained : List Result → FqdnStatus → FqdnStatus
    retained results s =
        if ltb_ℤ (pos 0) retention
        then retain_status now retention o (old_missing_map previous [])
            (freshly_resolved cidr_string results []) s
        else forget_missing s

    pub retain-map :
        (results : List Result) (statuses : List FqdnStatus)
        → retain o cidr_string now retention previous results statuses
          ≡ map (retained results) statuses
    unfolding retain
    retain-map results statuses =
        if_map (ltb_ℤ (pos 0) retention)
          (retain_status now retention o (old_missing_map previous [])
            (freshly_resolved cidr_string results []))
          forget_missing statuses

    pub retained-fqdn :
        (results : List Result) (s : FqdnStatus) → (retained results s).fqdn ≡ s.fqdn
    unfolding retain_status forget_missing
    retained-fqdn results s = elim (Bool-cases (ltb_ℤ (pos 0) retention)) [
      | inl e ↦ rw e refl
      | inr e ↦ rw e refl
    ]

    pub retained-perm :
        {xs ys : List Result}
        → Permᴰ xs ys
        → Determined (λ (r : Result). r.fqdn) xs
        → (s : FqdnStatus) → retained xs s ≡ retained ys s
    unfolding retain_status
    retained-perm d h s = rw (freshly_resolved-perm d h s.fqdn) refl
