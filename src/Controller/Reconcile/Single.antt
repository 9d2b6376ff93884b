-- ===== src/Controller/Reconcile/Single.antt =====
-- One FQDN of a round: its status depends on its own previous status and its own result alone.
use fqdn_egress_operator.Base.{
  ℕ, Text, str_eq, str_eq_refl, true, List, [], ◌∷◌, Option, none, some, Memᴰ, ◌≡◌, refl, ap, sym,
  ◌∙◌, any, any_intro, All, All-of_mem, if◌then◌else◌,
}
use fqdn_egress_operator.Base.Int.{ℤ, pos, ltb_ℤ}
use fqdn_egress_operator.Base.Dict.{Dict, get, put}
use fqdn_egress_operator.Base.Fold.{Determined, put_each, put_each-find}
use fqdn_egress_operator.Base.Range.{RangeOrder}
use fqdn_egress_operator.Api.Reason.{success, reason_eq}
use fqdn_egress_operator.Api.Types.{Cidr, FqdnStatus}
use fqdn_egress_operator.Api.Status.{update}
use fqdn_egress_operator.Api.Translate.{lookup_table}
use fqdn_egress_operator.Api.Translate.Lookups.{lookup_from-put_each}
use fqdn_egress_operator.Network.Result.{Result}
use fqdn_egress_operator.Controller.Statuses.{starting_status, or_zero}
use fqdn_egress_operator.Controller.Statuses.Order.{status_of, status_of-fqdn}
use fqdn_egress_operator.Controller.Retention.{
  missing_map, old_missing_map, fresh_set, freshly_resolved, retain_status,
}
use fqdn_egress_operator.Controller.Retention.Order.{retained, freshly_resolved-put_each}
use fqdn_egress_operator.Controller.Retention.Expiry.{next_status}

-- The elements with a key are one.
alone :
    {A : Type 0} (key : A → Text) (x : A) (xs : List A) (k : Text)
    → Determined key xs
    → Memᴰ x xs
    → key x ≡ k
    → All (λ y. key y ≡ k → y ≡ x) xs
alone key x xs k h m e = All-of_mem _ xs (λ y n f. h y x n m (f ∙ sym e))

present :
    {A : Type 0} (key : A → Text) (x : A) (xs : List A) (k : Text)
    → Memᴰ x xs
    → key x ≡ k
    → any (λ y. str_eq (key y) k) xs ≡ true
present key x xs k m e =
    any_intro (λ y. str_eq (key y) k) xs m (ap (str_eq (key x)) (sym e) ∙ str_eq_refl (key x))

pub get-lookup_table :
    (s : FqdnStatus) (old : List FqdnStatus) (k : Text)
    → Determined (λ (s : FqdnStatus). s.fqdn) old
    → Memᴰ s old
    → s.fqdn ≡ k
    → get k (lookup_table old) ≡ some s
unfolding lookup_table
get-lookup_table s old k h m e =
    ap (get k) (lookup_from-put_each old [])
    ∙ (put_each-find (λ s. s.fqdn) (λ s. s) (λ s. true) k s old []
          (alone (λ (s : FqdnStatus). s.fqdn) s old k h m e)
        ∙ rw (present (λ (s : FqdnStatus). s.fqdn) s old k m e) refl)

old_missing_map-put_each :
    (old : List FqdnStatus) (m : Dict (Dict (Option ℕ)))
    → old_missing_map old m
      ≡ put_each (λ (s : FqdnStatus). s.fqdn) (λ s. missing_map s.addresses []) (λ s. true) old m
unfolding old_missing_map put_each
old_missing_map-put_each [] m = refl
old_missing_map-put_each (s ∷ rest) m =
    old_missing_map-put_each rest (put s.fqdn (missing_map s.addresses []) m)

pub get-old_missing_map :
    (s : FqdnStatus) (old : List FqdnStatus) (k : Text)
    → Determined (λ (s : FqdnStatus). s.fqdn) old
    → Memᴰ s old
    → s.fqdn ≡ k
    → get k (old_missing_map old []) ≡ some (missing_map s.addresses [])
get-old_missing_map s old k h m e =
    ap (get k) (old_missing_map-put_each old [])
    ∙ (put_each-find (λ s. s.fqdn) (λ s. missing_map s.addresses []) (λ s. true) k s old []
          (alone (λ (s : FqdnStatus). s.fqdn) s old k h m e)
        ∙ rw (present (λ (s : FqdnStatus). s.fqdn) s old k m e) refl)

get-freshly_resolved :
    (cidr_string : Cidr → Text) (r : Result) (results : List Result) (k : Text)
    → Determined (λ (r : Result). r.fqdn) results
    → Memᴰ r results
    → r.fqdn ≡ k
    → get k (freshly_resolved cidr_string results [])
      ≡ (if reason_eq r.status success then some (fresh_set cidr_string r.cidrs []) else none)
unfolding get
get-freshly_resolved cidr_string r results k h m e =
    ap (get k) (freshly_resolved-put_each cidr_string results [])
    ∙ (put_each-find (λ r. r.fqdn) (λ r. fresh_set cidr_string r.cidrs [])
          (λ r. reason_eq r.status success) k r results []
          (alone (λ (r : Result). r.fqdn) r results k h m e)
        ∙ rw (present (λ (r : Result). r.fqdn) r results k m e) refl)

pub one_alone : {A : Type 0} (key : A → Text) (x : A) → Determined key (x ∷ [])
one_alone key x y z (Memᴰ.head e) (Memᴰ.head f) h = e ∙ sym f
one_alone key x y z (Memᴰ.head e) (Memᴰ.tail f) h = elim f [ ]
one_alone key x y z (Memᴰ.tail e) m h = elim e [ ]

-- The retention of a status reads the two tables at its FQDN.
retain_status-at :
    (wall : ℕ) (retention : ℤ) (o : RangeOrder) (old old' : Dict (Dict (Option ℕ)))
    (fresh fresh' : Dict (Dict (Unit {0}))) (s : FqdnStatus)
    → get s.fqdn old ≡ get s.fqdn old'
    → get s.fqdn fresh ≡ get s.fqdn fresh'
    → retain_status wall retention o old fresh s ≡ retain_status wall retention o old' fresh' s
unfolding retain_status
retain_status-at wall retention o old old' fresh fresh' s e f = rw (e, f) refl

-- An FQDN starts from its own previous status.
pub starting_status-one :
    (s : FqdnStatus) (old : List FqdnStatus) (k : Text)
    → Determined (λ (s : FqdnStatus). s.fqdn) old
    → Memᴰ s old
    → s.fqdn ≡ k
    → starting_status (lookup_table old) k ≡ s
unfolding starting_status
starting_status-one s old k h m e = ap (or_zero k) (get-lookup_table s old k h m e)

module _ (cidr_string : Cidr → Text) (retry : ℤ) (o : RangeOrder) (now later wall period : ℕ) where
  -- In a round with many FQDNs, each with one previous status and one result, an FQDN's status after the
  -- retention is the one that its own previous status and result lead to.
  pub retained-next_status :
      (s : FqdnStatus) (old : List FqdnStatus) (r : Result) (results : List Result)
      → ltb_ℤ (pos 0) (pos period) ≡ true
      → Determined (λ (s : FqdnStatus). s.fqdn) old
      → Determined (λ (r : Result). r.fqdn) results
      → Memᴰ s old
      → Memᴰ r results
      → s.fqdn ≡ r.fqdn
      → retained cidr_string o wall
          (pos period)
          old
          results
          (status_of cidr_string retry now later old r)
        ≡ next_status cidr_string retry o period s
            (record { result = r; now = now; later = later; wall = wall })
  unfolding next_status starting_status
  retained-next_status s old r results positive h j m n e =
      let u = status_of cidr_string retry now later old r in
      let named : u.fqdn ≡ r.fqdn = status_of-fqdn cidr_string retry now later old r in
      let start = get-lookup_table s old r.fqdn h m e in
      let marks =
        get-old_missing_map s old u.fqdn h m (e ∙ sym named)
        ∙ sym (
            get-old_missing_map s (s ∷ []) u.fqdn (one_alone (λ (s : FqdnStatus). s.fqdn) s)
              (Memᴰ.head refl) (e ∙ sym named)) in
      let fresh =
        get-freshly_resolved cidr_string r results u.fqdn j n (sym named)
        ∙ sym (
            get-freshly_resolved cidr_string r (r ∷ []) u.fqdn
              (one_alone (λ (r : Result). r.fqdn) r) (Memᴰ.head refl) (sym named)) in
      let same : u ≡ (update cidr_string s r.cidrs r.status r.message retry now later).0 =
        ap
          (λ (x : Option FqdnStatus).
            (update cidr_string (or_zero r.fqdn x) r.cidrs r.status r.message retry now later).0)
          start in
      rw positive (
        retain_status-at wall (pos period) o _ (old_missing_map (s ∷ []) []) _
          (freshly_resolved cidr_string (r ∷ []) []) u marks fresh
        ∙ ap
            (retain_status wall (pos period) o (old_missing_map (s ∷ []) [])
              (freshly_resolved cidr_string (r ∷ []) []))
            same)
