-- ===== src/Controller/Reconcile/Expired.antt =====
-- The retention over many rounds of Reconcile, each of which starts from the status that the one before
-- has written.
use mathlib.Core.List.Permᴰ as PermD
use mathlib.Core.Path.{subst}
use fqdn_egress_operator.Api.Reason.{success, reason_eq}
use fqdn_egress_operator.Base.Range.{RangeOrder}
use fqdn_egress_operator.Base.{
  suc, false, ◌&&◌, ℕ, ◌+◌, ◌<◌, ltb, leb, Text, str_eq, true, List, [], ◌∷◌, map, Option, none,
  some, if◌then◌else◌, ◌≡◌, refl, ap, sym, ◌∙◌, inl, inr, arith, any, any-perm, All, All_mem,
  All-of_mem, Memᴰ, mem-perm, mem-map, mem-map_elim, Bool-cases,
}
use fqdn_egress_operator.Base.Int.{ℤ, pos, ltb_ℤ}
use fqdn_egress_operator.Base.Sort.{sort_by, sort_by-perm}
use fqdn_egress_operator.Base.Dict.{Dict, get}
use fqdn_egress_operator.Base.Fold.{Determined}
use fqdn_egress_operator.Api.Types.{AddressEntry, FqdnStatus, NetworkPolicy}
use fqdn_egress_operator.Api.Translate.{NetText, cidr_string}
use fqdn_egress_operator.Network.Result.{Result}
use fqdn_egress_operator.Controller.Statuses.Order.{status_of}
use fqdn_egress_operator.Controller.Retention.{
  missing_map, or_empty, max_duration, retention_period,
}
use fqdn_egress_operator.Controller.Retention.Order.{retained}
use fqdn_egress_operator.Controller.Retention.Entries.{find_entry, stands}
use fqdn_egress_operator.Controller.Retention.Marks.{
  MarkedAs, is_some-missing_map, missing_map-marked,
}
use fqdn_egress_operator.Controller.Retention.Expiry.{
  Turn, next_status, next_status-marked, next_status-gone, next_status-MarkedAs, next_status-fqdn,
}
use fqdn_egress_operator.Controller.Report.{fqdn_less, address_less, sort_addresses}
use fqdn_egress_operator.Controller.Reconcile.{Env}
use fqdn_egress_operator.Controller.Reconcile.Order.{OnePerFqdn, final, final-mem, final-OnePerFqdn}
use fqdn_egress_operator.Controller.Reconcile.Permits.{statuses}
use fqdn_egress_operator.Controller.Reconcile.Single.{get-old_missing_map, retained-next_status}
use fqdn_egress_operator.Controller.Reconcile.NextPolicy.{
  then_env, Meeting, next_policy, run_rounds, mark_in, next_policy-fqdns,
}

stands-any :
    (a : Text) (entries : List AddressEntry)
    → stands a entries ≡ any (λ (e : AddressEntry). str_eq e.address a) entries
unfolding find_entry any
stands-any a [] = refl
stands-any a (e ∷ rest) = ground (arith, stands-any a rest)

stands-sort :
    (a : Text) (s : FqdnStatus) → stands a (sort_addresses s).addresses ≡ stands a s.addresses
stands-sort a s =
    stands-any a (sort_addresses s).addresses
    ∙ (any-perm (λ (e : AddressEntry). str_eq e.address a) (sort_by-perm address_less s.addresses)
        ∙ sym (stands-any a s.addresses))

MarkedAs-sort :
    (a : Text) (u : ℕ) (s : FqdnStatus)
    → MarkedAs a u s.addresses
    → MarkedAs a u (sort_addresses s).addresses
MarkedAs-sort a u s h = All-of_mem _ (sort_addresses s).addresses λ e m.
    All_mem (λ (e : AddressEntry). e.address ≡ a → e.missing_since ≡ some u) s.addresses h
      (mem-perm (sort_by-perm address_less s.addresses) m)

mark_sorted :
    (a : Text) (u : ℕ) (s : FqdnStatus)
    → MarkedAs a u s.addresses
    → get a (missing_map (sort_addresses s).addresses []) ≡ get a (missing_map s.addresses [])
mark_sorted a u s h =
    missing_map-marked a u (sort_addresses s).addresses [] (MarkedAs-sort a u s h)
    ∙ (rw (stands-sort a s) (sym (missing_map-marked a u s.addresses [] h)))

gone_sorted :
    (a : Text) (s : FqdnStatus)
    → get a (missing_map s.addresses []) ≡ none
    → get a (missing_map (sort_addresses s).addresses []) ≡ none
unfolding get
gone_sorted a s h = ground (
  arith,
  h,
  is_some-missing_map a s.addresses [],
  is_some-missing_map a (sort_addresses s).addresses [],
  stands-sort a s,
)

pub sorted-OnePerFqdn :
    (statuses : List FqdnStatus)
    → OnePerFqdn statuses
    → OnePerFqdn (map sort_addresses (sort_by fqdn_less statuses))
sorted-OnePerFqdn statuses h x y p q e =
    let sorted = sort_by fqdn_less statuses in
    let (s, m, i) = mem-map_elim sort_addresses sorted p in
    let (t, n, j) = mem-map_elim sort_addresses sorted q in
    let back = sort_by-perm fqdn_less statuses in
    let named : s.fqdn ≡ t.fqdn =
      ap (λ (z : FqdnStatus). z.fqdn) i ∙ (e ∙ ap (λ (z : FqdnStatus). z.fqdn) (sym j)) in
    sym i ∙ (ap sort_addresses (h s t (mem-perm back m) (mem-perm back n) named) ∙ j)

module _ (net : NetText) (f a : Text) where
  -- The round has one result for each FQDN, one of them for this one, and that does not have the address.
  pub record Misses (t : Meeting) : Type 0 where
    pub one_each : Determined (λ (r : Result). r.fqdn) t.results
    pub result : Result
    pub received : Memᴰ result t.results
    pub named : result.fqdn ≡ f
    pub not_answered :
        (reason_eq result.status success && any (λ c. str_eq (cidr_string net c) a) result.cidrs)
        ≡ false

module _ (f : Text) where
  -- The policy has one status for each FQDN, and this is the one of `f`.
  pub record Follows (np : NetworkPolicy) (s : FqdnStatus) : Type 0 where
    pub one_each : OnePerFqdn np.status.fqdns
    pub listed : Memᴰ s np.status.fqdns
    pub named : s.fqdn ≡ f

module _ (env : Env) (f a : Text) where
  mark_in-mark :
      (np : NetworkPolicy) (s : FqdnStatus)
      → Follows f np s
      → mark_in env f a np ≡ get a (missing_map s.addresses [])
  mark_in-mark np s h =
      ap (λ (m : Option (Dict (Option ℕ))). get a (or_empty m))
        (get-old_missing_map s np.status.fqdns f h.one_each h.listed h.named)

  abbrev turn_of : (t : Meeting) → Misses env.net f a t → Turn
  turn_of t m = record { result = m.result; now = t.now; later = t.later; wall = t.wall }

  abbrev next_of :
      NetworkPolicy → ℕ → FqdnStatus → (t : Meeting) → Misses env.net f a t → FqdnStatus
  next_of np period s t m =
      next_status (cidr_string env.net) np.spec.retry_timeout_seconds env.order period s
        (turn_of t m)

  next_policy-Follows :
      (np : NetworkPolicy) (period : ℕ) (s : FqdnStatus) (t : Meeting) (m : Misses env.net f a t)
      → retention_period env.parse_duration np.annotations ≡ pos period
      → ltb_ℤ (pos 0) (pos period) ≡ true
      → Follows f np s
      → Follows f (next_policy env np t) (sort_addresses (next_of np period s t m))
  next_policy-Follows np period s t m kept positive h =
      let statuses = final env np t.now t.later t.wall t.results in
      let written = next_policy-fqdns env np t in
      let same =
        retained-next_status (cidr_string env.net) np.spec.retry_timeout_seconds env.order t.now
          t.later t.wall period s np.status.fqdns m.result t.results positive h.one_each m.one_each
          h.listed m.received (h.named ∙ sym m.named) in
      let kept_one = λ (p : ℤ).
        retained (cidr_string env.net) env.order t.wall p np.status.fqdns t.results (
          status_of (cidr_string env.net) np.spec.retry_timeout_seconds t.now t.later
            np.status.fqdns m.result) in
      let member : Memᴰ (next_of np period s t m) statuses =
        subst (λ x. Memᴰ x statuses) (ap kept_one kept ∙ same)
          (final-mem env np t.now t.later t.wall t.results m.result m.received) in
      record {
        one_each = subst OnePerFqdn (sym written) (
            sorted-OnePerFqdn statuses
              (final-OnePerFqdn env np t.now t.later t.wall t.results m.one_each));
        listed = subst (Memᴰ (sort_addresses (next_of np period s t m))) (sym written) (
            mem-map sort_addresses (sort_by fqdn_less statuses)
              (mem-perm (PermD.symm (sort_by-perm fqdn_less statuses)) member));
        named = next_status-fqdn _ _ env.order period s (turn_of t m) ∙ h.named;
      }

module _ (env : Env) (f a : Text) where
  run_rounds-gone :
      (orders : ℕ → RangeOrder) (np : NetworkPolicy) (period : ℕ) (s : FqdnStatus)
      (meetings : List Meeting)
      → retention_period env.parse_duration np.annotations ≡ pos period
      → ltb_ℤ (pos 0) (pos period) ≡ true
      → period < max_duration
      → Follows f np s
      → All (Misses env.net f a) meetings
      → mark_in env f a np ≡ none
      → mark_in env f a (run_rounds env orders np meetings) ≡ none
  unfolding run_rounds next_policy
  run_rounds-gone orders np period s [] kept positive short h missed gone = gone
  run_rounds-gone orders np period s (t ∷ rest) kept positive short h (m, missed) gone =
      let now = then_env env (orders 0) in
      let next = next_of now f a np period s t m in
      let follows = next_policy-Follows now f a np period s t m kept positive h in
      run_rounds-gone (λ n. orders (suc n)) (next_policy now np t) period (sort_addresses next) rest
        kept positive short follows missed
        (mark_in-mark now f a (next_policy now np t) (sort_addresses next) follows
          ∙ gone_sorted a next (
              next_status-gone _ _ (orders 0) period a s (turn_of now f a t m) short m.not_answered
                (sym (mark_in-mark now f a np s h) ∙ gone)))

  -- Over any number of rounds that each write their status, and whose results for an FQDN do not have an
  -- address that an earlier round has marked missing since `u`, the mark is never moved, and the address
  -- stays until the first round whose clock is past `u` plus the retention period; from then on the
  -- address is gone, whatever the clock of a later round says, and whatever the orders in which the rounds
  -- visit the maps. The policy has any number of FQDNs, each with one status, and a round one result for
  -- each; in each round the clock stands still; the period is positive and below the longest Duration.
  pub run_rounds_expiry :
      (orders : ℕ → RangeOrder) (np : NetworkPolicy) (period u : ℕ) (s : FqdnStatus)
      (meetings : List Meeting)
      → retention_period env.parse_duration np.annotations ≡ pos period
      → ltb_ℤ (pos 0) (pos period) ≡ true
      → period < max_duration
      → Follows f np s
      → All (Misses env.net f a) meetings
      → mark_in env f a np ≡ some (some u)
      → mark_in env f a (run_rounds env orders np meetings)
        ≡ (if any (λ t. ltb (u + period) t.wall) meetings then none else some (some u))
  unfolding run_rounds next_policy any
  run_rounds_expiry orders np period u s [] kept positive short h missed mark = mark
  run_rounds_expiry orders np period u s (t ∷ rest) kept positive short h (m, missed) mark =
      let now = then_env env (orders 0) in
      let next = next_of now f a np period s t m in
      let follows = next_policy-Follows now f a np period s t m kept positive h in
      let before = sym (mark_in-mark now f a np s h) ∙ mark in
      let after : mark_in env f a (next_policy now np t)
          ≡ (if leb t.wall (u + period) then some (some u) else none) =
        mark_in-mark now f a (next_policy now np t) (sort_addresses next) follows
        ∙ (mark_sorted a u next (
              next_status-MarkedAs _ _ (orders 0) period a u s (turn_of now f a t m) m.not_answered
                before)
            ∙ next_status-marked _ _ (orders 0) period a u s (turn_of now f a t m) short
                m.not_answered before) in
      elim (Bool-cases (leb t.wall (u + period))) [
        | inl q ↦
            run_rounds_expiry (λ n. orders (suc n)) (next_policy now np t) period u
              (sort_addresses next) rest kept positive short follows missed (after ∙ rw q refl)
            ∙ ground (arith, q)
        | inr q ↦
            run_rounds-gone (λ n. orders (suc n)) (next_policy now np t) period
              (sort_addresses next) rest kept positive short follows missed (after ∙ rw q refl)
            ∙ ground (arith, q)
      ]
