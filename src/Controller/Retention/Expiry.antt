-- ===== src/Controller/Retention/Expiry.antt =====
-- One FQDN over one round: what the retention leaves of an address that no longer resolves.
use fqdn_egress_operator.Base.{
  ℕ, ◌+◌, ◌<◌, leb, Text, str_eq, true, false, ◌&&◌, ◌||◌, List, [], ◌∷◌, map, Option, none, some,
  is_some, if◌then◌else◌, ◌≡◌, refl, ap, ◌∙◌, arith, any,
}
use fqdn_egress_operator.Base.Int.{ℤ, pos}
use fqdn_egress_operator.Base.Dict.{Dict, get, put}
use fqdn_egress_operator.Base.Range.{RangeOrder}
use fqdn_egress_operator.Api.Reason.{success, reason_eq}
use fqdn_egress_operator.Api.Types.{Cidr, FqdnStatus}
use fqdn_egress_operator.Api.Status.{
  update, update_addresses, write_reason, clear_addresses, start_failing,
}
use fqdn_egress_operator.Network.Result.{Result}
use fqdn_egress_operator.Controller.Retention.{
  missing_map, old_missing_map, freshly_resolved, or_empty, max_duration, missing_time,
  retain_status,
}
use fqdn_egress_operator.Controller.Retention.Entries.{
  find_entry, stands, old_missing_map-InnerUnique,
}
use fqdn_egress_operator.Controller.Retention.Revoked.{old_of_one}
use fqdn_egress_operator.Controller.Retention.Retained.{retained, went_missing, retain_status_lem}
use fqdn_egress_operator.Controller.Retention.Marks.{
  MarkedAs, is_some-missing_map, missing_map-marked, is_some-fresh_set, final_entries-MarkedAs,
}

-- What one round meets: the result, the two readings of the clock in Update, and the one of the retention
pub record Turn : Type 0 where
  pub result : Result
  pub now : ℕ
  pub later : ℕ
  pub wall : ℕ

module _ (cidr_string : Cidr → Text) (retry : ℤ) (o : RangeOrder) (period : ℕ) where
  abbrev updated : FqdnStatus → Turn → FqdnStatus
  updated s t =
      (update cidr_string s t.result.cidrs t.result.status t.result.message retry t.now t.later).0

  -- The status after one more round, of a policy with one FQDN
  unfoldable pub next_status : FqdnStatus → Turn → FqdnStatus
  next_status s t =
      retain_status t.wall (pos period) o (old_missing_map (s ∷ []) [])
        (freshly_resolved cidr_string (t.result ∷ []) []) (updated s t)

  -- The round does not resolve the FQDN to the address.
  abbrev pub NotAnswered : Text → Turn → Type 0
  NotAnswered a t =
      (reason_eq t.result.status success && any (λ c. str_eq (cidr_string c) a) t.result.cidrs)
      ≡ false

  -- The mark that the next round finds.
  abbrev pub mark_of : Text → FqdnStatus → Option (Option ℕ)
  mark_of a s = get a (missing_map s.addresses [])

  updated-fqdn : (s : FqdnStatus) (t : Turn) → (updated s t).fqdn ≡ s.fqdn
  unfolding update update_addresses write_reason clear_addresses start_failing
  updated-fqdn s t = ground arith

  stands-entries :
      (a : Text) (cidrs : List Cidr)
      → stands a (map (λ c. record { address = cidr_string c; missing_since = none }) cidrs)
        ≡ any (λ c. str_eq (cidr_string c) a) cidrs
  unfolding find_entry any
  stands-entries a [] = refl
  stands-entries a (c ∷ cidrs) = ground (arith, stands-entries a cidrs)

  -- Update brings no address back that was not answered.
  updated-stands :
      (a : Text) (s : FqdnStatus) (t : Turn)
      → NotAnswered a t
      → stands a (updated s t).addresses ≡ true
      → stands a s.addresses ≡ true
  unfolding update update_addresses write_reason clear_addresses start_failing find_entry
  updated-stands a s t gone h = ground (arith, stands-entries a t.result.cidrs)

  stale :
      (a f : Text) (t : Turn)
      → NotAnswered a t
      → is_some (get a (or_empty (get f (freshly_resolved cidr_string (t.result ∷ []) [])))) ≡ false
  unfolding freshly_resolved get put
  stale a f t gone = ground (arith, is_some-fresh_set cidr_string a t.result.cidrs [])

  old-map :
      (s : FqdnStatus) (t : Turn)
      → or_empty (get (updated s t).fqdn (old_missing_map (s ∷ []) [])) ≡ missing_map s.addresses []
  old-map s t =
      ap (λ (f : Text). or_empty (get f (old_missing_map (s ∷ []) []))) (updated-fqdn s t)
      ∙ old_of_one s

  -- The entry of an address that was not answered.
  abbrev left_over : Text → FqdnStatus → Turn → Option (Option ℕ)
  left_over a s t =
      if (stands a (updated s t).addresses || is_some (mark_of a s))
        && leb t.wall (went_missing t.wall (mark_of a s) + period)
      then some (some (went_missing t.wall (mark_of a s)))
      else none

  next_status-find :
      (a : Text) (s : FqdnStatus) (t : Turn)
      → period < max_duration
      → NotAnswered a t
      → find_entry a (next_status s t).addresses ≡ left_over a s t
  unfolding next_status
  next_status-find a s t short gone =
      let fresh = freshly_resolved cidr_string (t.result ∷ []) [] in
      let entry = retain_status_lem t.wall period o (s ∷ []) fresh (updated s t) a short in
      let not_fresh = stale a (updated s t).fqdn t gone in
      let kept : retained t.wall period (or_empty (get (updated s t).fqdn fresh))
            (missing_map s.addresses []) (updated s t).addresses a
          ≡ left_over a s t =
        unfold retained in ground (arith, not_fresh) in
      entry
      ∙ (ap
            (λ (m : Dict (Option ℕ)).
              retained t.wall period (or_empty (get (updated s t).fqdn fresh)) m
                (updated s t).addresses a)
            (old-map s t)
          ∙ kept)

  pub next_status-fqdn : (s : FqdnStatus) (t : Turn) → (next_status s t).fqdn ≡ s.fqdn
  unfolding next_status retain_status
  next_status-fqdn s t = updated-fqdn s t

  pub next_status-MarkedAs :
      (a : Text) (u : ℕ) (s : FqdnStatus) (t : Turn)
      → NotAnswered a t
      → mark_of a s ≡ some (some u)
      → MarkedAs a u (next_status s t).addresses
  unfolding next_status retain_status
  next_status-MarkedAs a u s t gone mark =
      final_entries-MarkedAs t.wall (pos period) a u o
        (or_empty (get (updated s t).fqdn (freshly_resolved cidr_string (t.result ∷ []) [])))
        (get (updated s t).fqdn (old_missing_map (s ∷ []) [])) (updated s t).addresses
        (stale a (updated s t).fqdn t gone)
        (old_missing_map-InnerUnique (s ∷ []) [] (λ f v e. absurd (unfold get in cc e))
          (updated s t).fqdn)
        (ap (λ (m : Dict (Option ℕ)). missing_time t.wall (pos period) (get a m)) (old-map s t)
          ∙ (ap (missing_time t.wall (pos period)) mark ∙ unfold missing_time in refl))

  pub next_status-marked :
      (a : Text) (u : ℕ) (s : FqdnStatus) (t : Turn)
      → period < max_duration
      → NotAnswered a t
      → mark_of a s ≡ some (some u)
      → mark_of a (next_status s t) ≡ (if leb t.wall (u + period) then some (some u) else none)
  next_status-marked a u s t short gone mark =
      let entry = next_status-find a s t short gone in
      missing_map-marked a u (next_status s t).addresses [] (next_status-MarkedAs a u s t gone mark)
      ∙ unfold get in ground (arith, entry, mark)

  pub next_status-gone :
      (a : Text) (s : FqdnStatus) (t : Turn)
      → period < max_duration
      → NotAnswered a t
      → mark_of a s ≡ none
      → mark_of a (next_status s t) ≡ none
  next_status-gone a s t short gone mark =
      let entry = next_status-find a s t short gone in
      let before = is_some-missing_map a s.addresses [] in
      let after = is_some-missing_map a (next_status s t).addresses [] in
      let back = updated-stands a s t gone in
      unfold get in ground (arith, entry, mark, before, after, back)
