-- ===== src/Controller/Retention/Revoked.antt =====
-- The retention after an FQDN whose addresses FQDNStatus.Update has taken away.
use fqdn_egress_operator.Base.{
  ℕ, ◌<◌, Text, str_eq_refl, true, false, null, List, [], ◌∷◌, Option, none, some, ◌≡◌, refl, ap,
  ◌∙◌, arith,
}
use fqdn_egress_operator.Base.Int.{ℤ, pos}
use fqdn_egress_operator.Base.Dict.{Dict, get, put}
use fqdn_egress_operator.Base.Range.{RangeOrder}
use fqdn_egress_operator.Api.Reason.{success, reason_eq, transient}
use fqdn_egress_operator.Api.Types.{Cidr, AddressEntry, FqdnStatus}
use fqdn_egress_operator.Api.Status.{
  update, update_addresses, write_reason, clear_addresses, start_failing,
}
use fqdn_egress_operator.Network.Result.{Result}
use fqdn_egress_operator.Controller.Retention.{
  missing_map, old_missing_map, freshly_resolved, or_empty, max_duration, retain_status,
}
use fqdn_egress_operator.Controller.Retention.Entries.{find_entry, old_of}
use fqdn_egress_operator.Controller.Retention.Retained.{retained, retain_status_lem}

revoked_lem :
    (cidr_string : Cidr → Text) (old : FqdnStatus) (r : Result) (retry : ℤ) (now later : ℕ)
    → reason_eq r.status success ≡ false
    → transient r.status ≡ false
    → null old.addresses ≡ false
    → let (s, cleared) = update cidr_string old r.cidrs r.status r.message retry now later in
      (cleared ≡ true) × (s.addresses ≡ []) × (s.fqdn ≡ old.fqdn)
unfolding update update_addresses write_reason clear_addresses start_failing
revoked_lem cidr_string old r retry now later bad lasting some_address =
    ground (arith, bad, lasting, some_address)

some_address :
    (a : Text) (entries : List AddressEntry)
    → get a (missing_map entries []) ≡ some none
    → null entries ≡ false
some_address a [] h = absurd (unfold missing_map in unfold get in cc h)
some_address a (e ∷ rest) h = refl

none_fresh :
    (cidr_string : Cidr → Text) (r : Result)
    → reason_eq r.status success ≡ false
    → freshly_resolved cidr_string (r ∷ []) [] ≡ []
unfolding freshly_resolved
none_fresh cidr_string r bad = rw bad refl

pub old_of_one : (old : FqdnStatus) → old_of (old ∷ []) old.fqdn ≡ missing_map old.addresses []
unfolding old_missing_map get put
old_of_one old = rw (str_eq_refl old.fqdn) refl

retained_unmarked :
    (now period : ℕ) (old : Dict (Option ℕ)) (a : Text)
    → get a old ≡ some none
    → retained now period [] old [] a ≡ some (some now)
unfolding retained find_entry
retained_unmarked now period old a h = ground (arith, h)

-- The same of one FQDN alone.
pub revoked_one :
    (cidr_string : Cidr → Text) (old : FqdnStatus) (r : Result) (retry : ℤ)
    (now later again period : ℕ) (o : RangeOrder) (a : Text)
    → reason_eq r.status success ≡ false
    → transient r.status ≡ false
    → get a (missing_map old.addresses []) ≡ some none
    → period < max_duration
    → let (s, cleared) = update cidr_string old r.cidrs r.status r.message retry now later in
      (cleared ≡ true)
      × (s.addresses ≡ [])
      × (find_entry a
            (retain_status again
              (pos period)
              o
              (old_missing_map (old ∷ []) [])
              (freshly_resolved cidr_string (r ∷ []) [])
              s).addresses
          ≡ some (some again))
revoked_one cidr_string old r retry now later again period o a bad lasting unmarked short =
    let (cleared, gone, same) =
      revoked_lem cidr_string old r retry now later bad lasting
        (some_address a old.addresses unmarked) in
    let s = (update cidr_string old r.cidrs r.status r.message retry now later).0 in
    let fresh = freshly_resolved cidr_string (r ∷ []) [] in
    let fresh_none : or_empty (get s.fqdn fresh) ≡ [] =
      ap (λ (m : Dict (Dict (Unit {0}))). or_empty (get s.fqdn m)) (none_fresh cidr_string r bad)
      ∙ (unfold get in refl) in
    let old_map : old_of (old ∷ []) s.fqdn ≡ missing_map old.addresses [] =
      ap (old_of (old ∷ [])) same ∙ old_of_one old in
    let now_retained : retained again period (or_empty (get s.fqdn fresh))
          (old_of (old ∷ []) s.fqdn) s.addresses a
        ≡ some (some again) =
      cc (
        fresh_none,
        old_map,
        gone,
        retained_unmarked again period (missing_map old.addresses []) a unmarked,
      ) in
    (cleared, gone, retain_status_lem again period o (old ∷ []) fresh s a short ∙ now_retained)
