-- ===== src/Network/Aggregate/Worst.antt =====
-- The aggregated status and message against the results of the list.
use fqdn_egress_operator.Base.{
  ◌≤◌, Text, Bool, true, false, not, List, [], ◌∷◌, Option, none, some, ◌≡◌, ◌≢◌, ◌↔◌, refl, ap,
  sym, ◌∙◌, ◌⊎◌, inl, inr, any, arith, ltb, if◌then◌else◌, length, All, Memᴰ, Bool-cases,
  Option-cases, All_mem, bytes, str_eq, ◌++◌,
}
use fqdn_egress_operator.Api.Reason.{
  ResolutionReason, success, failure, partial_success, reason_eq, reason_eq_refl, priority,
}
use fqdn_egress_operator.Network.Errors.{GoError, resolution_message, resolution_reason}
use fqdn_egress_operator.Network.Result.{Result}
use fqdn_egress_operator.Network.Aggregate.{
  success_count, aggregated_status, worse, worst_from, sample_message, aggregated_message,
}

abbrev pub succeeded : Result → Bool
succeeded r = reason_eq r.status success

abbrev pub failed : Result → Bool
failed r = not (succeeded r)

-- The count is full when nothing failed, and 0 when nothing succeeded.
pub success_count_bounds :
    (rl : List Result)
    → (success_count rl ≤ length rl)
      × ((success_count rl ≡ length rl) ↔ (any failed rl ≡ false))
      × ((success_count rl ≡ 0) ↔ (any succeeded rl ≡ false))
unfolding success_count any
success_count_bounds [] = (omega arith, (λ _. refl, λ _. refl), (λ _. refl, λ _. refl))
success_count_bounds (r ∷ rest) =
    let ih = success_count_bounds rest in
    let full = ih.1 in
    let empty = ih.2 in
    elim (Bool-cases (succeeded r)) [
      | inl e ↦ (
        ground (arith, e, ih.0),
        (λ h. ground (arith, e, full.0), λ h. ground (arith, e, full.1)),
        (λ h. ground (arith, e), λ h. ground (arith, e)),
      )
      | inr e ↦ (
        ground (arith, e, ih.0),
        (λ h. ground (arith, e, ih.0), λ h. ground (arith, e)),
        (λ h. ground (arith, e, empty.0), λ h. ground (arith, e, empty.1)),
      )
    ]

-- The aggregated status is Success exactly when no result failed, Failure when there are results and
-- all failed, and PartialSuccess when some failed and some succeeded.
pub aggregated_status_lem :
    (rl : List Result)
    → aggregated_status rl
      ≡ (if any failed rl then (if any succeeded rl then partial_success else failure) else success)
unfolding aggregated_status
aggregated_status_lem rl =
    let b = success_count_bounds rl in
    elim (Bool-cases (any failed rl)) [
      | inl e ↦ elim (Bool-cases (any succeeded rl)) [
        | inl f ↦ ground (arith, e, f, b.0, b.1.0, b.2.0)
        | inr f ↦ ground (arith, e, f, b.0, b.1.0, b.2.1)
      ]
      | inr e ↦ ground (arith, e, b.1.1)
    ]

-- What the loop has found: the best candidate of `rl` and of the one it started from.
record Found (rl : List Result) (w₀ : Option Result) (w : Result) : Type 0 where
  source : (w₀ ≡ some w) ⊎ (Memᴰ w rl × (failed w ≡ true))
  highest : All (λ (r : Result). failed r ≡ true → priority r.status ≤ priority w.status) rl
  start : (v : Result) → w₀ ≡ some v → priority v.status ≤ priority w.status

-- The candidate after one more result: the old one, which is as bad, or the new one, which is worse.
abbrev next_worst : Result → Option Result → Option Result
next_worst r w₀ = if reason_eq r.status success then w₀ else if worse r w₀ then some r else w₀

abbrev KeepsOld : Result → Option Result → Type 0
KeepsOld r w₀ =
    (next_worst r w₀ ≡ w₀)
    × (failed r ≡ true → (v : Result) × (w₀ ≡ some v) × (priority r.status ≤ priority v.status))

abbrev TakesNew : Result → Option Result → Type 0
TakesNew r w₀ =
    (next_worst r w₀ ≡ some r)
    × (failed r ≡ true)
    × ((v : Result) → w₀ ≡ some v → priority v.status ≤ priority r.status)

next_worst_cases : (r : Result) (w₀ : Option Result) → KeepsOld r w₀ ⊎ TakesNew r w₀
unfolding worse
next_worst_cases r none = elim (Bool-cases (reason_eq r.status success)) [
  | inl e ↦ inl (ground (arith, e), λ f. absurd (ground (arith, e, f)))
  | inr e ↦ inr (ground (arith, e), ground (arith, e), λ v h. absurd (cc))
]
next_worst_cases r (some u) = elim (Bool-cases (reason_eq r.status success)) [
  | inl e ↦ inl (ground (arith, e), λ f. absurd (ground (arith, e, f)))
  | inr e ↦ elim (Bool-cases (ltb (priority u.status) (priority r.status))) [
    | inl k ↦ inr (ground (arith, e, k), ground (arith, e), λ v h. ground (arith, h, k))
    | inr k ↦ inl (ground (arith, e, k), λ f. (u, refl, ground (arith, k)))
  ]
]

Found-cons :
    (r : Result) (rest : List Result) (w₀ : Option Result) (w : Result)
    → Found rest (next_worst r w₀) w
    → Found (r ∷ rest) w₀ w
Found-cons r rest w₀ w ih = elim (next_worst_cases r w₀) [
  | inl (same, low) ↦ record {
    source = elim ih.source [ inl p ↦ inl (sym same ∙ p) | inr p ↦ inr (Memᴰ.tail p.0, p.1) ];
    highest =
        (λ f. let (v, e, le) = low f in let s = ih.start v (same ∙ e) in omega arith, ih.highest);
    start = λ v e. ih.start v (same ∙ e);
  }
  | inr (new, bad, low) ↦ record {
    source = elim ih.source [
      | inl p ↦ let q : w ≡ r = ground (arith, sym new ∙ p) in inr (Memᴰ.head q, ap failed q ∙ bad)
      | inr p ↦ inr (Memᴰ.tail p.0, p.1)
    ];
    highest = (λ f. ih.start r new, ih.highest);
    start = λ v e. let s = ih.start r new in let t = low v e in omega arith;
  }
]

worst_from-Found :
    (rl : List Result) (w₀ : Option Result) (w : Result) → worst_from rl w₀ ≡ some w → Found rl w₀ w
unfolding worst_from
worst_from-Found [] w₀ w h = record {
  source = inl h;
  highest = tt;
  start = λ v e. let same : some v ≡ some w = sym e ∙ h in ground arith;
}
worst_from-Found (r ∷ rest) w₀ w h =
    Found-cons r rest w₀ w (worst_from-Found rest (next_worst r w₀) w h)

worst_from-some : (rl : List Result) (v : Result) → worst_from rl (some v) ≢ none
unfolding worst_from worse
worst_from-some [] v h = cc
worst_from-some (r ∷ rest) v h = elim (next_worst_cases r (some v)) [
  | inl (same, low) ↦ worst_from-some rest v (ap (worst_from rest) (sym same) ∙ h)
  | inr (new, bad, low) ↦ worst_from-some rest r (ap (worst_from rest) (sym new) ∙ h)
]

worst_from-none : (rl : List Result) → worst_from rl none ≡ none → any failed rl ≡ false
unfolding worst_from any
worst_from-none [] h = refl
worst_from-none (r ∷ rest) h = elim (next_worst_cases r none) [
  | inl (same, low) ↦
      let ih = worst_from-none rest (ap (worst_from rest) (sym same) ∙ h) in
      elim (Bool-cases (failed r)) [
        | inl f ↦ let (v, e, le) = low f in absurd (cc)
        | inr f ↦ ground (arith, ih, f)
      ]
  | inr (new, bad, low) ↦ absurd (worst_from-some rest r (ap (worst_from rest) (sym new) ∙ h))
]

-- Where any result failed, the loop ends with one of the failed results of the highest priority.
pub worst_from_lem :
    (rl : List Result)
    → any failed rl ≡ true
    → (w : Result) × (worst_from rl none ≡ some w)
      × Memᴰ w rl
      × (failed w ≡ true)
      × All (λ (r : Result). failed r ≡ true → priority r.status ≤ priority w.status) rl
worst_from_lem rl h = elim (Option-cases (worst_from rl none)) [
  | inl e ↦ absurd (cc (worst_from-none rl e))
  | inr (w, e) ↦
      let f = worst_from-Found rl none w e in
      elim f.source [ inl p ↦ absurd (cc) | inr p ↦ (w, e, p.0, p.1, f.highest) ]
]

reason_of_none : resolution_reason none ≡ success
unfolding resolution_reason
reason_of_none = refl

sample_of_error :
    (w : Result) (err : GoError)
    → w.error ≡ some err
    → (s : Text) × (sample_message (some w) ≡ some s)
unfolding sample_message
sample_of_error w err q = elim (Bool-cases (str_eq (resolution_message (some err)) err.text)) [
  | inl e ↦ (resolution_message (some err), ground (arith, q, e))
  | inr e ↦ (resolution_message (some err) ++ (bytes ": " ++ err.text), ground (arith, q, e))
]

sample_of_none : sample_message none ≡ some (bytes "Unknown error")
unfolding sample_message
sample_of_none = refl

pub failed_has_error :
    (w : Result)
    → w.status ≡ resolution_reason w.error
    → failed w ≡ true
    → (e : GoError) × (w.error ≡ some e)
failed_has_error w made bad = elim (Option-cases w.error) [
  | inr q ↦ q
  | inl n ↦
      let ok : w.status ≡ success = made ∙ (ap resolution_reason n ∙ reason_of_none) in
      absurd (
        ground (
          arith,
          bad,
          ap (λ (r : ResolutionReason). reason_eq r success) ok,
          reason_eq_refl success,
        ))
]

sample_total :
    (rl : List Result)
    → All (λ (r : Result). r.status ≡ resolution_reason r.error) rl
    → (s : Text) × (sample_message (worst_from rl none) ≡ some s)
sample_total rl made = elim (Option-cases (worst_from rl none)) [
  | inl e ↦ (bytes "Unknown error", ap sample_message e ∙ sample_of_none)
  | inr (w, e) ↦
      let f = worst_from-Found rl none w e in
      elim f.source [
        | inl p ↦ absurd (cc)
        | inr p ↦
            let (err, q) =
              failed_has_error w
                (All_mem (λ (r : Result). r.status ≡ resolution_reason r.error) rl made p.0) p.1 in
            let (s, same) = sample_of_error w err q in (s, ap sample_message e ∙ same)
      ]
]

-- The message is always produced, that is, Error() is never called on a nil error, for results whose
-- status is the one of their error, which is what NewDNSResolverResult makes.
pub aggregated_message_total :
    (rl : List Result)
    → All (λ (r : Result). r.status ≡ resolution_reason r.error) rl
    → (m : Text) × (aggregated_message rl ≡ some m)
unfolding aggregated_message
aggregated_message_total rl made = elim (Option-cases (aggregated_message rl)) [
  | inr q ↦ q
  | inl e ↦ let (s, q) = sample_total rl made in absurd (ground (arith, e, q))
]
