-- ===== src/Network/Aggregate/Order.antt =====
-- The aggregated message and the order of the results.
use fqdn_egress_operator.Base.{
  ℕ, any, ◌≤◌, Text, bytes, true, List, [], ◌∷◌, ◌++◌, none, some, ◌≡◌, ◌≢◌, refl, ap, sym, ◌∙◌,
  arith, Bool-cases, inl, inr, All, length, ◌==◌,
}
use fqdn_egress_operator.Base.Decimal.{itoa}
use fqdn_egress_operator.Api.Reason.{priority}
use fqdn_egress_operator.Network.Result.{Result}
use fqdn_egress_operator.Network.Aggregate.{
  success_count, worse, worst_from, sample_message, failure_text, aggregated_message,
  aggregated_status,
}
use fqdn_egress_operator.Network.Aggregate.Worst.{failed, success_count_bounds}

-- No result of the list is worse than `w`.
abbrev pub NoneWorse : Result → List Result → Type 0
NoneWorse w rl = All (λ (r : Result). priority r.status ≤ priority w.status) rl

-- The first of the worst stays.
worst_from-first :
    (w : Result) (rl : List Result) → NoneWorse w rl → worst_from rl (some w) ≡ some w
unfolding worst_from worse
worst_from-first w [] h = refl
worst_from-first w (r ∷ rest) h = ground (arith, h.0, worst_from-first w rest h.1)

worst_from-head :
    (w : Result) (rl : List Result)
    → failed w ≡ true
    → NoneWorse w rl
    → worst_from (w ∷ rl) none ≡ some w
unfolding worst_from worse
worst_from-head w rl f h = ground (arith, f, worst_from-first w rl h)

-- A text in front, or behind, takes no difference away.
append_cancel : (p s t : Text) → p ++ s ≡ p ++ t → s ≡ t
append_cancel [] s t e = e
append_cancel (c ∷ p) s t e = append_cancel p s t (ground arith)

append_cancel_end : (s t : Text) (c : ℕ) → s ++ (c ∷ []) ≡ t ++ (c ∷ []) → s ≡ t
append_cancel_end [] [] c e = refl
append_cancel_end [] (d ∷ []) c e = absurd (ground arith)
append_cancel_end [] (d ∷ x ∷ t) c e = absurd (ground arith)
append_cancel_end (d ∷ []) [] c e = absurd (ground arith)
append_cancel_end (d ∷ x ∷ s) [] c e = absurd (ground arith)
append_cancel_end (d ∷ s) (b ∷ t) c e =
    let rest : s ++ (c ∷ []) ≡ t ++ (c ∷ []) = ground arith in
    ground (arith, append_cancel_end s t c rest)

some_injective : {x y : Text} → some x ≡ some y → x ≡ y
some_injective e = cc e

framed_cancel :
    (p q r s t : Text)
    → p ++ (q ++ (r ++ (s ++ bytes "."))) ≡ p ++ (q ++ (r ++ (t ++ bytes ".")))
    → s ≡ t
framed_cancel p q r s t e =
    append_cancel_end s t b'.' (append_cancel r _ _ (append_cancel q _ _ (append_cancel p _ _ e)))

failure_text-injective :
    (n total : ℕ) (s t : Text) → failure_text n total s ≡ failure_text n total t → s ≡ t
failure_text-injective n total s t e = elim (Bool-cases (n == 0)) [
  | inl z ↦
      framed_cancel (bytes "Failed to resolve any of the ") (itoa total) (bytes " FQDNs. ") s t
        (rw z at e)
  | inr z ↦ framed_cancel (itoa total) (bytes " FQDNs). ") [] s t (
      append_cancel (b'/' ∷ []) _ _
        (append_cancel (itoa n) _ _ (append_cancel (bytes "Partially resolved (") _ _ (rw z at e))))
]

pub aggregated_message-failed :
    (rl : List Result) (w : Result) (s : Text)
    → any failed rl ≡ true
    → worst_from rl none ≡ some w
    → sample_message (some w) ≡ some s
    → aggregated_message rl ≡ some (failure_text (success_count rl) (length rl) s)
unfolding aggregated_message
aggregated_message-failed rl w s f e q =
    let b = success_count_bounds rl in ground (arith, f, e, q, b.1.0)

-- What the message says about the worst result.
abbrev pub Says : Result → Text → Type 0
Says w s = sample_message (some w) ≡ some s

-- The message depends on the order of the results, although the status does not. Where the first two results
-- of the list failed, none of the list has a higher priority than either, and their samples differ, the message
-- changes when the two change places.
pub aggregated_message_order :
    (a b : Result) (rest : List Result) (s t : Text)
    → failed a ≡ true
    → failed b ≡ true
    → NoneWorse a (b ∷ rest)
    → NoneWorse b (a ∷ rest)
    → Says a s
    → Says b t
    → s ≢ t
    → (aggregated_message (a ∷ b ∷ rest) ≢ aggregated_message (b ∷ a ∷ rest))
      × (aggregated_status (a ∷ b ∷ rest) ≡ aggregated_status (b ∷ a ∷ rest))
aggregated_message_order a b rest s t f g h k p q differ =
    let left : any failed (a ∷ b ∷ rest) ≡ true = unfold any in ground (arith, f) in
    let right : any failed (b ∷ a ∷ rest) ≡ true = unfold any in ground (arith, g) in
    let count : success_count (a ∷ b ∷ rest) ≡ success_count (b ∷ a ∷ rest) =
      unfold success_count in omega arith in
    (
      λ e.
          let first =
            aggregated_message-failed (a ∷ b ∷ rest) a s left (worst_from-head a (b ∷ rest) f h)
              p in
          let second =
            aggregated_message-failed (b ∷ a ∷ rest) b t right (worst_from-head b (a ∷ rest) g k)
              q in
          differ (
            failure_text-injective (success_count (a ∷ b ∷ rest)) (length (a ∷ b ∷ rest)) s t (
              some_injective (
                sym first
                ∙ (e
                    ∙ (second
                        ∙ ap (λ n. some (failure_text n (length (b ∷ a ∷ rest)) t))
                            (sym count)))))),
      unfold aggregated_status in rw count refl,
    )
