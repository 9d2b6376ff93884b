-- ===== src/Network/Resolve/Runs.antt =====
-- The runs of DNSResolver.Resolve: their invariant, the work that is left, and how they end.
use mathlib.Core.List.{Permᴰ}
use mathlib.Core.List.Permᴰ as PermD
use mathlib.Core.Path.{subst}
use fqdn_egress_operator.Base.{
  ℕ, zero, suc, ◌+◌, ◌*◌, ◌<◌, ◌≤◌, Text, Bool, List, [], ◌∷◌, ◌++◌, ◌≡◌, refl, ap, sym, ◌∙◌,
  length, length-append, ◌⊎◌, inl, inr, arith,
}
use fqdn_egress_operator.Api.Reason.{NetworkType}
use fqdn_egress_operator.Network.Result.{Result, new_result}
use fqdn_egress_operator.Network.Lookup.{Answer, lookup_ip, result_of}
use fqdn_egress_operator.Network.Resolve.{
  Pool, start, canceled_result, Step, acquire, give_up, finish, cancel, Run, here, next, IsFinal,
}

abbrev pub names : List Result → List Text
names [] = []
names (r ∷ rest) = r.fqdn ∷ names rest

-- What holds between two steps: at most `max` lookups run, and the FQDNs that wait, run and are answered
-- are together the ones that were asked for.
pub record Invariant (max : ℕ) (fqdns : List Text) (p : Pool) : Type 0 where
  pub bounded : length p.running ≤ max
  pub accounted : Permᴰ (p.waiting ++ (p.running ++ names p.sent)) fqdns

result_of-fqdn : (f : Text) (a : Answer (List _)) → (result_of f a).fqdn ≡ f
unfolding result_of new_result
result_of-fqdn f (inl c) = refl
result_of-fqdn f (inr e) = refl

canceled-fqdn : (f : Text) → (canceled_result f).fqdn ≡ f
unfolding canceled_result new_result
canceled-fqdn f = refl

names-append : (xs : List Result) (r : Result) → names (xs ++ (r ∷ [])) ≡ names xs ++ (r.fqdn ∷ [])
names-append [] r = refl
names-append (x ∷ xs) r = ap (◌∷◌ x.fqdn) (names-append xs r)

-- An element in the middle of the first part, or of the second, may move to the very end.
out_first :
    {A : Type 0} (before after rest : List A) (f : A)
    → Permᴰ ((before ++ after) ++ (rest ++ (f ∷ []))) ((before ++ (f ∷ after)) ++ rest)
out_first before after rest f =
    Permᴰ.trans
      (PermD.append_left (before ++ after)
        (Permᴰ.trans (PermD.middle f rest []) (Permᴰ.cons refl (PermD.append-nil rest))))
      (Permᴰ.trans (PermD.middle f (before ++ after) rest)
        (PermD.append_right rest (PermD.symm (PermD.middle f before after))))

-- `f` moves from the waiting goroutines to the running ones.
acquire-perm :
    (before after running sent : List Text) (f : Text)
    → Permᴰ
        ((before ++ after) ++ ((f ∷ running) ++ sent))
        ((before ++ (f ∷ after)) ++ (running ++ sent))
acquire-perm before after running sent f =
    Permᴰ.trans (PermD.middle f (before ++ after) (running ++ sent))
      (PermD.append_right (running ++ sent) (PermD.symm (PermD.middle f before after)))

append_assoc : {A : Type 0} (xs ys zs : List A) → (xs ++ ys) ++ zs ≡ xs ++ (ys ++ zs)
append_assoc [] ys zs = refl
append_assoc (x ∷ xs) ys zs = ap (◌∷◌ x) (append_assoc xs ys zs)

give_up-perm :
    (before after running sent : List Text) (f : Text)
    → Permᴰ
        ((before ++ after) ++ (running ++ (sent ++ (f ∷ []))))
        ((before ++ (f ∷ after)) ++ (running ++ sent))
give_up-perm before after running sent f =
    subst (λ m. Permᴰ ((before ++ after) ++ m) ((before ++ (f ∷ after)) ++ (running ++ sent)))
      (append_assoc running sent (f ∷ [])) (out_first before after (running ++ sent) f)

Step-Invariant :
    {max : ℕ} {network : NetworkType} {fqdns : List Text} {p q : Pool}
    → Invariant max fqdns p
    → Step max network p q
    → Invariant max fqdns q
Step-Invariant {fqdns = fqdns} i (acquire p before after f e room) = record {
  bounded = room;
  accounted =
      Permᴰ.trans (acquire-perm before after p.running (names p.sent) f)
        (subst (λ w. Permᴰ (w ++ (p.running ++ names p.sent)) fqdns) e i.accounted);
}
Step-Invariant {fqdns = fqdns} i (give_up p before after f e stop) = record {
  bounded = i.bounded;
  accounted =
      let sent : names (p.sent ++ (canceled_result f ∷ [])) ≡ names p.sent ++ (f ∷ []) =
        names-append p.sent (canceled_result f)
        ∙ ap (λ t. names p.sent ++ (t ∷ [])) (canceled-fqdn f) in
      Permᴰ.trans
        (subst
          (λ s.
            Permᴰ ((before ++ after) ++ (p.running ++ s))
              ((before ++ (f ∷ after)) ++ (p.running ++ names p.sent)))
          (sym sent) (give_up-perm before after p.running (names p.sent) f))
        (subst (λ w. Permᴰ (w ++ (p.running ++ names p.sent)) fqdns) e i.accounted);
}
Step-Invariant {max = max} {network = network} {fqdns = fqdns} i
      (finish p before after f answer e) =
    record {
      bounded =
          subst (λ n. n ≤ max) (sym (length-append before after))
            (omega (arith, i.bounded, ap length e, length-append before (f ∷ after)));
      accounted =
          let r = result_of f (lookup_ip (λ _ _. answer) network f) in
          let sent : names (p.sent ++ (r ∷ [])) ≡ names p.sent ++ (f ∷ []) =
            names-append p.sent r ∙ ap (λ t. names p.sent ++ (t ∷ [])) (result_of-fqdn f _) in
          Permᴰ.trans
            (PermD.append_left p.waiting (
              subst (λ s. Permᴰ ((before ++ after) ++ s) ((before ++ (f ∷ after)) ++ names p.sent))
                (sym sent) (out_first before after (names p.sent) f)))
            (subst (λ w. Permᴰ (p.waiting ++ (w ++ names p.sent)) fqdns) e i.accounted);
    }
Step-Invariant i (cancel p) = record { bounded = i.bounded; accounted = i.accounted }

-- In every state of a run at most `max` lookups are in flight, and the FQDNs that wait, are being
-- looked up and have a result are together a permutation of the ones that were asked for.
pub Run-Invariant :
    (max : ℕ) (network : NetworkType) (fqdns : List Text) (done : Bool) (p : Pool)
    → Run max network (start fqdns done) p
    → Invariant max fqdns p
Run-Invariant max network fqdns done p here = record {
  bounded = omega arith;
  accounted = PermD.append-nil fqdns;
}
Run-Invariant max network fqdns done p (next {q = q} before step) =
    Step-Invariant (Run-Invariant max network fqdns done q before) step

-- What is left: two steps for a goroutine that waits, one for a lookup in flight
abbrev pub work : Pool → ℕ
work p = 2 * length p.waiting + length p.running

-- `cancel` is the only step that leaves the work as it is.
abbrev pub IsCancel : {max : ℕ} {network : NetworkType} {p q : Pool} → Step max network p q → Type 0
IsCancel (cancel _) = Unit
IsCancel _ = ⊥

-- Every step of a goroutine lowers the work that is left, so that between two cancellations no run
-- goes on for ever; the step that is not a goroutine's, the context's, leaves the work as it is.
pub Step-work :
    (max : ℕ) (network : NetworkType) (p q : Pool) (step : Step max network p q)
    → (work q < work p) ⊎ (IsCancel step × (work q ≡ work p))
Step-work max network p q (acquire _ before after f e room) =
    inl (omega (arith, ap length e, length-append before (f ∷ after), length-append before after))
Step-work max network p q (give_up _ before after f e stop) =
    inl (omega (arith, ap length e, length-append before (f ∷ after), length-append before after))
Step-work max network p q (finish _ before after f answer e) =
    inl (omega (arith, ap length e, length-append before (f ∷ after), length-append before after))
Step-work max network p q (cancel _) = inr (tt, refl)

list-cases : {A : Type 0} (xs : List A) → (xs ≡ []) ⊎ ((x : A) × (rest : List A) × (xs ≡ x ∷ rest))
list-cases [] = inl refl
list-cases (x ∷ rest) = inr (x, rest, refl)

-- A state that is not final has a step that lowers the work, when there is a slot or the context is done.
progress :
    (max : ℕ) (network : NetworkType) (p : Pool)
    → 0 < max
    → IsFinal p ⊎ ((q : Pool) × Step max network p q × (work q < work p))
progress max network p slot = elim (list-cases p.running) [
  | inr (f, rest, e) ↦ inr (_, finish p [] rest f (inl []) e, omega (arith, ap length e))
  | inl none_runs ↦ elim (list-cases p.waiting) [
    | inl none_waits ↦ inl (none_waits, none_runs)
    | inr (f, rest, e) ↦ inr (
      _,
      acquire p [] rest f e (omega (arith, slot, ap length none_runs)),
      omega (arith, ap length e),
    )
  ]
]

IsFinal-within :
    (fuel max : ℕ) (network : NetworkType) (p q : Pool)
    → 0 < max
    → Run max network p q
    → work q < fuel
    → (r : Pool) × Run max network p r × IsFinal r
IsFinal-within zero max network p q slot run enough = absurd (omega arith)
IsFinal-within (suc fuel) max network p q slot run enough = elim (progress max network q slot) [
  | inl final ↦ (q, run, final)
  | inr (r, step, less) ↦
      IsFinal-within fuel max network p r slot (next run step) (omega (arith, less, enough))
]

-- With at least one slot, Resolve can end from every state that a run reaches (no deadlock), and
-- whenever it has ended the results hold every FQDN that was asked for, as often as it was asked for.
pub resolve_completes :
    (max : ℕ) (network : NetworkType) (fqdns : List Text) (done : Bool) (p : Pool)
    → 0 < max
    → Run max network (start fqdns done) p
    → ((r : Pool) × Run max network p r × IsFinal r) × (IsFinal p → Permᴰ (names p.sent) fqdns)
resolve_completes max network fqdns done p slot run = (
  IsFinal-within (suc (work p)) max network p p slot here (omega arith),
  λ (waits, runs).
      let i = Run-Invariant max network fqdns done p run in
      subst (λ w. Permᴰ (w ++ names p.sent) fqdns) runs
        (subst (λ w. Permᴰ (w ++ (p.running ++ names p.sent)) fqdns) waits i.accounted),
)
