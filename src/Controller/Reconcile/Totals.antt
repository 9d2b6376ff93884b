-- ===== src/Controller/Reconcile/Totals.antt =====
-- The counts of the status, which do not depend on the order of what they count.
use mathlib.Core.List.{Permᴰ}
use fqdn_egress_operator.Base.{
  ◌+◌, List, [], ◌∷◌, ◌≡◌, refl, ap, sym, ◌∙◌, arith, length, length-append, any-perm,
}
use fqdn_egress_operator.Api.Types.{FqdnStatus}
use fqdn_egress_operator.Network.Result.{Result, total_cidrs, append_cidrs, all_cidrs}
use fqdn_egress_operator.Network.Aggregate.{aggregated_status}
use fqdn_egress_operator.Network.Aggregate.Worst.{aggregated_status_lem, failed, succeeded}
use fqdn_egress_operator.Controller.Report.{active_count, failing_count}

pub active_count-perm : {xs ys : List FqdnStatus} → Permᴰ xs ys → active_count xs ≡ active_count ys
unfolding active_count
active_count-perm Permᴰ.nil = refl
active_count-perm (Permᴰ.cons e d) = ground (arith, e, active_count-perm d)
active_count-perm (Permᴰ.swap e f) = ground (arith, e, f)
active_count-perm (Permᴰ.trans d e) = active_count-perm d ∙ active_count-perm e

pub failing_count-perm :
    {xs ys : List FqdnStatus} → Permᴰ xs ys → failing_count xs ≡ failing_count ys
unfolding failing_count
failing_count-perm Permᴰ.nil = refl
failing_count-perm (Permᴰ.cons e d) = ground (arith, e, failing_count-perm d)
failing_count-perm (Permᴰ.swap e f) = ground (arith, e, f)
failing_count-perm (Permᴰ.trans d e) = failing_count-perm d ∙ failing_count-perm e

pub total_cidrs-perm : {xs ys : List Result} → Permᴰ xs ys → total_cidrs xs ≡ total_cidrs ys
unfolding total_cidrs
total_cidrs-perm Permᴰ.nil = refl
total_cidrs-perm (Permᴰ.cons e d) = ground (arith, e, total_cidrs-perm d)
total_cidrs-perm (Permᴰ.swap e f) = ground (arith, e, f)
total_cidrs-perm (Permᴰ.trans d e) = total_cidrs-perm d ∙ total_cidrs-perm e

length-append_cidrs : (rl : List Result) → length (append_cidrs rl) ≡ total_cidrs rl
unfolding append_cidrs total_cidrs
length-append_cidrs [] = refl
length-append_cidrs (r ∷ rest) =
    length-append r.cidrs (append_cidrs rest)
    ∙ ap (λ n. length r.cidrs + n) (length-append_cidrs rest)

pub length-all_cidrs : (rl : List Result) → length (all_cidrs rl) ≡ total_cidrs rl
unfolding all_cidrs
length-all_cidrs rl = ground (arith, length-append_cidrs rl)

pub aggregated_status-perm :
    {xs ys : List Result} → Permᴰ xs ys → aggregated_status xs ≡ aggregated_status ys
aggregated_status-perm {xs} {ys} d =
    aggregated_status_lem xs
    ∙ (ground (arith, any-perm failed d, any-perm succeeded d) ∙ sym (aggregated_status_lem ys))
