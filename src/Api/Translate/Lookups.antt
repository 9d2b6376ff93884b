-- ===== src/Api/Translate/Lookups.antt =====
-- The translation looks the FQDNs up: the order of the statuses does not matter to it.
use mathlib.Core.List.{Permᴰ}
use fqdn_egress_operator.Base.{
  Text, Bool, true, List, [], ◌∷◌, Option, ◌≡◌, refl, ap, sym, ◌∙◌, arith,
}
use fqdn_egress_operator.Base.Dict.{Dict, get, put}
use fqdn_egress_operator.Base.Fold.{SameEntries, Determined, put_each, put_each-perm}
use fqdn_egress_operator.Api.Types.{FqdnStatus, EgressRule, NetworkPolicy}
use fqdn_egress_operator.Api.Translate.{
  NetText, fqdn_peers, get_peers, to_multi_rule, to_multi_rules, to_multi_policy, lookup_from,
  lookup_table,
}

pub lookup_from-put_each :
    (statuses : List FqdnStatus) (m : Dict FqdnStatus)
    → lookup_from statuses m ≡ put_each (λ s. s.fqdn) (λ s. s) (λ s. true) statuses m
unfolding lookup_from put_each
lookup_from-put_each [] m = refl
lookup_from-put_each (s ∷ rest) m = lookup_from-put_each rest (put s.fqdn s m)

-- The table of statuses with FQDNs that tell them apart.
pub lookup_table-perm :
    {xs ys : List FqdnStatus}
    → Permᴰ xs ys
    → Determined (λ (s : FqdnStatus). s.fqdn) xs
    → SameEntries (lookup_table xs) (lookup_table ys)
unfolding lookup_table
lookup_table-perm {xs} {ys} d h k =
    ap (get k) (lookup_from-put_each xs [])
    ∙ (put_each-perm (λ s. s.fqdn) (λ s. s) (λ s. true) d h [] k
        ∙ ap (get k) (sym (lookup_from-put_each ys [])))

module _ (net : NetText) (ips jps : Dict FqdnStatus) (same : SameEntries ips jps)
    (global_block : Bool) where
  fqdn_peers-SameEntries :
      (fqdns : List Text) (rule_block : Option Bool)
      → fqdn_peers net fqdns ips global_block rule_block
        ≡ fqdn_peers net fqdns jps global_block rule_block
  unfolding fqdn_peers
  fqdn_peers-SameEntries [] rule_block = refl
  fqdn_peers-SameEntries (f ∷ rest) rule_block =
      ground (arith, same f, fqdn_peers-SameEntries rest rule_block)

  to_multi_rule-SameEntries :
      (rule : EgressRule)
      → to_multi_rule net ips global_block rule ≡ to_multi_rule net jps global_block rule
  unfolding to_multi_rule get_peers
  to_multi_rule-SameEntries rule =
      let peers = fqdn_peers-SameEntries rule.to_fqdns rule.block_private_ips in rw peers refl

  to_multi_rules-SameEntries :
      (rules : List EgressRule)
      → to_multi_rules net ips global_block rules ≡ to_multi_rules net jps global_block rules
  unfolding to_multi_rules
  to_multi_rules-SameEntries [] = refl
  to_multi_rules-SameEntries (rule ∷ rest) =
      ground (arith, to_multi_rule-SameEntries rule, to_multi_rules-SameEntries rest)

pub to_multi_policy-perm :
    (net : NetText) (np : NetworkPolicy) {xs ys : List FqdnStatus}
    → Permᴰ xs ys
    → Determined (λ (s : FqdnStatus). s.fqdn) xs
    → to_multi_policy net np xs ≡ to_multi_policy net np ys
unfolding to_multi_policy
to_multi_policy-perm net np {xs} {ys} d h =
    rw
      (to_multi_rules-SameEntries net (lookup_table xs) (lookup_table ys) (lookup_table-perm d h)
        np.spec.block_private_ips np.spec.egress)
      refl
