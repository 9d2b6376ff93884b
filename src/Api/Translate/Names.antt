-- ===== src/Api/Translate/Names.antt =====
-- NetworkPolicy.FQDNs against the rules that name the FQDNs.
use fqdn_egress_operator.Base.{
  Text, str_eq, str_lt, Bool, ◌||◌, List, [], ◌∷◌, ◌≡◌, ◌∙◌, any, arith, is_some, if◌then◌else◌,
}
use mathlib.Core.List.{Permᴰ}
use mathlib.Core.List.Permᴰ as PermD
use fqdn_egress_operator.Base.Sum.{count_if, count_if-perm}
use fqdn_egress_operator.Base.Sort.{
  sort_by-perm, sort_by_of_perm, sort_by-IsSorted, IsSorted, str_order, str-Comparable,
}
use fqdn_egress_operator.Base.Dict.{Dict, get, put, UniqueKeys, put-UniqueKeys}
use fqdn_egress_operator.Base.Keys.{keys-perm, count-keys, is_some-put}
use fqdn_egress_operator.Base.Range.{RangeOrder}
use fqdn_egress_operator.Api.Types.{EgressRule, NetworkPolicy}
use fqdn_egress_operator.Api.Translate.{add_fqdns, fqdn_set, fqdns}

-- Some rule of the policy names the FQDN.
unfoldable pub names_fqdn : Text → List EgressRule → Bool
names_fqdn f rules = any (λ r. any (λ g. str_eq g f) r.to_fqdns) rules

is_some-add_fqdns :
    (f : Text) (fs : List Text) (m : Dict (Unit {0}))
    → is_some (get f (add_fqdns fs m)) ≡ (is_some (get f m) || any (λ g. str_eq g f) fs)
unfolding add_fqdns any
is_some-add_fqdns f [] m = ground arith
is_some-add_fqdns f (g ∷ fs) m =
    is_some-add_fqdns f fs (put g tt m) ∙ ground (arith, is_some-put {V = Unit {0}} g f tt m)

is_some-fqdn_set :
    (f : Text) (rules : List EgressRule) (m : Dict (Unit {0}))
    → is_some (get f (fqdn_set rules m)) ≡ (is_some (get f m) || names_fqdn f rules)
unfolding fqdn_set names_fqdn any
is_some-fqdn_set f [] m = ground arith
is_some-fqdn_set f (r ∷ rules) m =
    is_some-fqdn_set f rules (add_fqdns r.to_fqdns m)
    ∙ ground (arith, is_some-add_fqdns f r.to_fqdns m)

add_fqdns-UniqueKeys :
    (fs : List Text) (m : Dict (Unit {0})) → UniqueKeys m → UniqueKeys (add_fqdns fs m)
unfolding add_fqdns
add_fqdns-UniqueKeys [] m u = u
add_fqdns-UniqueKeys (g ∷ fs) m u = add_fqdns-UniqueKeys fs _ (put-UniqueKeys g tt m u)

fqdn_set-UniqueKeys :
    (rules : List EgressRule) (m : Dict (Unit {0})) → UniqueKeys m → UniqueKeys (fqdn_set rules m)
unfolding fqdn_set
fqdn_set-UniqueKeys [] m u = u
fqdn_set-UniqueKeys (r ∷ rules) m u =
    fqdn_set-UniqueKeys rules _ (add_fqdns-UniqueKeys r.to_fqdns m u)

-- The list that is resolved has every FQDN that some rule names exactly once and no other, is in
-- ascending order, and does not depend on the order in which the runtime visits the set.
pub fqdns_lem :
    (o : RangeOrder) (np : NetworkPolicy)
    → ((f : Text)
        → count_if (str_eq f) (fqdns o np) ≡ (if names_fqdn f np.spec.egress then 1 else 0))
      × IsSorted str_lt (fqdns o np)
      × ((o' : RangeOrder) → fqdns o np ≡ fqdns o' np)
unfolding fqdns
fqdns_lem o np =
    let set = fqdn_set np.spec.egress [] in
    let listed = λ (o : RangeOrder). keys-perm _ _ (o.range-perm 5 set) in
    (
      λ f.
          let present = is_some-fqdn_set f np.spec.egress [] in
          count_if-perm (str_eq f) (sort_by-perm str_lt _)
          ∙ (count_if-perm (str_eq f) (listed o)
              ∙ (count-keys f set (fqdn_set-UniqueKeys np.spec.egress [] tt)
                  ∙ rw present (unfold get in ground arith))),
      sort_by-IsSorted str_lt str_order _,
      λ o'.
          sort_by_of_perm str_lt str_order (Permᴰ.trans (listed o) (PermD.symm (listed o')))
            (λ x y _ _. str-Comparable x y),
    )
