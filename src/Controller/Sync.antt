-- ===== src/Controller/Sync.antt =====
-- internal/controller/networkpolicy_create.go: the function that CreateOrUpdate is given, which makes
-- the current MultiNetworkPolicy into the wanted one.
pub mod Synced
use fqdn_egress_operator.Base.{Text, Bool, not, is_some, List, [], ◌∷◌, if◌then◌else◌}
use fqdn_egress_operator.Base.Dict.{Dict, get, put, delete_where}
use fqdn_egress_operator.Base.Range.{RangeOrder}
use fqdn_egress_operator.Multi.{MultiSpec, MultiPolicy}

-- `for k, v := range wanted { current[k] = v }`
unfoldable pub put_all : Dict Text → Dict Text → Dict Text
put_all [] current = current
put_all ((k, v) ∷ rest) current = put_all rest (put k v current)

-- The two loops on Labels, and on Annotations: what is not wanted goes, what is wanted is written
unfoldable pub sync_map : RangeOrder → Dict Text → Dict Text → Dict Text
unfolding put_all
sync_map o wanted current =
    put_all (o.range 7 wanted) (delete_where (λ k. not (is_some (get k wanted))) current)

-- The changes to `current`, up to ctrl.SetControllerReference. `same_spec` is equality.Semantic's
-- DeepEqual on the two Specs.
unfoldable pub mutate :
    RangeOrder → (MultiSpec → MultiSpec → Bool) → MultiPolicy → MultiPolicy → MultiPolicy
unfolding sync_map
mutate o same_spec wanted current = record current {
  labels = sync_map o wanted.labels current.labels;
  annotations = sync_map o wanted.annotations current.annotations;
  spec = if same_spec current.spec wanted.spec then current.spec else wanted.spec;
}
