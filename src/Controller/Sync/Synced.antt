-- ===== src/Controller/Sync/Synced.antt =====
-- What the function that CreateOrUpdate is given makes of the current object.
use fqdn_egress_operator.Base.{
  Text, str_eq, eq_of_str_eq, Bool, true, not, is_some, [], ◌∷◌, if◌then◌else◌, ◌≡◌, refl, ap, sym,
  ◌∙◌, inl, inr, arith, any, any-perm, mem-perm, All, All-of_mem, Bool-cases, Option-cases, some,
}
use fqdn_egress_operator.Base.Dict.{
  Dict, get, put, get-put, get-mem, get-delete_where, delete_where, UniqueKeys,
}
use fqdn_egress_operator.Base.Keys.{any-keys}
use fqdn_egress_operator.Base.Range.{RangeOrder}
use fqdn_egress_operator.Multi.{MultiSpec, MultiPolicy}
use fqdn_egress_operator.Controller.Sync.{put_all, sync_map, mutate}

put_all-get :
    (wanted entries current : Dict Text) (j : Text)
    → All (λ (e : Text × Text). get e.0 wanted ≡ some e.1) entries
    → get j (put_all entries current)
      ≡ (if any (λ (e : Text × Text). str_eq e.0 j) entries then get j wanted else get j current)
unfolding put_all any
put_all-get wanted [] current j g = refl
put_all-get wanted ((k, v) ∷ rest) current j g =
    let ih = put_all-get wanted rest (put k v current) j g.1 in
    elim (Bool-cases (str_eq k j)) [
      | inl q ↦
          let same : get j wanted ≡ some v =
            ap (λ (t : Text). get t wanted) (sym (eq_of_str_eq k j q)) ∙ g.0 in
          ground (arith, ih, get-put k j v current, q, same)
      | inr q ↦ ground (arith, ih, get-put k j v current, q)
    ]

sync_map-get :
    (o : RangeOrder) (wanted current : Dict Text) (j : Text)
    → UniqueKeys wanted
    → get j (sync_map o wanted current) ≡ get j wanted
unfolding sync_map
sync_map-get o wanted current j u =
    let all =
      All-of_mem (λ (e : Text × Text). get e.0 wanted ≡ some e.1) (o.range 7 wanted)
        λ (k, v) m. get-mem k v wanted u (mem-perm (o.range-perm 7 wanted) m) in
    ground (
      arith,
      put_all-get wanted (o.range 7 wanted)
          (delete_where (λ k. not (is_some (get k wanted))) current) j all,
      any-perm (λ (e : Text × Text). str_eq e.0 j) (o.range-perm 7 wanted),
      any-keys j wanted,
      get-delete_where (λ k. not (is_some (get k wanted))) j current,
      Option-cases (get j wanted),
    )

-- Whatever object the cluster holds, afterwards its labels and its annotations are, key by key, those
-- of the wanted object and nothing else, its spec is the wanted one, and its name and namespace are
-- its own; when equality.Semantic's DeepEqual on specs is sound and the wanted maps are Go maps, which
-- have each key once.
pub mutate_lem :
    (o : RangeOrder) (same_spec : MultiSpec → MultiSpec → Bool) (wanted current : MultiPolicy)
    (k : Text)
    → ((s t : MultiSpec) → same_spec s t ≡ true → s ≡ t)
    → UniqueKeys wanted.labels
    → UniqueKeys wanted.annotations
    → let new = mutate o same_spec wanted current in
      (get k new.labels ≡ get k wanted.labels)
      × (get k new.annotations ≡ get k wanted.annotations)
      × (new.spec ≡ wanted.spec)
      × (new.name ≡ current.name)
      × (new.namespace ≡ current.namespace)
unfolding mutate
mutate_lem o same_spec wanted current k sound u v = (
  sync_map-get o wanted.labels current.labels k u,
  sync_map-get o wanted.annotations current.annotations k v,
  elim (Bool-cases (same_spec current.spec wanted.spec)) [
    | inl e ↦ rw e (sound current.spec wanted.spec e)
    | inr e ↦ rw e refl
  ],
  refl,
  refl,
)
