-- ===== src/Api/DeepCopy.antt =====
-- api/v1alpha1/zz_generated.deepcopy.go: the deep copies, on a heap. A struct is the row of its fields,
-- with the fields of the structs that it embeds in place. A pointer and a slice are references to an array
-- of structs, of one struct for a pointer; a slice of strings, numbers or bytes is an array of structs of
-- one field.
pub mod Isolated
pub mod Copied
pub mod Declared
use fqdn_egress_operator.Base.{
  ℕ, zero, suc, Text, List, [], ◌∷◌, ◌++◌, map, length, Option, none, some,
}

-- One field
pub data Slot : Type 0 where
  nil : Slot
  num : ℕ → Slot
  text : Text → Slot
  ref : ℕ → Slot

abbrev pub Struct : Type 0
Struct = List Slot

-- The arrays, in the order in which they were made
abbrev pub Store : Type 0
Store = List (List Struct)

unfoldable pub array_at : ℕ → Store → List Struct
array_at l [] = []
array_at zero (a ∷ h) = a
array_at (suc l) (a ∷ h) = array_at l h

-- What DeepCopyInto does with the fields, one after the other: `*out = *in` is enough for it, or where it is
-- not nil, a new array is made and each element copied by its own layout.
pub data Layout : Type 0 where
  end : Layout
  plain : Layout → Layout
  each : Layout → Layout → Layout

-- The fields of an embedded struct, and then the rest.
unfoldable pub embed : Layout → Layout → Layout
embed end rest = rest
embed (plain p) rest = plain (embed p rest)
embed (each e p) rest = each e (embed p rest)

-- `for i := range *in { (*in)[i].DeepCopyInto(&(*out)[i]) }`
unfoldable pub copy_all :
    (Struct → Store → Struct × Store) → List Struct → Store → List Struct × Store
copy_all copy [] h = ([], h)
copy_all copy (s ∷ rest) h =
    let (t, h') = copy s h in let (more, h'') = copy_all copy rest h' in (t ∷ more, h'')

-- DeepCopyInto of a type with the given layout: the copy and the store after it
unfoldable pub deep_copy_into : Layout → Struct → Store → Struct × Store
unfolding copy_all array_at
deep_copy_into (plain p) (s ∷ fields) h =
    let (copied, h') = deep_copy_into p fields h in (s ∷ copied, h')
deep_copy_into (each e p) (ref l ∷ fields) h =
    let (elements, h') = copy_all (deep_copy_into e) (array_at l h) h in
    let (copied, h'') = deep_copy_into p fields (h' ++ (elements ∷ [])) in
    (ref (length h') ∷ copied, h'')
deep_copy_into (each e p) (s ∷ fields) h =
    let (copied, h') = deep_copy_into p fields h in (s ∷ copied, h')
deep_copy_into _ fields h = (fields, h)

-- DeepCopy of a pointer: nil for nil, else a new struct
unfoldable pub deep_copy : Layout → Slot → Store → Slot × Store
unfolding deep_copy_into
deep_copy p (ref l) h =
    let (elements, h') = copy_all (deep_copy_into p) (array_at l h) h in
    (ref (length h'), h' ++ (elements ∷ []))
deep_copy p s h = (s, h)

-- DeepCopyInto of a slice type: a new array, also for nil
unfoldable pub deep_copy_list_into : Layout → Slot → Store → Slot × Store
deep_copy_list_into p (ref l) h =
    let (elements, h') = copy_all (deep_copy_into p) (array_at l h) h in
    (ref (length h'), h' ++ (elements ∷ []))
deep_copy_list_into p s h = (ref (length h), h ++ ([] ∷ []))

-- DeepCopy of a slice type, which does not call it for nil
unfoldable pub deep_copy_list : Layout → Slot → Store → Slot × Store
unfolding deep_copy_list_into
deep_copy_list p nil h = (nil, h)
deep_copy_list p s h = deep_copy_list_into p s h

-- A slice of values without references
abbrev pub values_then : Layout → Layout
values_then rest = each (plain end) rest

abbrev pub address_entry : Layout
address_entry = plain (values_then end)

abbrev pub cidr : Layout
cidr = values_then (plain end)

-- The elements of a CIDRList are pointers.
abbrev pub cidr_list : Slot → Store → Slot × Store
cidr_list = deep_copy_list_into (each cidr end)

abbrev pub policy_port : Layout
policy_port = plain (values_then (values_then end))

abbrev pub egress_rule : Layout
egress_rule = values_then (each policy_port (values_then end))

abbrev pub fqdn_status : Layout
fqdn_status = plain (values_then (plain (plain (plain (each address_entry end)))))

abbrev pub fqdn_status_list : Slot → Store → Slot × Store
fqdn_status_list = deep_copy_list_into fqdn_status

abbrev pub label_selector_requirement : Layout
label_selector_requirement = plain (plain (values_then end))

abbrev pub match_label : Layout
match_label = plain (plain end)

abbrev pub network_policy_spec : Layout
network_policy_spec = plain (
    each egress_rule (
      each match_label
        (each label_selector_requirement (plain (plain (plain (plain (plain end))))))))

-- metav1.Condition and the metadata have a DeepCopyInto of their own package.
pub record MetaLayouts : Type 0 where
  pub object_meta : Layout
  pub list_meta : Layout
  pub condition : Layout

abbrev pub network_policy_status : MetaLayouts → Layout
network_policy_status meta =
    each fqdn_status (plain (plain (plain (plain (each meta.condition (plain end))))))

-- TypeMeta is two strings.
abbrev pub network_policy : MetaLayouts → Layout
network_policy meta =
    plain (plain (embed meta.object_meta (embed network_policy_spec (network_policy_status meta))))

abbrev pub network_policy_list : MetaLayouts → Layout
network_policy_list meta = plain (plain (embed meta.list_meta (each (network_policy meta) end)))

-- The DeepCopy of each type
abbrev pub Copier : Type 0
Copier = Slot → Store → Slot × Store

abbrev pub copy_address_entry : Copier
copy_address_entry = deep_copy address_entry

abbrev pub copy_cidr : Copier
copy_cidr = deep_copy cidr

abbrev pub copy_cidr_list : Copier
copy_cidr_list = deep_copy_list (each cidr end)

abbrev pub copy_egress_rule : Copier
copy_egress_rule = deep_copy egress_rule

abbrev pub copy_fqdn_status : Copier
copy_fqdn_status = deep_copy fqdn_status

abbrev pub copy_fqdn_status_list : Copier
copy_fqdn_status_list = deep_copy_list fqdn_status

abbrev pub copy_label_selector_requirement : Copier
copy_label_selector_requirement = deep_copy label_selector_requirement

abbrev pub copy_match_label : Copier
copy_match_label = deep_copy match_label

abbrev pub copy_policy_port : Copier
copy_policy_port = deep_copy policy_port

abbrev pub copy_network_policy_spec : Copier
copy_network_policy_spec = deep_copy network_policy_spec

module _ (meta : MetaLayouts) where
  abbrev pub copy_network_policy_status : Copier
  copy_network_policy_status = deep_copy (network_policy_status meta)

  abbrev pub copy_network_policy : Copier
  copy_network_policy = deep_copy (network_policy meta)

  abbrev pub copy_network_policy_list : Copier
  copy_network_policy_list = deep_copy (network_policy_list meta)

-- DeepCopyObject: the nil interface for a nil pointer, else the copy
unfoldable pub as_object : Slot × Store → Option Slot × Store
as_object (nil, h) = (none, h)
as_object (s, h) = (some s, h)

module _ (meta : MetaLayouts) where
  unfoldable pub copy_policy_object : Slot → Store → Option Slot × Store
  unfolding as_object
  copy_policy_object s h = as_object (copy_network_policy meta s h)

  unfoldable pub copy_policy_list_object : Slot → Store → Option Slot × Store
  unfolding as_object
  copy_policy_list_object s h = as_object (copy_network_policy_list meta s h)
