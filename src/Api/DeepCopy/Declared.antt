-- ===== src/Api/DeepCopy/Declared.antt =====
-- The deep copies against the types of networkpolicy_types.go: which of their fields are references.
use mathlib.Core.Path.{subst}
use fqdn_egress_operator.Base.{[], ◌∷◌, length, ◌≡◌, refl, ap, sym}
use fqdn_egress_operator.Api.DeepCopy.{
  Slot, Store, Layout, end, plain, each, embed, Copier, MetaLayouts, network_policy,
  copy_network_policy,
}
use fqdn_egress_operator.Api.DeepCopy.Isolated.{Owns, Agrees}
use fqdn_egress_operator.Api.DeepCopy.Copied.{KeepsOld, read_pointer, deep_copy_isolated}

-- The fields of a struct: a string, number, Boolean or time; a pointer; or a slice
pub data Fields : Type 0 where
  done : Fields
  value : Fields → Fields
  pointer slice : Fields → Fields → Fields

-- The fields of an embedded struct or of one that stands in a field, and then the rest
abbrev pub within : Fields → Fields → Fields
within done rest = rest
within (value f) rest = value (within f rest)
within (pointer e f) rest = pointer e (within f rest)
within (slice e f) rest = slice e (within f rest)

-- What a deep copy of the struct has to do: every pointer and every slice gets a new array.
abbrev pub deep : Fields → Layout
deep done = end
deep (value f) = plain (deep f)
deep (pointer e f) = each (deep e) (deep f)
deep (slice e f) = each (deep e) (deep f)

abbrev one_value : Fields
one_value = value done

-- Address, MissingSince
abbrev address_entry_fields : Fields
address_entry_fields = value (pointer one_value done)

-- FQDN, FailingSince, LastTransitionTime, the reason, the message, Addresses
abbrev fqdn_status_fields : Fields
fqdn_status_fields =
    value (pointer one_value (value (value (value (slice address_entry_fields done)))))

-- Protocol, Port, EndPort
abbrev port_fields : Fields
port_fields = value (pointer one_value (pointer one_value done))

-- ToFQDNs, Ports, BlockPrivateIPs
abbrev rule_fields : Fields
rule_fields = slice one_value (slice port_fields (pointer one_value done))

-- Label, Value
abbrev match_label_fields : Fields
match_label_fields = value (value done)

-- Key, Operator, Values
abbrev requirement_fields : Fields
requirement_fields = value (value (slice one_value done))

-- TargetNetwork, Egress, MatchLabels, MatchExpressions, and five values
abbrev spec_fields : Fields
spec_fields = value (
    slice rule_fields (
      slice match_label_fields
        (slice requirement_fields (value (value (value (value (value done))))))))

-- FQDNs, the four counts, Conditions, ObservedGeneration; a Condition is declared elsewhere
abbrev status_fields : Fields → Fields
status_fields condition =
    slice fqdn_status_fields (value (value (value (value (slice condition (value done))))))

-- TypeMeta with its two strings, ObjectMeta, Spec, Status
abbrev pub policy_fields : Fields → Fields → Fields
policy_fields object_meta condition =
    value (value (within object_meta (within spec_fields (status_fields condition))))

-- The deep copies of the other packages
abbrev pub deep_meta : Fields → Fields → Fields → MetaLayouts
deep_meta object_meta list_meta condition = record {
  object_meta = deep object_meta;
  list_meta = deep list_meta;
  condition = deep condition;
}

deep-within : (f rest : Fields) → deep (within f rest) ≡ embed (deep f) (deep rest)
unfolding embed
deep-within done rest = refl
deep-within (value f) rest = ap plain (deep-within f rest)
deep-within (pointer e f) rest = ap (each (deep e)) (deep-within f rest)
deep-within (slice e f) rest = ap (each (deep e)) (deep-within f rest)

network_policy-deep :
    (object_meta list_meta condition : Fields)
    → network_policy (deep_meta object_meta list_meta condition)
      ≡ deep (policy_fields object_meta condition)
unfolding embed
network_policy-deep object_meta list_meta condition =
    ap (λ p. plain (plain p))
      (sym (deep-within object_meta (within spec_fields (status_fields condition))))

-- The copy reads as the original; it still does whatever is written later to the arrays that were there
-- before, and so does the original whatever is written to the new ones.
abbrev pub Apart : Copier → Layout → Slot → Store → Type 0
Apart copy p v h =
    let (w, k) = copy v h in
    (read_pointer p k w ≡ read_pointer p h v)
    × ((g : Store) → Agrees (length h) k g → read_pointer p g w ≡ read_pointer p h v)
    × ((g : Store) → KeepsOld (length h) k g → read_pointer p g v ≡ read_pointer p h v)

-- The copy that NetworkPolicy.DeepCopy makes reads as the original does, through every pointer and slice of
-- the types that NetworkPolicy is declared with; it still does whatever is written later to the arrays that
-- were there before, and the original still reads the same whatever is written to the new ones. The pointer
-- is nil or its struct has the declared fields; the metadata and the conditions are copied deeply by the
-- functions of their own packages.
pub network_policy_isolated :
    (object_meta list_meta condition : Fields) (v : Slot) (h : Store)
    → Owns (each (deep (policy_fields object_meta condition)) end) 0 h (v ∷ [])
    → Apart
        (copy_network_policy (deep_meta object_meta list_meta condition))
        (deep (policy_fields object_meta condition))
        v
        h
network_policy_isolated object_meta list_meta condition v h =
    let meta = deep_meta object_meta list_meta condition in
    subst (λ (p : Layout). Owns (each p end) 0 h (v ∷ []) → Apart (copy_network_policy meta) p v h)
      (network_policy-deep object_meta list_meta condition)
      (deep_copy_isolated (network_policy meta) v h)
