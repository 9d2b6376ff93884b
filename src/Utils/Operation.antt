-- ===== src/Utils/Operation.antt =====
-- pkg/utils/operation.go and pkg/utils/map.go: the texts of the events on an object, and the test that
-- one map holds another. The name of the object's Go type (reflect) is the argument `type_name`.
pub mod Contains
use fqdn_egress_operator.Base.{
  Text, bytes, str_eq, Bool, true, false, not, [], ◌∷◌, ◌++◌, Option, none, some, length, ltb,
  if◌then◌else◌,
}
use fqdn_egress_operator.Base.Dict.{Dict, get}
use fqdn_egress_operator.Base.Range.{RangeOrder}

-- controllerutil.OperationResult
pub data OperationResult : Type 0 where
  unchanged created updated updated_status updated_status_only : OperationResult

-- OperationErrorReason
unfoldable pub operation_error_reason : Text → Text
operation_error_reason type_name = type_name ++ bytes "Error"

abbrev reason_of : OperationResult → Text
reason_of created = bytes "Created"
reason_of updated = bytes "Updated"
reason_of updated_status = bytes "StatusUpdated"
reason_of updated_status_only = bytes "StatusUpdated"
reason_of unchanged = bytes "Unchanged"

-- OperationReason
unfoldable pub operation_reason : Text → OperationResult → Text
operation_reason type_name op = type_name ++ reason_of op

abbrev message_of : OperationResult → Text
message_of created = bytes "was created"
message_of updated = bytes "was updated"
message_of updated_status = bytes "had its status updated"
message_of updated_status_only = bytes "had its status updated"
message_of unchanged = bytes "is unchanged"

-- OperationMessage
unfoldable pub operation_message : Text → OperationResult → Text
operation_message type_name op = type_name ++ (b' ' ∷ message_of op)

-- DeletionReason
unfoldable pub deletion_reason : Text → Text
deletion_reason type_name = type_name ++ bytes "Deleted"

-- DeletionMessage
unfoldable pub deletion_message : Text → Text
deletion_message type_name = type_name ++ bytes " was removed"

-- `!ok || actual != v` is false
abbrev has_value : Option Text → Text → Bool
has_value none v = false
has_value (some actual) v = str_eq actual v

-- The loop of MapContains
unfoldable pub contains_all : Dict Text → Dict Text → Bool
contains_all superset [] = true
contains_all superset ((k, v) ∷ rest) =
    let more = contains_all superset rest in
    if not (has_value (get k superset) v) then false else more

-- MapContains
unfoldable pub map_contains : RangeOrder → Dict Text → Dict Text → Bool
unfolding contains_all
map_contains o superset subset =
    if ltb (length superset) (length subset)
    then false
    else contains_all superset (o.range 8 subset)
