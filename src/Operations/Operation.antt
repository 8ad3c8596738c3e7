-- ===== src/Operations/Operation.antt =====
-- Operation, OperationMetadata and the statements of internal/database/operations.go. A statement that
-- violates the primary key or the foreign key fails.
use admirald.Shared.{
  ℕ, Bool, not, ◌&&◌, ◌||◌, Option, none, some, String, List, [], ◌∷◌, ◌++◌, any, find,
  if◌then◌else◌, ◌==◌, keep, update_where, Result, ok, err, errorf,
}
use admirald.Shared.Text.{trim_space}
use admirald.Nodes.Select.{Tier}
use admirald.Instances.Instance.{CustomerApp, is_app}

-- The fields that the model reads; `rest` stands for the others. Metadata whose fields are all empty is
-- stored like none at all.
pub record OperationMetadata : Type 0 where
  pub resize_target_tier : Option Tier
  pub migration_step : String
  pub host_ports : List (String × ℕ)
  pub image_definitions : List (String × String)
  pub rest : String

-- An `instance_id` of NULL is read as the empty text.
pub record Operation : Type 0 where
  pub id : String
  pub instance_id : String
  pub node_id : String
  pub task_id : String
  pub action : String
  pub status : String
  pub error_message : Option String
  pub admin_user : String
  pub metadata : Option OperationMetadata

abbrev pub is_operation : String → Operation → Bool
is_operation id o = o.id == id

abbrev pub get_operation : String → List Operation → Option Operation
get_operation id operations = find (is_operation id) operations

-- Whether a row may be inserted: its ID is new, and its instance, if it has one, exists.
abbrev pub may_insert : List CustomerApp → Operation → List Operation → Bool
may_insert apps o operations =
    not (any (is_operation o.id) operations)
    && ((o.instance_id == "") || any (is_app o.instance_id) apps)

-- `CreateOperationWithMetadata`; `CreateOperation` is the case of no metadata.
unfoldable pub create_operation_with_metadata :
    List CustomerApp
    → String
    → String
    → String
    → String
    → String
    → String
    → Option OperationMetadata
    → List Operation
    → Result (List Operation)
create_operation_with_metadata apps id instance_id node_id action status admin_user metadata
      operations =
    let o : Operation = record {
      id = id;
      instance_id = instance_id;
      node_id = node_id;
      task_id = "";
      action = action;
      status = status;
      error_message = none;
      admin_user = admin_user;
      metadata = metadata;
    } in
    if may_insert apps o operations
    then ok (operations ++ o ∷ [])
    else err (errorf "create operation: %w" [])

unfoldable pub update_operation_metadata :
    String → Option OperationMetadata → List Operation → List Operation
update_operation_metadata id metadata =
    update_where (is_operation id) (λ o. record o { metadata = metadata })

unfoldable pub update_operation_task_id : String → String → List Operation → List Operation
update_operation_task_id id task_id =
    update_where (is_operation id) (λ o. record o { task_id = task_id })

-- `NULLIF(s, '')`
abbrev pub null_if_empty : String → Option String
null_if_empty s = if s == "" then none else some s

unfoldable pub update_operation : String → String → String → List Operation → List Operation
update_operation id status error_msg =
    update_where (is_operation id)
      (λ o. record o { status = status; error_message = null_if_empty error_msg })

unfoldable pub mark_operation_queued_if_pending_dispatch : String → List Operation → List Operation
mark_operation_queued_if_pending_dispatch id =
    update_where (λ o. is_operation id o && (o.status == "pending_dispatch"))
      λ o. record o { status = "queued"; error_message = none }

unfoldable pub get_running_operations_by_instance : String → List Operation → List Operation
get_running_operations_by_instance instance_id operations =
    keep (λ o. (o.instance_id == instance_id) && (o.status == "running")) operations

-- The statuses at which an operation has ended.
abbrev pub is_over : String → Bool
is_over status = (status == "succeeded") || (status == "failed") || (status == "cancelled")

-- `status IN ('pending_dispatch', 'queued', 'running')`
abbrev pub is_under_way : String → Bool
is_under_way status =
    (status == "pending_dispatch") || (status == "queued") || (status == "running")

-- `isMigrationSuboperation`
abbrev step_of : Option OperationMetadata → String
step_of none = ""
step_of (some m) = m.migration_step

unfoldable pub is_migration_suboperation : Operation → Bool
is_migration_suboperation o = not (trim_space (step_of o.metadata) == "")
