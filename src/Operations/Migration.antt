-- ===== src/Operations/Migration.antt =====
-- CreateMigrationOperation of internal/database/operations.go: the row of the instance is locked, so that
-- competing migrations come one after the other.
use admirald.Shared.{
  Bool, false, not, ◌&&◌, ◌||◌, Option, none, some, String, List, any, if◌then◌else◌, ◌==◌, Error,
  Result, ok, err,
}
use admirald.Instances.Instance.{CustomerApp, get_customer_app}
use admirald.Operations.Operation.{
  Operation, OperationMetadata, is_under_way, create_operation_with_metadata,
}

-- The results: the new table, `ErrMigrationConflict`, or another error.
pub data MigrationCreated : Type 0 where
  migration_created : List Operation → MigrationCreated
  migration_conflict : MigrationCreated
  migration_failed : Error → MigrationCreated

-- `node_id = source`, which is not true of NULL.
abbrev pub stands_on : String → Option String → Bool
stands_on node none = false
stands_on node (some n) = n == node

-- `SELECT EXISTS (... status IN ('pending_dispatch', 'queued', 'running'))`
abbrev pub is_active_on : String → Operation → Bool
is_active_on instance_id o = (o.instance_id == instance_id) && is_under_way o.status

abbrev pub inserted : Result (List Operation) → MigrationCreated
inserted (ok operations) = migration_created operations
inserted (err e) = migration_failed e

-- The checks on the row that was read.
unfoldable pub create_migration_on :
    List CustomerApp
    → String
    → String
    → String
    → String
    → Option OperationMetadata
    → CustomerApp
    → List Operation
    → MigrationCreated
create_migration_on apps id instance_id source_node_id admin_user metadata app operations =
    if not (stands_on source_node_id app.node_id) || not (app.technical_status == "running")
    then migration_conflict
    else if any (is_active_on instance_id) operations
    then migration_conflict
    else inserted (
        create_operation_with_metadata apps id instance_id source_node_id "migrate" "running"
          admin_user metadata operations)

unfoldable pub create_migration_operation :
    List CustomerApp
    → String
    → String
    → String
    → String
    → Option OperationMetadata
    → List Operation
    → MigrationCreated
unfolding create_migration_on
create_migration_operation apps id instance_id source_node_id admin_user metadata operations =
    elim (get_customer_app instance_id apps) [
      | none ↦ migration_conflict
      | some app ↦
          create_migration_on apps id instance_id source_node_id admin_user metadata app operations
    ]
