-- ===== src/Fleet/Stale.antt =====
-- staleTaskReason of internal/api/handlers_fleet.go and the checks of HandleTaskClaim on the instance: why
-- a claimed task is not handed out. The empty text says that it is.
use Prim.Native.String.{◌++◌}
use admirald.Shared.{not, ◌&&◌, Option, none, some, String, List, if◌then◌else◌, ◌==◌}
use admirald.Shared.Text.{trim_space}
use admirald.Queue.Command.{FleetTask}
use admirald.Instances.Instance.{CustomerApp, get_customer_app}
use admirald.Operations.Operation.{Operation, get_operation, is_over}

-- The checks of a task against its operation, in their order.
unfoldable pub stale_task_reason : FleetTask → Option Operation → String → String
stale_task_reason task none node = "operation no longer exists"
stale_task_reason task (some op) node =
    if is_over op.status
    then "operation is terminal: " ++ op.status
    else if not (op.instance_id == task.instance_id)
    then "task instance does not match operation"
    else if not (op.node_id == "") && not (op.node_id == node)
    then "operation is assigned to another node"
    else if not (task.node_id == "") && not (task.node_id == node)
    then "task is assigned to another node"
    else if not (op.action == task.action)
    then "task action does not match operation"
    else if trim_space op.task_id == ""
    then "operation task ID is missing"
    else if trim_space task.task_id == ""
    then "claimed task ID is missing"
    else if not (op.task_id == task.task_id)
    then "task was replaced by a newer operation task"
    else ""

-- The instance of a task: it exists, and is deprovisioned only for the deletion of a backup.
unfoldable pub instance_reason : String → Option CustomerApp → String
instance_reason action none = "instance no longer exists"
instance_reason action (some app) =
    if (app.technical_status == "deprovisioned") && not (action == "delete_backup")
    then "instance is already deprovisioned"
    else ""

unfoldable pub discard_reason : List Operation → List CustomerApp → String → FleetTask → String
unfolding stale_task_reason instance_reason
discard_reason operations apps node task =
    let reason = stale_task_reason task (get_operation task.operation_id operations) node in
    if (reason == "") && not (task.action == "test_backup_storage")
    then instance_reason task.action (get_customer_app task.instance_id apps)
    else reason
