-- ===== src/Fleet/Enqueue.antt =====
-- enqueueTaskWithID, enqueueRawTaskWithErr and failInstanceForTask of internal/api/handlers_tasks.go: a
-- task is recorded on its operation and published to the queue.
use admirald.Shared.{
  Bool, false, ◌&&◌, ◌||◌, Option, none, some, String, List, [], ◌∷◌, if◌then◌else◌, ◌==◌, Error,
  errorf, Result, ok, err,
}
use admirald.Queue.Command.{FleetTask}
use admirald.Queue.Publish.{Publisher, Draw, publish_task}
use admirald.Queue.Settle.{Table}
use admirald.Instances.Instance.{CustomerApp, get_customer_app, update_customer_app_status}
use admirald.Operations.Operation.{
  Operation, OperationMetadata, get_operation, is_migration_suboperation, update_operation,
  update_operation_metadata, update_operation_task_id, mark_operation_queued_if_pending_dispatch,
}
use admirald.Fleet.State.{Control}

-- What the application's definition, the secrets and the backup's target make of the task: the rest of
-- its document with the images of its services without a setup command, or the error that the
-- operation is failed with.
pub data Prepared : Type 0 where
  ready : String → List (String × String) → Prepared
  unprepared : String → Prepared

abbrev pub is_suboperation : Option Operation → Bool
is_suboperation none = false
is_suboperation (some op) = is_migration_suboperation op

unfoldable pub fail_instance_for_task : String → String → Control → Control
fail_instance_for_task op_id instance_id s =
    if is_suboperation (get_operation op_id s.operations)
    then s
    else record s { apps = update_customer_app_status instance_id "" "failed" s.apps }

abbrev pub starts : String → Bool
starts action = (action == "start_app") || (action == "resume_app") || (action == "reactivate_app")

abbrev pub needs_restarting : Option CustomerApp → Bool
needs_restarting none = false
needs_restarting (some app) = app.need_restarting

abbrev pub with_images :
    List (String × String) → Option OperationMetadata → Option OperationMetadata
with_images images none = some (record {
  resize_target_tier = none;
  migration_step = "";
  host_ports = [];
  image_definitions = images;
  rest = "";
})
with_images images (some m) = some (record m { image_definitions = images })

-- The images that a restart must show are kept with the operation.
unfoldable pub keep_images :
    String → List (String × String) → Option Operation → List Operation → List Operation
keep_images op_id images none operations = operations
keep_images op_id images (some op) operations =
    update_operation_metadata op_id (with_images images op.metadata) operations

-- The task of an operation; `verify_images`, `setup_completed` and the like are part of its body.
abbrev pub task_of : String → String → String → String → String → String → FleetTask
task_of task_id op_id instance_id node_id action body = record {
  task_id = task_id;
  operation_id = op_id;
  node_id = node_id;
  action = action;
  instance_id = instance_id;
  body = body;
  task_signature = "";
  signed_at = 0;
}

abbrev pub fail_operation : String → String → Control → Control
fail_operation op_id error_msg s = record s {
  operations = update_operation op_id "failed" error_msg s.operations;
}

module _ (error_text : Error → String) (is_blank : String → Bool) (p : Publisher) (d : Draw) where
  -- After the publication.
  unfoldable pub published_raw : FleetTask → Control → Result Table → Result (Unit {0}) × Control
  published_raw task s (err e) = (
    err (errorf "publish raw task %q: %w" (task.task_id ∷ [])),
    fail_operation task.operation_id (error_text e) s,
  )
  published_raw task s (ok commands) = (
    ok tt,
    record s {
      commands = commands;
      operations = mark_operation_queued_if_pending_dispatch task.operation_id s.operations;
    },
  )

  -- `enqueueRawTaskWithErr`
  unfoldable pub enqueue_raw_task : FleetTask → Control → Result (Unit {0}) × Control
  unfolding published_raw
  enqueue_raw_task task s =
      published_raw task
        (record s {
          operations = update_operation_task_id task.operation_id task.task_id s.operations;
        })
        (publish_task is_blank p d task s.commands)

  unfoldable pub published : FleetTask → Control → Result Table → Result (Unit {0}) × Control
  unfolding fail_instance_for_task
  published task s (err e) = (
    err (errorf "persist task to queue: %w" []),
    fail_instance_for_task task.operation_id task.instance_id
        (fail_operation task.operation_id (error_text e) s),
  )
  published task s (ok commands) = (
    ok tt,
    record s {
      commands = commands;
      operations = mark_operation_queued_if_pending_dispatch task.operation_id s.operations;
    },
  )

  -- The operations of a start that must be verified.
  unfoldable pub with_restart : FleetTask → List (String × String) → Control → List Operation
  unfolding keep_images
  with_restart task images s =
      if starts task.action && needs_restarting (get_customer_app task.instance_id s.apps)
      then keep_images task.operation_id images (get_operation task.operation_id s.operations)
          s.operations
      else s.operations

  -- `enqueueTaskWithID`
  unfoldable pub enqueue_task_with_id :
      Prepared → String → String → String → String → String → Control → Result (Unit {0}) × Control
  unfolding published with_restart fail_instance_for_task
  enqueue_task_with_id (unprepared error_msg) task_id op_id instance_id node_id action s = (
    err (errorf "prepare task: %w" []),
    fail_instance_for_task op_id instance_id (fail_operation op_id error_msg s),
  )
  enqueue_task_with_id (ready body images) task_id op_id instance_id node_id action s =
      let task = task_of task_id op_id instance_id node_id action body in
      published task
        (record s {
          operations = update_operation_task_id op_id task_id (with_restart task images s);
        })
        (publish_task is_blank p d task s.commands)
