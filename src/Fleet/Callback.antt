-- ===== src/Fleet/Callback.antt =====
-- HandleFleetCallback of internal/api/handlers_fleet.go: the result that a node reports for a task. The
-- database answers, and logging is left out.
use Prim.Native.String.{◌++◌}
use admirald.Shared.{
  ℕ, Bool, false, not, ◌&&◌, ◌||◌, Option, none, some, String, List, [], if◌then◌else◌, ◌==◌,
  Result, ok, err,
}
use admirald.Nodes.Capacity.{Floats}
use admirald.Queue.Publish.{Publisher}
use admirald.Queue.Settle.{complete_task, acknowledge_task_for_node, cancel_task_for_node}
use admirald.Instances.Instance.{CustomerApp, get_customer_app}
use admirald.Operations.Operation.{
  Operation, OperationMetadata, get_operation, is_over, is_migration_suboperation, update_operation,
  update_operation_metadata,
}
use admirald.Fleet.Evidence.{validate_restart_image_evidence}
use admirald.Fleet.State.{TaskResult, Control, Decoders, Catalog}
use admirald.Fleet.Capacity.{or_unchanged}
use admirald.Fleet.Enqueue.{starts, fail_operation}
use admirald.Fleet.Effects.{Cleanup, after_success, after_failure, set_next_status}

-- The answers by their HTTP status: 403, 404, and 200 with or without the mark of a duplicate.
pub data CallbackAnswer : Type 0 where
  wrong_identity unknown_operation duplicate wrong_node wrong_task accepted : CallbackAnswer

-- `failFleetCallbackTask`; an error is only logged.
unfoldable pub fail_fleet_callback_task : ℕ → String → String → Control → Control
fail_fleet_callback_task now task_id reason s = if task_id == "" then s else record s {
  commands = or_unchanged (complete_task now task_id false reason s.commands) s.commands;
}

-- `ok && (authenticatedNodeID == "" || res.NodeID != authenticatedNodeID)`
abbrev pub is_impostor : Option String → String → Bool
is_impostor none node = false
is_impostor (some authenticated) node = (authenticated == "") || not (node == authenticated)

-- A callback for an operation that has ended: only the command of the task is settled.
unfoldable pub acknowledge_duplicate : ℕ → Operation → TaskResult → Control → Control
acknowledge_duplicate now op res s = record s {
  commands =
      if op.status == "succeeded"
      then acknowledge_task_for_node now res.task_id res.node_id s.commands
      else cancel_task_for_node now res.task_id res.node_id ("operation is terminal: " ++ op.status)
          s.commands;
}

-- A callback from another node, or for another task, fails the operation and its task.
unfoldable pub reject : ℕ → Operation → String → Control → Control
unfolding fail_fleet_callback_task
reject now op reason s =
    fail_operation op.id reason (fail_fleet_callback_task now op.task_id reason s)

abbrev pub asked_images : Option OperationMetadata → List (String × String)
asked_images none = []
asked_images (some m) = m.image_definitions

abbrev pub definition_name : Option CustomerApp → String
definition_name none = ""
definition_name (some app) = app.app_definition_name

abbrev pub restarting_of : Option CustomerApp → Option Bool
restarting_of none = none
restarting_of (some app) = some app.need_restarting

-- A success without the evidence that a restart needs is turned into a failure.
abbrev pub unless_refused : Decoders → TaskResult → Result (Unit {0}) → TaskResult
unless_refused dec res (ok _) = res
unless_refused dec res (err e) = record res { success = false; error = dec.error_text e }

unfoldable pub verified : Decoders → Catalog → Operation → TaskResult → Control → TaskResult
verified dec catalog op res s =
    if res.success && starts op.action
    then (let app = get_customer_app op.instance_id s.apps in
        unless_refused dec res (
          validate_restart_image_evidence (restarting_of app) (dec.images_of res.metadata)
            (asked_images op.metadata) (definition_name app)
            (catalog.services_of (definition_name app))))
    else res

-- The start of a migrated instance reports the ports of the target.
abbrev pub or_no_ports : Option (List (String × ℕ)) → List (String × ℕ)
or_no_ports none = []
or_no_ports (some ports) = ports

abbrev pub with_ports : List (String × ℕ) → Option OperationMetadata → Option OperationMetadata
with_ports ports none = none
with_ports ports (some m) = some (record m { host_ports = ports })

abbrev pub reports_ports : Operation → TaskResult → Bool
reports_ports op res =
    res.success
    && is_migration_suboperation op
    && ((op.action == "start_app") || (op.action == "resume_app"))

unfoldable pub record_ports : Decoders → Operation → TaskResult → Operation
record_ports dec op res =
    if reports_ports op res
    then record op {
      metadata = with_ports (or_no_ports (dec.host_ports_of res.metadata)) op.metadata;
    }
    else op

unfoldable pub ports_recorded : Decoders → Operation → TaskResult → List Operation → List Operation
unfolding record_ports
ports_recorded dec op res operations =
    if reports_ports op res
    then update_operation_metadata op.id (record_ports dec op res).metadata operations
    else operations

module _ {F : Type 0} (fl : Floats F) (dec : Decoders) (is_blank : String → Bool) (p : Publisher)
    (now : ℕ) (catalog : Catalog) (fresh : Cleanup) where
  -- The task and the operation are settled.
  unfoldable pub settle_operation : Operation → TaskResult → Control → Control
  unfolding ports_recorded
  settle_operation op res s = record s {
    commands =
        or_unchanged (complete_task now res.task_id res.success res.error s.commands) s.commands;
    operations =
        update_operation res.operation_id (if res.success then "succeeded" else "failed") res.error
          (ports_recorded dec op res s.operations);
  }

  unfoldable pub apply_result : Operation → TaskResult → Control → Control
  unfolding settle_operation record_ports after_success after_failure set_next_status
  apply_result op res s =
      let settled = settle_operation op res s in
      let described = record_ports dec op res in
      set_next_status described (
        if res.success
        then after_success fl dec is_blank p now catalog fresh described res settled
        else after_failure fl dec is_blank p now catalog fresh described res settled)

  unfoldable pub callback_on : TaskResult → Option Operation → Control → CallbackAnswer × Control
  unfolding acknowledge_duplicate reject apply_result verified fail_fleet_callback_task
  callback_on res none s = (
    unknown_operation,
    fail_fleet_callback_task now res.task_id "callback references an unknown operation" s,
  )
  callback_on res (some op) s =
      if is_over op.status
      then (duplicate, acknowledge_duplicate now op res s)
      else if not (op.node_id == "") && not (op.node_id == res.node_id)
      then (wrong_node, reject now op "callback node_id does not match operation" s)
      else if not (op.task_id == "") && not (op.task_id == res.task_id)
      then (wrong_task, reject now op "callback task_id does not match operation" s)
      else (accepted, apply_result op (verified dec catalog op res s) s)

  -- `HandleFleetCallback`, after the body is decoded.
  unfoldable pub handle_fleet_callback :
      Option String → TaskResult → Control → CallbackAnswer × Control
  unfolding callback_on fail_fleet_callback_task
  handle_fleet_callback authenticated res s =
      if is_impostor authenticated res.node_id
      then (
        wrong_identity,
        fail_fleet_callback_task now res.task_id
            "callback node_id does not match authenticated node" s,
      )
      else callback_on res (get_operation res.operation_id s.operations) s
