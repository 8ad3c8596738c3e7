-- ===== src/Fleet/Effects.antt =====
-- What HandleFleetCallback (internal/api/handlers_fleet.go) does to the instance, by the action of the
-- operation, and the status that it sets in the end. Public routes are left out.
use admirald.Shared.{
  ℕ, Bool, true, false, not, ◌&&◌, ◌||◌, Option, none, some, String, List, if◌then◌else◌, ◌==◌,
  Result, ok, err,
}
use admirald.Nodes.Capacity.{Floats}
use admirald.Queue.Publish.{Publisher, Draw}
use admirald.Instances.Instance.{
  CustomerApp, get_customer_app, update_customer_app_status, set_setup_completed,
  clear_customer_app_restart_required, update_customer_app_inspect_data,
}
use admirald.Operations.Operation.{
  Operation, create_operation_with_metadata, is_migration_suboperation,
}
use admirald.Fleet.Evidence.{ServiceImage}
use admirald.Fleet.State.{TaskResult, SetupCallbackMetadata, Control, Decoders, Catalog}
use admirald.Fleet.Backups.{handle_backup_callback}
use admirald.Fleet.Capacity.{release_capacity, handle_resize_callback}
use admirald.Fleet.Enqueue.{Prepared, starts, enqueue_task_with_id}

-- `parseSetupMetadata`
abbrev pub or_no_setup : Option SetupCallbackMetadata → SetupCallbackMetadata
or_no_setup none = record { has_setup = false; setup_failed = false; setup_error = "" }
or_no_setup (some m) = m

unfoldable pub parse_setup_metadata : Decoders → String → SetupCallbackMetadata
parse_setup_metadata dec metadata =
    or_no_setup (if metadata == "" then none else dec.setup_of metadata)

-- What is drawn or prepared for the cleanup after a failed setup.
pub record Cleanup : Type 0 where
  pub operation_id : String
  pub task_id : String
  pub draw : Draw
  pub prepared : Prepared

abbrev pub is_backup_action : String → Bool
is_backup_action action = (action == "backup_database") || (action == "backup_volumes")

abbrev pub was_setup_failed : Option CustomerApp → Bool
was_setup_failed none = false
was_setup_failed (some app) = app.technical_status == "setup_failed"

module _ {F : Type 0} (fl : Floats F) (dec : Decoders) (is_blank : String → Bool) (p : Publisher)
    (now : ℕ) (catalog : Catalog) (fresh : Cleanup) where
  -- The end of `enqueueSetupFailureCleanup`.
  unfoldable pub start_cleanup : Operation → String → Control → Result (List Operation) → Control
  start_cleanup op node s (err e) = s
  start_cleanup op node s (ok operations) =
      (enqueue_task_with_id dec.error_text is_blank p fresh.draw fresh.prepared fresh.task_id
        fresh.operation_id op.instance_id node "deprovision_app"
        (record s { operations = operations })).1

  unfoldable pub cleanup_on :
      Operation → Option (Option (List ServiceImage)) → Option String → Control → Control
  unfolding start_cleanup
  cleanup_on op (some (some services)) (some node) s =
      if node == ""
      then s
      else start_cleanup op node s (
          create_operation_with_metadata s.apps fresh.operation_id op.instance_id node
            "deprovision_app" "pending_dispatch" "system" none s.operations)
  cleanup_on op _ _ s = s

  -- `enqueueSetupFailureCleanup`; its errors are only logged.
  unfoldable pub enqueue_setup_failure_cleanup : Operation → Option CustomerApp → Control → Control
  unfolding cleanup_on
  enqueue_setup_failure_cleanup op none s = s
  enqueue_setup_failure_cleanup op (some app) s =
      cleanup_on op (catalog.services_of app.app_definition_name) app.node_id s

  -- A deprovisioned instance keeps the status of a failed setup, whose capacity is released already.
  unfoldable pub deprovision : Operation → Control → String × Control
  unfolding release_capacity
  deprovision op s =
      let app = get_customer_app op.instance_id s.apps in
      if was_setup_failed app
      then (
        "setup_failed",
        record s { apps = update_customer_app_status op.instance_id "cancelled" "" s.apps },
      )
      else (
        "deprovisioned",
        record s {
          apps = update_customer_app_status op.instance_id "cancelled" "deprovisioned" s.apps;
          nodes = release_capacity fl dec now app s.nodes;
        },
      )

  -- The next technical status, and the tables, after a success.
  unfoldable pub after_success : Operation → TaskResult → Control → String × Control
  unfolding deprovision handle_resize_callback handle_backup_callback parse_setup_metadata
  after_success op res s =
      if op.action == "provision_app"
      then (
        "running",
        if (parse_setup_metadata dec res.metadata).has_setup && not (is_migration_suboperation op)
            then record s { apps = set_setup_completed op.instance_id s.apps }
            else s,
      )
      else if starts op.action
      then (
        "running",
        if not (is_migration_suboperation op)
            then record s { apps = clear_customer_app_restart_required op.instance_id s.apps }
            else s,
      )
      else if (op.action == "stop_app") || (op.action == "pause_app")
      then ("stopped", s)
      else if op.action == "pause_app_storage"
      then ("paused_for_storage", s)
      else if op.action == "resize_app"
      then ("running", handle_resize_callback fl dec now catalog op res true s)
      else if op.action == "deprovision_app"
      then (if is_migration_suboperation op then ("", s) else deprovision op s)
      else if op.action == "restore_backup"
      then ("paused", s)
      else if op.action == "inspect_app"
      then (
        "",
        if res.metadata == "" then s else record s {
          apps = update_customer_app_inspect_data op.instance_id res.metadata s.apps;
        },
      )
      else if is_backup_action op.action
      then ("running", record s { backups = handle_backup_callback dec now op res true s.backups })
      else ("", s)

  -- A failed provisioning: the cleanup of a failed setup, and the release of the capacity.
  unfoldable pub after_failed_provision : Operation → TaskResult → Control → String × Control
  unfolding enqueue_setup_failure_cleanup release_capacity parse_setup_metadata
  after_failed_provision op res s =
      let failed_setup = (parse_setup_metadata dec res.metadata).setup_failed in
      let s1 =
        if failed_setup
        then enqueue_setup_failure_cleanup op (get_customer_app op.instance_id s.apps)
            (record s { apps = update_customer_app_status op.instance_id "cancelled" "" s.apps })
        else s in
      (
        if failed_setup then "setup_failed" else "failed",
        record s1 {
          nodes = release_capacity fl dec now (get_customer_app op.instance_id s1.apps) s1.nodes;
        },
      )

  -- The same after a failure.
  unfoldable pub after_failure : Operation → TaskResult → Control → String × Control
  unfolding after_failed_provision handle_resize_callback handle_backup_callback
  after_failure op res s =
      let part_of_migration = is_migration_suboperation op in
      if is_backup_action op.action
      then (
        if part_of_migration then "" else "running",
        record s { backups = handle_backup_callback dec now op res false s.backups },
      )
      else if op.action == "restore_backup"
      then (if part_of_migration then "" else "paused", s)
      else if (op.action == "provision_app") && not part_of_migration
      then after_failed_provision op res s
      else (
        if part_of_migration then "" else "failed",
        if op.action == "resize_app"
            then handle_resize_callback fl dec now catalog op res false s
            else s,
      )

-- The status that is set in the end.
unfoldable pub set_next_status : Operation → String × Control → Control
set_next_status op r =
    if not (r.0 == "") && not (op.action == "deprovision_app") && not (is_migration_suboperation op)
    then record (r.1) { apps = update_customer_app_status op.instance_id "" r.0 (r.1).apps }
    else r.1
