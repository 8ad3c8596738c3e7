-- ===== src/Fleet/Aftermath.antt =====
-- The effects of a callback on the instance (internal/api/handlers_fleet.go) keep the operations that are
-- recorded.
use mathlib.Core.Path.{subst}
use admirald.Shared.{
  ℕ, ◌≡◌, refl, sym, inl, inr, Bool, true, false, not, ◌&&◌, ◌||◌, Option, none, some, String, List,
  [], ◌∷◌, ◌++◌, any, arith, if◌then◌else◌, ◌==◌, Bool-cases, if_both, find-append_first, Result,
  ok, err,
}
use admirald.Nodes.Capacity.{Floats}
use admirald.Nodes.Select.{Tier}
use admirald.Queue.Publish.{Publisher}
use admirald.Instances.Instance.{CustomerApp, get_customer_app, update_customer_app_status}
use admirald.Operations.Operation.{
  Operation, is_operation, create_operation_with_metadata, is_migration_suboperation,
}
use admirald.Fleet.Evidence.{ServiceImage}
use admirald.Fleet.State.{TaskResult, Control, Decoders, Catalog}
use admirald.Fleet.Capacity.{
  resize_to, resize_on, resize_with, handle_resize_callback, parse_resize_target_tier,
}
use admirald.Fleet.Enqueue.{starts}
use admirald.Fleet.Effects.{
  Cleanup, start_cleanup, cleanup_on, enqueue_setup_failure_cleanup, deprovision, after_success,
  after_failed_provision, after_failure, set_next_status, parse_setup_metadata, was_setup_failed,
  is_backup_action,
}
use admirald.Fleet.Kept.{Recorded, Recorded-fresh, enqueue_task_with_id-Recorded}

-- What holds of the operations of some tables, also where a test chooses between tables.
data OnTables (P : List Operation → Type 0) : Control → Type 0 where
  on_tables : {u : Control} → P u.operations → OnTables P u

data OnOutcome (P : List Operation → Type 0) : String × Control → Type 0 where
  on_outcome : {r : String × Control} → P r.1.operations → OnOutcome P r

of_tables : {P : List Operation → Type 0} {u : Control} → OnTables P u → P u.operations
of_tables (on_tables h) = h

of_outcome : {P : List Operation → Type 0} {r : String × Control} → OnOutcome P r → P r.1.operations
of_outcome (on_outcome h) = h

with_status :
    {P : List Operation → Type 0} {status : String} {u : Control}
    → OnTables P u
    → OnOutcome P (status, u)
with_status (on_tables h) = on_outcome h

module _ {F : Type 0} (fl : Floats F) (dec : Decoders) (now : ℕ) where
  resize_to-operations :
      (op : Operation) (node : String) (app : CustomerApp) (target : Option Tier) (s : Control)
      → (resize_to fl dec now op node app target s).operations ≡ s.operations
  unfolding resize_to
  resize_to-operations op node app none s = refl
  resize_to-operations op node app (some target) s = refl

  resize_on-operations :
      (catalog : Catalog) (op : Operation) (success : Bool) (target : Tier) (app : CustomerApp)
      (node : Option String) (s : Control)
      → (resize_on fl dec now catalog op success target app node s).operations ≡ s.operations
  unfolding resize_on
  resize_on-operations catalog op success target app none s = refl
  resize_on-operations catalog op true target app (some host) s =
      resize_to-operations op host app _ s
  resize_on-operations catalog op false target app (some _) s = refl

  resize_with-operations :
      (catalog : Catalog) (op : Operation) (success : Bool) (target : Option Tier)
      (app : Option CustomerApp) (s : Control)
      → (resize_with fl dec now catalog op success target app s).operations ≡ s.operations
  unfolding resize_with
  resize_with-operations catalog op success none app s = refl
  resize_with-operations catalog op success (some target) none s = refl
  resize_with-operations catalog op success (some target) (some app) s =
      resize_on-operations catalog op success target app app.node_id s

  handle_resize_callback-operations :
      (catalog : Catalog) (op : Operation) (res : TaskResult) (success : Bool) (s : Control)
      → (handle_resize_callback fl dec now catalog op res success s).operations ≡ s.operations
  unfolding handle_resize_callback
  handle_resize_callback-operations catalog op res success s =
      resize_with-operations catalog op success (parse_resize_target_tier dec res.metadata)
        (get_customer_app op.instance_id s.apps) s

module _ {F : Type 0} (fl : Floats F) (dec : Decoders) (is_blank : String → Bool) (p : Publisher)
    (now : ℕ) (catalog : Catalog) (fresh : Cleanup) (o : Operation) where
  start_cleanup-Recorded :
      (op : Operation) (node : String) (s : Control) (r : Result (List Operation))
      → create_operation_with_metadata s.apps fresh.operation_id op.instance_id node
          "deprovision_app" "pending_dispatch" "system" none s.operations
        ≡ r
      → Recorded o s.operations
      → Recorded o (start_cleanup fl dec is_blank p now catalog fresh op node s r).operations
  unfolding start_cleanup create_operation_with_metadata
  start_cleanup-Recorded op node s (err e) made found = found
  start_cleanup-Recorded op node s (ok operations) made found =
      let row : Operation = record {
        id = fresh.operation_id;
        instance_id = op.instance_id;
        node_id = node;
        task_id = "";
        action = "deprovision_app";
        status = "pending_dispatch";
        error_message = none;
        admin_user = "system";
        metadata = none;
      } in
      let is_new : any (is_operation fresh.operation_id) s.operations ≡ false = ground arith in
      let same : s.operations ++ row ∷ [] ≡ operations = ground arith in
      enqueue_task_with_id-Recorded dec.error_text is_blank p fresh.draw o fresh.prepared
        fresh.task_id fresh.operation_id op.instance_id node "deprovision_app"
        (record s { operations = operations })
        (Recorded-fresh o fresh.operation_id s.operations is_new found)
        (subst (λ l. Recorded o l) same
          (find-append_first (is_operation o.id) s.operations (row ∷ []) o found))

  cleanup_on-Recorded :
      (op : Operation) (services : Option (Option (List ServiceImage))) (node : Option String)
      (s : Control)
      → Recorded o s.operations
      → Recorded o (cleanup_on fl dec is_blank p now catalog fresh op services node s).operations
  unfolding cleanup_on
  cleanup_on-Recorded op none _ s found = found
  cleanup_on-Recorded op (some none) _ s found = found
  cleanup_on-Recorded op (some (some services)) none s found = found
  cleanup_on-Recorded op (some (some services)) (some host) s found =
      elim (Bool-cases (host == "")) [
        | inl h ↦ rw (cleanup_on, h) found
        | inr h ↦ rw (cleanup_on, h) (start_cleanup-Recorded op host s _ refl found)
      ]

  cleanup-Recorded :
      (op : Operation) (app : Option CustomerApp) (s : Control)
      → Recorded o s.operations
      → Recorded o
          (enqueue_setup_failure_cleanup fl dec is_blank p now catalog fresh op app s).operations
  unfolding enqueue_setup_failure_cleanup
  cleanup-Recorded op none s found = found
  cleanup-Recorded op (some app) s found =
      cleanup_on-Recorded op (catalog.services_of app.app_definition_name) app.node_id s found

  deprovision-operations :
      (op : Operation) (s : Control)
      → (deprovision fl dec is_blank p now catalog fresh op s).1.operations ≡ s.operations
  unfolding deprovision
  deprovision-operations op s =
      elim (Bool-cases (was_setup_failed (get_customer_app op.instance_id s.apps))) [
        | inl h ↦ rw (deprovision, h) refl
        | inr h ↦ rw (deprovision, h) refl
      ]

  after_success-operations :
      (op : Operation) (res : TaskResult) (s : Control)
      → (after_success fl dec is_blank p now catalog fresh op res s).1.operations ≡ s.operations
  unfolding after_success
  after_success-operations op res s =
      let resized = handle_resize_callback-operations fl dec now catalog op res true s in
      let removed = deprovision-operations op s in
      let P = OnOutcome (λ l. l ≡ s.operations) in
      let Q = OnTables (λ l. l ≡ s.operations) in
      of_outcome {P = λ l. l ≡ s.operations}
        {r = after_success fl dec is_blank p now catalog fresh op res s}
        (if_both P (op.action == "provision_app") _ _
          (with_status (
            if_both Q
              ((parse_setup_metadata dec res.metadata).has_setup
                && not (is_migration_suboperation op))
              _ _ (on_tables refl) (on_tables refl)))
          (if_both P (starts op.action) _ _
            (with_status (
              if_both Q (not (is_migration_suboperation op)) _ _ (on_tables refl) (on_tables refl)))
            (if_both P ((op.action == "stop_app") || (op.action == "pause_app")) _ _
              (on_outcome refl)
              (if_both P (op.action == "pause_app_storage") _ _ (on_outcome refl) (
                if_both P (op.action == "resize_app") _ _ (on_outcome resized) (
                  if_both P (op.action == "deprovision_app") _ _
                    (if_both P (is_migration_suboperation op) _ _ (on_outcome refl)
                      (on_outcome removed))
                    (if_both P (op.action == "restore_backup") _ _ (on_outcome refl) (
                      if_both P (op.action == "inspect_app") _ _
                        (with_status
                          (if_both Q (res.metadata == "") _ _ (on_tables refl) (on_tables refl)))
                        (if_both P (is_backup_action op.action) _ _ (on_outcome refl)
                          (on_outcome refl))))))))))

  after_failed_provision-Recorded :
      (op : Operation) (res : TaskResult) (s : Control)
      → Recorded o s.operations
      → Recorded o
          (after_failed_provision fl dec is_blank p now catalog fresh op res s).1.operations
  unfolding after_failed_provision
  after_failed_provision-Recorded op res s found =
      elim (Bool-cases ((parse_setup_metadata dec res.metadata).setup_failed)) [
        | inl h ↦
            rw (after_failed_provision, h)
              (cleanup-Recorded op (get_customer_app op.instance_id s.apps)
                (record s {
                  apps = update_customer_app_status op.instance_id "cancelled" "" s.apps;
                })
                found)
        | inr h ↦ rw (after_failed_provision, h) found
      ]

  after_failure-Recorded :
      (op : Operation) (res : TaskResult) (s : Control)
      → Recorded o s.operations
      → Recorded o (after_failure fl dec is_blank p now catalog fresh op res s).1.operations
  unfolding after_failure
  after_failure-Recorded op res s found =
      let resized = handle_resize_callback-operations fl dec now catalog op res false s in
      let failed = after_failed_provision-Recorded op res s found in
      let P = OnOutcome (Recorded o) in
      let Q = OnTables (Recorded o) in
      of_outcome {P = Recorded o} {r = after_failure fl dec is_blank p now catalog fresh op res s} (
        if_both P (is_backup_action op.action) _ _ (on_outcome found) (
          if_both P (op.action == "restore_backup") _ _ (on_outcome found) (
            if_both P ((op.action == "provision_app") && not (is_migration_suboperation op)) _ _
              (on_outcome failed)
              (with_status (
                if_both Q (op.action == "resize_app") _ _
                  (on_tables (subst (λ l. Recorded o l) (sym resized) found)) (on_tables found))))))

  set_next_status-Recorded :
      (op : Operation) (r : String × Control)
      → Recorded o r.1.operations
      → Recorded o (set_next_status op r).operations
  unfolding set_next_status
  set_next_status-Recorded op r found = of_tables {P = Recorded o} {u = set_next_status op r} (
      if_both (OnTables (Recorded o))
        (not (r.0 == "")
          && not (op.action == "deprovision_app")
          && not (is_migration_suboperation op))
        _ _ (on_tables found) (on_tables found))

  -- The aftermath of a result keeps every recorded operation.
  pub aftermath-Recorded :
      (op : Operation) (res : TaskResult) (s : Control)
      → Recorded o s.operations
      → Recorded o
          (set_next_status op (
            if res.success
            then after_success fl dec is_blank p now catalog fresh op res s
            else after_failure fl dec is_blank p now catalog fresh op res s)).operations
  unfolding set_next_status
  aftermath-Recorded op res s found = set_next_status-Recorded op _ (
      of_outcome {P = Recorded o}
        {r = if res.success
          then after_success fl dec is_blank p now catalog fresh op res s
          else after_failure fl dec is_blank p now catalog fresh op res s}
        (if_both (OnOutcome (Recorded o)) res.success _ _
          (on_outcome (subst (λ l. Recorded o l) (sym (after_success-operations op res s)) found))
          (on_outcome (after_failure-Recorded op res s found))))
