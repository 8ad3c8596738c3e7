-- ===== src/Fleet/CallbackTests.antt =====
-- A provisioning whose setup failed, reported by its node, and the task of its cleanup.
use admirald.Shared.{any, ◌==◌, ℕ, ◌≡◌, refl, inl, inr, pos, true, false, none, some, [], ◌∷◌, ok}
use admirald.Shared.Text.{trim_space}
use admirald.Nodes.Tests.{hundredths, worker, small}
use admirald.Queue.Codec.{seal_payload, sign_payload}
use admirald.Queue.Publish.{publish_task, persist_task}
use admirald.Queue.Tests.{publisher, draw_1, not_blank, table_1}
use admirald.Operations.Operation.{Operation, get_operation}
use admirald.Fleet.State.{TaskResult, Control, Decoders, Catalog}
use admirald.Fleet.Enqueue.{ready, enqueue_task_with_id, published, task_of}
use admirald.Fleet.Effects.{Cleanup}
use admirald.Fleet.Callback.{CallbackAnswer, accepted, handle_fleet_callback}
use admirald.Fleet.Outcomes.{IsSameButCommands}
use admirald.Fleet.Repeated.{handle_fleet_callback-over, handle_fleet_callback-repeated}
use admirald.Fleet.Answered.{IsAnswered, handle_fleet_callback-IsAnswered}
use admirald.Fleet.Eligible.{IsEligible}
use admirald.Fleet.Enqueued.{enqueue_task_with_id-IsEligible}
use admirald.Fleet.ClaimTests.{op_1, app_1}

abbrev decoders : Decoders
decoders = record {
  host_ports_of = λ m. none;
  setup_of = λ m. some (record { has_setup = true; setup_failed = true; setup_error = "boom" });
  images_of = λ m. none;
  resize_of = λ m. none;
  backup_of = λ m. record {
    backup_id = "";
    storage_backend = "";
    storage_key = "";
    size_bytes = pos 0;
    checksum_sha256 = "";
  };
  tier_of = λ m. some small;
  tier_json = λ t. "{}";
  clean = λ s. s;
  is_abs = λ s. false;
  error_text = λ e. "error";
}

abbrev catalog : Catalog
catalog = record { services_of = λ name. some (some []); tiers_of = λ name. small ∷ [] }

abbrev cleanup : Cleanup
cleanup = record {
  operation_id = "op-2";
  task_id = "task-2";
  draw = record draw_1 { command_id = "c2" };
  prepared = ready "{}" [];
}

abbrev provisioning : Operation
provisioning = record op_1 { action = "provision_app" }

abbrev finished : Operation
finished = record op_1 { id = "op-0"; status = "succeeded" }

abbrev before : Control
before = record {
  commands = table_1;
  operations = finished ∷ provisioning ∷ [];
  apps = app_1 ∷ [];
  nodes = worker "n1" 50 ∷ [];
  backups = [];
}

abbrev report : TaskResult
report = record {
  task_id = "task-1";
  operation_id = "op-1";
  node_id = "n1";
  success = false;
  error = "boom";
  metadata = "{}";
}

abbrev run : ℕ → Control → CallbackAnswer × Control
run now s =
    handle_fleet_callback hundredths decoders not_blank publisher now catalog cleanup (some "n1")
      report s

handle_fleet_callback-repeated_example :
    IsSameButCommands (run 20 before).1 (run 30 (run 20 before).1).1
handle_fleet_callback-repeated_example =
    handle_fleet_callback-repeated hundredths decoders not_blank publisher 20 30 catalog cleanup
      cleanup (some "n1") report before

handle_fleet_callback-over_example :
    get_operation "op-0" (run 20 before).1.operations ≡ some finished
handle_fleet_callback-over_example =
    handle_fleet_callback-over hundredths decoders not_blank publisher 20 catalog cleanup
      (some "n1") report before finished refl refl

handle_fleet_callback-IsAnswered_example : IsAnswered decoders catalog report before (run 20 before)
handle_fleet_callback-IsAnswered_example =
    handle_fleet_callback-IsAnswered hundredths decoders not_blank publisher 20 catalog cleanup
      (some "n1") report before

-- The start of an application, whose operation waits for its task.
abbrev waiting : Operation
waiting = record op_1 { task_id = ""; status = "pending_dispatch" }

abbrev dispatch : Control
dispatch = record before { commands = []; operations = waiting ∷ [] }

abbrev sent : Control
sent =
    (enqueue_task_with_id (λ e. "error") not_blank publisher draw_1 (ready "{}" []) "task-1" "op-1"
      "app-1" "n1" "start_app" dispatch).1

sent_ok :
    enqueue_task_with_id
      (λ e. "error")
      not_blank
      publisher
      draw_1
      (ready "{}" [])
      "task-1"
      "op-1"
      "app-1"
      "n1"
      "start_app"
      dispatch
    ≡ (ok tt, sent)
unfolding enqueue_task_with_id published publish_task persist_task seal_payload sign_payload
sent_ok = refl

enqueue_task_with_id-IsEligible_example :
    IsEligible sent.operations sent.apps "n1"
      (task_of "task-1" "op-1" "app-1" "n1" "start_app" "{}")
    × (publish_task not_blank publisher draw_1
          (task_of "task-1" "op-1" "app-1" "n1" "start_app" "{}")
          []
        ≡ ok sent.commands)
    × (any (λ c. c.idempotency_key == "task-1") sent.commands ≡ true)
unfolding trim_space
enqueue_task_with_id-IsEligible_example =
    enqueue_task_with_id-IsEligible (λ e. "error") not_blank publisher draw_1 "task-1" "op-1"
      "app-1" "n1" "start_app" "{}" [] "n1" waiting dispatch sent
      (record {
        goes_on = refl;
        same_instance = refl;
        op_node = inr refl;
        task_node = inr refl;
        same_action = refl;
        named = refl;
      })
      refl (inr (app_1, refl, record { there_or_cleanup = inl refl })) sent_ok

-- The run is accepted, and the cleanup has its operation.
run-accepted : (run 20 before).0 ≡ accepted
unfolding handle_fleet_callback
run-accepted = refl
