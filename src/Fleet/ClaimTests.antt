-- ===== src/Fleet/ClaimTests.antt =====
-- A request for a task, on a queue with a task whose operation is gone in front of one that is wanted.
use Prim.Native.Nat.{zero, suc}
use admirald.Shared.{
  ℕ, ◌≡◌, refl, inl, inr, Bool, true, false, none, some, Option, String, List, [], ◌∷◌, arith,
  eq_iff, update_where, sym, ◌∙◌, ok, ok_injective,
}
use admirald.Shared.Text.{trim_space}
use admirald.Queue.Codec.{open_payload}
use admirald.Queue.Claim.{claim_task, reset_expired, next_command, lease_command, deliver}
use admirald.Queue.Settle.{cancel_command_for_node}
use admirald.Fleet.Stale.{discard_reason, stale_task_reason, instance_reason}
use admirald.Fleet.Eligible.{discard_reason-IsEligible}
use admirald.Fleet.TaskClaim.{claim_as, claim_rounds, after_claim, hand_out_or_discard}
use mathlib.Core.Path.{subst}
use admirald.Queue.Command.{FleetTask, FleetCommand}
use admirald.Queue.Codec.{Codec, decode_payload}
use admirald.Queue.Rows.{IsValid}
use admirald.Queue.Isolation.{others}
use admirald.Queue.Settle.{Table}
use admirald.Queue.Tests.{task_1, toy_codec, row_1, table_1, table_1-IsValid}
use admirald.Instances.Instance.{CustomerApp}
use admirald.Operations.Operation.{Operation}
use admirald.Fleet.Eligible.{IsEligible}
use admirald.Fleet.TaskClaim.{ClaimAnswer, ClaimRequest, handed_out, handle_task_claim}
use admirald.Fleet.HandedOut.{
  IsSoundAnswer, handle_task_claim-IsSoundAnswer, handle_task_claim-others,
}
use admirald.Fleet.Rounds.{signed}
use admirald.Fleet.Live.{HandsOutTask, IsReadable, IsWanted, handle_task_claim-HandsOutTask}

abbrev task_0 : FleetTask
task_0 = record task_1 { task_id = "task-0"; operation_id = "op-0" }

abbrev row_0 : FleetCommand
row_0 = record row_1 {
  id = "c0";
  operation_public_id = "op-0";
  task_public_id = "task-0";
  payload = 2 ∷ [];
  idempotency_key = "task-0";
  created_at = 5;
}

abbrev read_either : List ℕ → Option FleetTask
read_either (zero ∷ rest) = some task_1
read_either (suc (suc zero) ∷ rest) = some task_0
read_either _ = none

abbrev fleet_codec : Codec
fleet_codec = record toy_codec { unmarshal_task = read_either }

abbrev table_2 : Table
table_2 = row_0 ∷ table_1

table_2-IsValid : IsValid table_2
table_2-IsValid = record {
  rows = (
    record {
      capped = omega arith;
      held_leased = λ e. cc;
      held_owned = λ e. cc;
      held_tried = λ e. cc;
      waiting_free = λ _. (refl, refl);
      settled_free = λ _. refl;
    },
    table_1-IsValid.rows,
  );
  ids_distinct = ((λ m. ground (arith, eq_iff "c0" "c1")), table_1-IsValid.ids_distinct);
  tasks_distinct =
      ((λ m. ground (arith, eq_iff "task-0" "task-1")), table_1-IsValid.tasks_distinct);
}

abbrev pub op_1 : Operation
op_1 = record {
  id = "op-1";
  instance_id = "app-1";
  node_id = "n1";
  task_id = "task-1";
  action = "start_app";
  status = "queued";
  error_message = none;
  admin_user = "root";
  metadata = none;
}

abbrev pub app_1 : CustomerApp
app_1 = record {
  id = "app-1";
  customer_id = "cust";
  app_definition_name = "wiki";
  tier_name = "small";
  node_id = some "n1";
  commercial_status = "active";
  technical_status = "stopped";
  tier_snapshot_json = "{}";
  logical_instance_id = "app-1";
  inspect_data = "";
  setup_completed = false;
  need_restarting = false;
}

abbrev claim_req : ClaimRequest
claim_req = record { is_post = true; node_id = some "n1"; authenticated = some "n1" }

abbrev free_rows : ℕ → String → Bool
free_rows n id = false

abbrev claim_run : ClaimAnswer × Table
claim_run =
    handle_task_claim fleet_codec (9 ∷ []) free_rows (λ n. 20) (λ node n. "n1-20") (op_1 ∷ [])
      (app_1 ∷ []) claim_req table_2

handle_task_claim-IsSoundAnswer_example : IsSoundAnswer (op_1 ∷ []) (app_1 ∷ []) "n1" claim_run
handle_task_claim-IsSoundAnswer_example =
    handle_task_claim-IsSoundAnswer fleet_codec (9 ∷ []) free_rows (λ n. 20) (λ node n. "n1-20")
      (op_1 ∷ []) (app_1 ∷ []) "n1" table_2 claim_req refl

handle_task_claim-others_example :
    (others "n1" claim_run.1 ≡ others "n1" table_2) × IsValid claim_run.1
handle_task_claim-others_example =
    handle_task_claim-others fleet_codec (9 ∷ []) free_rows (λ n. 20) (λ node n. "n1-20")
      (op_1 ∷ []) (app_1 ∷ []) "n1" table_2 claim_req refl table_2-IsValid

read_0 : decode_payload fleet_codec (9 ∷ []) row_0.payload ≡ ok task_0
unfolding decode_payload
read_0 = refl

read_1 : decode_payload fleet_codec (9 ∷ []) row_1.payload ≡ ok task_1
unfolding decode_payload open_payload
read_1 = refl

readable :
    IsReadable fleet_codec
      (9 ∷ [])
      free_rows
      (λ n. 20)
      (λ n. "n1-20")
      (op_1 ∷ [])
      (app_1 ∷ [])
      "n1"
      table_2
readable x (inl e) here =
    (task_0, subst (λ y. decode_payload fleet_codec (9 ∷ []) y.payload ≡ ok task_0) (sym e) read_0)
readable x (inr (inl e)) here =
    (task_1, subst (λ y. decode_payload fleet_codec (9 ∷ []) y.payload ≡ ok task_1) (sym e) read_1)
readable x (inr (inr m)) here = absurd m

abbrev signed_1 : FleetTask → FleetTask
signed_1 =
    signed fleet_codec (9 ∷ []) free_rows (λ n. 20) (λ n. "n1-20") (op_1 ∷ []) (app_1 ∷ []) "n1"
      row_1

op_1-IsEligible : IsEligible (op_1 ∷ []) (app_1 ∷ []) "n1" (signed_1 task_1)
unfolding discard_reason stale_task_reason instance_reason trim_space
op_1-IsEligible = (discard_reason-IsEligible (op_1 ∷ []) (app_1 ∷ []) "n1" (signed_1 task_1)).0 refl

row_1-IsWanted :
    IsWanted fleet_codec
      (9 ∷ [])
      free_rows
      (λ n. 20)
      (λ n. "n1-20")
      (op_1 ∷ [])
      (app_1 ∷ [])
      "n1"
      row_1
row_1-IsWanted task good =
    subst (λ t. IsEligible (op_1 ∷ []) (app_1 ∷ []) "n1" (signed_1 t))
      (ok_injective task_1 task (sym read_1 ∙ good)) op_1-IsEligible

handle_task_claim-HandsOutTask_example : HandsOutTask claim_run
handle_task_claim-HandsOutTask_example =
    handle_task_claim-HandsOutTask fleet_codec (9 ∷ []) free_rows (λ n. 20) (λ node n. "n1-20")
      (op_1 ∷ []) (app_1 ∷ []) "n1" table_2 row_1 refl table_2-IsValid readable (omega arith)
      (inr (inl refl)) (λ n. refl) row_1-IsWanted

-- The task of the operation that is gone is cancelled, and the other one is handed out.
claim_run_answer : claim_run.0 ≡ handed_out (signed_1 task_1) "c1" 1 5
unfolding handle_task_claim claim_as claim_rounds after_claim hand_out_or_discard discard_reason
    stale_task_reason instance_reason claim_task reset_expired next_command lease_command deliver
    decode_payload open_payload update_where trim_space cancel_command_for_node
claim_run_answer = refl
