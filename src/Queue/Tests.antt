-- ===== src/Queue/Tests.antt =====
-- Runs of the queue on small tables, and the theorems at such inputs.
use Prim.Native.Nat.{zero, suc}
use admirald.Shared.{
  ℕ, ◌≡◌, refl, inl, Bool, true, false, none, some, Option, String, List, [], ◌∷◌, arith, eq_iff,
  ok, errorf, update_where, ◌==◌,
}
use admirald.Queue.Command.{FleetTask, FleetCommand, pending}
use admirald.Queue.Codec.{Codec, IsSound, seal_payload, open_payload, decode_payload, sign_payload}
use admirald.Queue.Publish.{Publisher, Draw, publish_task, persist_task}
use admirald.Queue.Claim.{
  claimed, claim_failed, claim_task, reset_expired, next_command, lease_command, deliver,
}
use admirald.Queue.Settle.{mark_running_for_node, renew_lease_for_node, Table, complete_task}
use admirald.Queue.Rows.{IsValid}
use admirald.Queue.History.{Reach, empty, next, publish, of_node, claim, Reach-IsValid}
use admirald.Queue.Next.{Reports, HandsOut, claim_task-IsNext}
use admirald.Queue.Taken.{ClaimCall, run_claim}
use admirald.Queue.Leases.{none_yet, then_one, marks, renews, claimed_once}
use admirald.Queue.Retry.{complete_task-IsSetBack, IsSetBack}
use admirald.Queue.Delivery.{signed, claim-publish}

abbrev pub task_1 : FleetTask
task_1 = record {
  task_id = "task-1";
  operation_id = "op-1";
  node_id = "n1";
  action = "start_app";
  instance_id = "app-1";
  body = "{}";
  task_signature = "";
  signed_at = 0;
}

abbrev read_task : List ℕ → Option FleetTask
read_task (zero ∷ rest) = some task_1
read_task _ = none

abbrev read_wrapper : List ℕ → Option (List ℕ)
read_wrapper (suc n ∷ b) = some b
read_wrapper _ = none

-- A codec that writes one byte for the task, and the tag 1 in front of a wrapped text.
abbrev pub toy_codec : Codec
toy_codec = record {
  marshal_task = λ t. 0 ∷ [];
  unmarshal_task = read_task;
  marshal_wrapper = λ b. 1 ∷ b;
  unmarshal_wrapper = read_wrapper;
  base64_encode = λ b. b;
  base64_decode = λ b. some b;
  key_accepted = λ k. true;
  nonce_size = 2;
  gcm_seal = λ k n p. p;
  gcm_open = λ k n p. some p;
  decimal = λ n. n ∷ [];
  sign = λ m. "sig";
}

toy_codec-IsSound : IsSound toy_codec task_1
toy_codec-IsSound = record {
  task_back = refl;
  wrapper_back = λ b. refl;
  wrapper_no_task = λ b u h. cc;
  base64_back = λ b. refl;
  base64_nonempty = λ b h. ground arith;
  gcm_back = λ k n p. refl;
}

abbrev pub publisher : Publisher
publisher = record { codec = toy_codec; encryption_key = 9 ∷ [] }

abbrev pub draw_1 : Draw
draw_1 = record { now = 10; nonce = 4 ∷ 5 ∷ []; command_id = "c1" }

abbrev pub not_blank : String → Bool
not_blank s = s == ""

abbrev pub row_1 : FleetCommand
row_1 = record {
  id = "c1";
  operation_public_id = "op-1";
  task_public_id = "task-1";
  instance_id = "app-1";
  node_id = "n1";
  command_type = "start_app";
  payload = 1 ∷ 4 ∷ 5 ∷ 0 ∷ [];
  status = pending;
  priority = 100;
  available_at = 10;
  leased_until = none;
  leased_by = none;
  attempt_count = 0;
  max_attempts = 5;
  idempotency_key = "task-1";
  created_at = 10;
  started_at = none;
  completed_at = none;
  last_error = none;
  result = none;
  task_signature = some "sig";
  signed_at = some 10;
}

abbrev pub table_1 : Table
table_1 = row_1 ∷ []

publish_1 : publish_task not_blank publisher draw_1 task_1 [] ≡ ok table_1
unfolding publish_task persist_task seal_payload sign_payload
publish_1 = refl

abbrev pub free : String → Bool
free id = false

abbrev call_at : ℕ → String → ClaimCall
call_at now node = record {
  codec = toy_codec;
  key = 9 ∷ [];
  locked = free;
  now = now;
  consumer = "n1-77";
  node = node;
}

claim_1 :
    (run_claim (call_at 12 "n1") table_1).0 ≡ claimed (signed publisher draw_1 task_1) "c1" 1 5
unfolding claim_task reset_expired next_command lease_command deliver decode_payload open_payload
    sign_payload update_where
claim_1 = refl

abbrev history_1 : Reach table_1
history_1 = next empty (publish not_blank publisher draw_1 task_1 publish_1)

Reach-IsValid_example : IsValid (run_claim (call_at 12 "n1") table_1).1
Reach-IsValid_example =
    Reach-IsValid (next history_1 (of_node "n1" (claim toy_codec (9 ∷ []) free 12 "n1-77")))

pub table_1-IsValid : IsValid table_1
table_1-IsValid = Reach-IsValid history_1

claim_1-Reports : Reports "c1" (run_claim (call_at 12 "n1") table_1).0
claim_1-Reports = rw claim_1 refl

claim_task-IsNext_example :
    HandsOut toy_codec
      (9 ∷ [])
      free
      12
      "n1-77"
      "n1"
      table_1
      "c1"
      (run_claim (call_at 12 "n1") table_1).1
claim_task-IsNext_example =
    claim_task-IsNext toy_codec (9 ∷ []) free 12 "n1-77" "n1" table_1 "c1" claim_1-Reports

-- The node marks the command as running and renews its lease; then another claim comes.
abbrev renewed : Table
renewed =
    (renew_lease_for_node 20 "c1" "n1"
      (mark_running_for_node 15 "c1" "n1" (run_claim (call_at 12 "n1") table_1).1).1).1

claimed_once_example : Reports "c1" (run_claim (call_at 312 "n1") renewed).0 → ⊥
claimed_once_example =
    claimed_once "c1" (call_at 12 "n1") (call_at 312 "n1") table_1 renewed claim_1-Reports
      (then_one (then_one none_yet (marks 15 "c1" "n1")) (renews 20 "c1" "n1" (omega arith)))
      (omega arith)

complete_task-IsSetBack_example :
    (u : Table) × (complete_task 40 "task-1" false "boom" table_1 ≡ ok u)
    × IsSetBack 40 "boom" row_1 table_1 u
complete_task-IsSetBack_example =
    complete_task-IsSetBack 40 "boom" row_1 table_1 table_1-IsValid (inl refl)

claim-publish_example :
    (claim_task toy_codec (9 ∷ []) free 12 "n1-77" "n1" table_1).0
    ≡ claimed (signed publisher draw_1 task_1) "c1" 1 5
claim-publish_example =
    claim-publish not_blank publisher draw_1 task_1 [] table_1 free 12 "n1-77" toy_codec-IsSound
      refl (λ e. ground arith) (ground (arith, eq_iff "task-1" "")) tt publish_1 (omega arith) refl

sealed_1 : seal_payload toy_codec (9 ∷ []) (4 ∷ 5 ∷ []) (0 ∷ []) ≡ ok (1 ∷ 4 ∷ 5 ∷ 0 ∷ [])
unfolding seal_payload
sealed_1 = refl

-- A row whose payload nothing can read.
abbrev broken_table : Table
broken_table = record row_1 { payload = [] } ∷ []

claim_broken :
    (run_claim (call_at 12 "n1") broken_table).0
    ≡ claim_failed (errorf "decode command payload: %w" [])
unfolding claim_task reset_expired next_command deliver decode_payload update_where
claim_broken = refl
