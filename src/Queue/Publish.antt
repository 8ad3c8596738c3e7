-- ===== src/Queue/Publish.antt =====
-- `PublishTask`, `PublishRejectedTask` and `persistTask` of internal/queue/queue.go, and the
-- UNIQUE constraints of `fleet_commands` (internal/queuedb/migrations.go).
use admirald.Shared.{
  ℕ, ltb, Bool, Option, none, some, String, List, [], ◌∷◌, ◌++◌, if◌then◌else◌, any, ◌||◌, ◌==◌,
  Result, ok, err, errorf, ◌>>=◌,
}
use admirald.Queue.Command.{
  CommandStatus, pending, failed, FleetTask, FleetCommand, is_terminal, default_priority,
  default_max_attempts,
}
use admirald.Queue.Codec.{Codec, sign_payload, seal_payload}

-- The publisher: its keys, and what it draws from outside for one call: the time, the nonce and the
-- fresh command ID.
pub record Publisher : Type 0 where
  pub codec : Codec
  pub encryption_key : List ℕ

pub record Draw : Type 0 where
  pub now : ℕ
  pub nonce : List ℕ
  pub command_id : String

-- `if s != "" { v = s }`, and the same for a positive number.
abbrev pub non_empty : String → Option String
non_empty s = if s == "" then none else some s

abbrev pub positive : ℕ → Option ℕ
positive n = if ltb 0 n then some n else none

-- The row that `persistTask` inserts. `is_blank` is `strings.TrimSpace(s) == ""`.
unfoldable pub new_command :
    (String → Bool)
    → Draw
    → FleetTask
    → List ℕ
    → CommandStatus
    → ℕ
    → String
    → String
    → String
    → ℕ
    → FleetCommand
new_command is_blank d task payload status max_attempts last_error result sig signed_at = record {
  id = d.command_id;
  operation_public_id = task.operation_id;
  task_public_id = task.task_id;
  instance_id = task.instance_id;
  node_id = task.node_id;
  command_type = task.action;
  payload = payload;
  status = status;
  priority = default_priority;
  available_at = d.now;
  leased_until = none;
  leased_by = none;
  attempt_count = 0;
  max_attempts = max_attempts;
  idempotency_key = task.task_id;
  created_at = d.now;
  started_at = none;
  completed_at = if is_terminal status then some d.now else none;
  last_error = if is_blank last_error then none else some last_error;
  result = non_empty result;
  task_signature = non_empty sig;
  signed_at = positive signed_at;
}

-- `INSERT … ON CONFLICT (idempotency_key) DO NOTHING`; a row that repeats only the primary key or
-- `task_public_id` is refused by the database.
unfoldable pub insert_command : FleetCommand → List FleetCommand → Result (List FleetCommand)
insert_command row table =
    if any (λ c. c.idempotency_key == row.idempotency_key) table
    then ok table
    else if any (λ c. c.id == row.id || c.task_public_id == row.task_public_id) table
    then err (errorf "insert fleet command: %w" [])
    else ok (table ++ row ∷ [])

unfoldable pub persist_task :
    (String → Bool)
    → Draw
    → FleetTask
    → List ℕ
    → CommandStatus
    → ℕ
    → String
    → String
    → String
    → ℕ
    → List FleetCommand
    → Result (List FleetCommand)
unfolding new_command insert_command
persist_task is_blank d task payload status max_attempts last_error result sig signed_at table =
    insert_command
      (new_command is_blank d task payload status max_attempts last_error result sig signed_at)
      table

abbrev pub unsigned : FleetTask → FleetTask
unsigned t = record t { task_signature = ""; signed_at = 0 }

-- What `PublishTask` and `PublishRejectedTask` share: the task is signed and sealed without an
-- earlier signature, and stored with the signature beside it.
unfoldable pub store_task :
    (String → Bool)
    → Publisher
    → Draw
    → FleetTask
    → CommandStatus
    → ℕ
    → String
    → String
    → List FleetCommand
    → Result (List FleetCommand)
store_task is_blank p d task status max_attempts reason result table =
    let payload = p.codec.marshal_task (unsigned task) in
    let sig = sign_payload p.codec payload d.now in
    do
      stored ← seal_payload p.codec p.encryption_key d.nonce payload
      persist_task is_blank d task stored status max_attempts reason result sig d.now table

unfoldable pub publish_task :
    (String → Bool) → Publisher → Draw → FleetTask → List FleetCommand → Result (List FleetCommand)
unfolding store_task
publish_task is_blank p d task table =
    store_task is_blank p d task pending default_max_attempts "" "" table

unfoldable pub publish_rejected_task :
    (String → Bool)
    → Publisher
    → Draw
    → FleetTask
    → String
    → String
    → List FleetCommand
    → Result (List FleetCommand)
unfolding store_task
publish_rejected_task is_blank p d task reason result table =
    store_task is_blank p d task failed 0 reason result table
