-- ===== src/Queue/Command.antt =====
-- The rows of `fleet_commands` and the task that a row carries: FleetCommand, FleetCommandStatus
-- and the constants (pkg/admiral/queue.go, internal/queue/queue.go), FleetTask
-- (pkg/admiral/tasks.go).
use admirald.Shared.{ℕ, Bool, true, false, Option, String, List}

pub data CommandStatus : Type 0 where
  pending leased running succeeded failed dead_letter cancelled : CommandStatus

-- The statuses are texts in the source; they are equal exactly when they are spelled alike.
pub status_beq : CommandStatus → CommandStatus → Bool
status_beq pending pending = true
status_beq leased leased = true
status_beq running running = true
status_beq succeeded succeeded = true
status_beq failed failed = true
status_beq dead_letter dead_letter = true
status_beq cancelled cancelled = true
status_beq _ _ = false

-- `status IN (pending, leased, running)`
abbrev pub is_active : CommandStatus → Bool
is_active pending = true
is_active leased = true
is_active running = true
is_active _ = false

-- `status IN (leased, running)`
abbrev pub is_held : CommandStatus → Bool
is_held leased = true
is_held running = true
is_held _ = false

-- The statuses for which `persistTask` stamps `completed_at`.
abbrev pub is_terminal : CommandStatus → Bool
is_terminal failed = true
is_terminal succeeded = true
is_terminal cancelled = true
is_terminal dead_letter = true
is_terminal _ = false

abbrev pub is_pending : CommandStatus → Bool
is_pending pending = true
is_pending _ = false

abbrev pub is_running : CommandStatus → Bool
is_running running = true
is_running _ = false

abbrev pub is_cancelled : CommandStatus → Bool
is_cancelled cancelled = true
is_cancelled _ = false

-- `status IN (succeeded, failed)`
abbrev pub is_reported : CommandStatus → Bool
is_reported succeeded = true
is_reported failed = true
is_reported _ = false

-- The fields by which a task is addressed; `body` stands for the rest of the JSON document.
pub record FleetTask : Type 0 where
  pub task_id : String
  pub operation_id : String
  pub node_id : String
  pub action : String
  pub instance_id : String
  pub body : String
  pub task_signature : String
  pub signed_at : ℕ

pub record FleetCommand : Type 0 where
  pub id : String
  pub operation_public_id : String
  pub task_public_id : String
  pub instance_id : String
  pub node_id : String
  pub command_type : String
  pub payload : List ℕ
  pub status : CommandStatus
  pub priority : ℕ
  pub available_at : ℕ
  pub leased_until : Option ℕ
  pub leased_by : Option String
  pub attempt_count : ℕ
  pub max_attempts : ℕ
  pub idempotency_key : String
  pub created_at : ℕ
  pub started_at : Option ℕ
  pub completed_at : Option ℕ
  pub last_error : Option String
  pub result : Option String
  pub task_signature : Option String
  pub signed_at : Option ℕ

abbrev pub default_priority : ℕ
default_priority = 100

abbrev pub default_max_attempts : ℕ
default_max_attempts = 5

abbrev pub default_lease_seconds : ℕ
default_lease_seconds = 300
