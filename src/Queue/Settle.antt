-- ===== src/Queue/Settle.antt =====
-- The calls of internal/queue/queue.go that move a claimed command on, settle it or cancel it: each
-- is one UPDATE, whose row count tells whether the caller owns the command.
use admirald.Shared.{
  ℕ, ◌+◌, leb, nat_beq, Bool, true, false, not, ◌&&◌, Option, none, some, String, List, [],
  if◌then◌else◌, ◌==◌, any, find, update_where, affected, Result, ok, err, errorf,
}
use admirald.Queue.Command.{
  pending, running, succeeded, failed, dead_letter, cancelled, FleetCommand, is_held, is_running,
  is_active, is_cancelled, is_reported, default_lease_seconds,
}

abbrev pub Table : Type 0
Table = List FleetCommand

-- `ErrCommandNotOwned` when no row was changed.
pub data Ownership : Type 0 where
  owned not_owned : Ownership

abbrev pub ownership : Bool → Ownership
ownership true = owned
ownership false = not_owned

abbrev pub is_command : String → String → FleetCommand → Bool
is_command command_id node c = c.id == command_id && c.node_id == node

abbrev pub is_task : String → String → FleetCommand → Bool
is_task task_id node c = c.task_public_id == task_id && c.node_id == node

unfoldable pub mark_running_for_node : ℕ → String → String → Table → Ownership × Table
mark_running_for_node now command_id node table =
    let hit : FleetCommand → Bool = λ c. is_command command_id node c && is_held c.status in
    (
      ownership (affected hit table),
      update_where hit (λ c. record c { status = running; started_at = some now }) table,
    )

unfoldable pub renew_lease_for_node : ℕ → String → String → Table → Ownership × Table
renew_lease_for_node now command_id node table =
    let hit : FleetCommand → Bool = λ c. is_command command_id node c && is_running c.status in
    (
      ownership (affected hit table),
      update_where hit (λ c. record c { leased_until = some (now + default_lease_seconds) }) table,
    )

unfoldable pub discard_command_for_node : ℕ → String → String → String → Table → Ownership × Table
discard_command_for_node now command_id node reason table =
    let hit : FleetCommand → Bool =
      λ c. is_command command_id node c && not (is_reported c.status) in
    (
      ownership (affected hit table),
      update_where hit
          (λ c. record c {
            status = failed;
            last_error = some reason;
            completed_at = some now;
            leased_until = none;
          })
          table,
    )

abbrev pub cancel_with : ℕ → String → FleetCommand → FleetCommand
cancel_with now reason c = record c {
  status = cancelled;
  last_error = some reason;
  completed_at = some now;
  leased_until = none;
  leased_by = none;
}

unfoldable pub cancel_command_for_node : ℕ → String → String → String → Table → Table
cancel_command_for_node now command_id node reason =
    update_where (λ c. is_command command_id node c && is_active c.status) (cancel_with now reason)

unfoldable pub cancel_task_for_node : ℕ → String → String → String → Table → Table
cancel_task_for_node now task_id node reason =
    update_where (λ c. is_task task_id node c && is_active c.status) (cancel_with now reason)

unfoldable pub acknowledge_task_for_node : ℕ → String → String → Table → Table
acknowledge_task_for_node now task_id node =
    update_where (λ c. is_task task_id node c && is_active c.status)
      λ c. record c {
        status = succeeded;
        completed_at = some now;
        leased_until = none;
        leased_by = none;
      }

abbrev pub is_active_of : String → FleetCommand → Bool
is_active_of node c = c.node_id == node && is_active c.status

unfoldable pub cancel_tasks_for_node : ℕ → String → String → Table → Table
cancel_tasks_for_node now node marker = update_where (is_active_of node) (cancel_with now marker)

unfoldable pub has_active_tasks_for_node : String → Table → Bool
has_active_tasks_for_node node table = any (is_active_of node) table

-- `last_error = marker`, which is not true of NULL.
abbrev pub has_error : String → Option String → Bool
has_error marker none = false
has_error marker (some e) = e == marker

abbrev pub is_marked : String → String → FleetCommand → Bool
is_marked node marker c =
    c.node_id == node && is_cancelled c.status && has_error marker c.last_error

abbrev pub restore : ℕ → FleetCommand → FleetCommand
restore now c = record c {
  status = pending;
  last_error = none;
  completed_at = none;
  available_at = now;
  leased_until = none;
  leased_by = none;
}

unfoldable pub restore_cancelled_tasks_for_node : ℕ → String → String → Table → Table
restore_cancelled_tasks_for_node now node marker =
    update_where (is_marked node marker) (restore now)

unfoldable pub finalize_cancelled_tasks_for_node : String → String → Table → Table
finalize_cancelled_tasks_for_node node marker =
    update_where (is_marked node marker) (λ c. record c { last_error = some "node removed" })

unfoldable pub discard_tasks_for_node : ℕ → String → Table → Table
unfolding cancel_tasks_for_node
discard_tasks_for_node now node = cancel_tasks_for_node now node "node removed"

-- Seconds to wait after the given attempt.
unfoldable pub backoff : ℕ → ℕ
backoff attempt =
    if leb attempt 1
    then 2
    else if nat_beq attempt 2
    then 5
    else if nat_beq attempt 3
    then 10
    else 30

-- The three updates of `CompleteTask`.
abbrev pub succeed : ℕ → FleetCommand → FleetCommand
succeed now c = record c { status = succeeded; completed_at = some now; leased_until = none }

abbrev pub bury : ℕ → String → FleetCommand → FleetCommand
bury now error_msg c = record c {
  status = dead_letter;
  last_error = some error_msg;
  completed_at = some now;
  leased_until = none;
}

abbrev pub retry : ℕ → String → FleetCommand → FleetCommand
retry available_at error_msg c = record c {
  status = pending;
  last_error = some error_msg;
  available_at = available_at;
  leased_until = none;
  leased_by = none;
}

abbrev pub of_task : String → FleetCommand → Bool
of_task task_id c = c.task_public_id == task_id

-- A failure reads the row that the task has, and fails where there is none.
unfoldable pub complete_failed : ℕ → String → String → Table → Result Table
unfolding backoff
complete_failed now task_id error_msg table = elim (find (of_task task_id) table) [
  | none ↦ err (errorf "query fleet_commands for retry: %w" [])
  | some c ↦
      if leb c.max_attempts c.attempt_count
      then ok (update_where (of_task task_id) (bury now error_msg) table)
      else ok
          (update_where (of_task task_id) (retry (now + backoff c.attempt_count) error_msg) table)
]

unfoldable pub complete_task : ℕ → String → Bool → String → Table → Result Table
unfolding complete_failed
complete_task now task_id success error_msg table =
    if success
    then ok (update_where (of_task task_id) (succeed now) table)
    else complete_failed now task_id error_msg table
