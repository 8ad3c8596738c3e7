-- ===== src/Fleet/TaskClaim.antt =====
-- HandleTaskClaim of internal/api/handlers_fleet.go, after the queue's claimTask: commands that are no
-- longer wanted are cancelled until one is handed out.
use admirald.Shared.{
  ℕ, zero, suc, Bool, not, Option, none, some, String, List, if◌then◌else◌, ◌==◌, Error,
}
use admirald.Queue.Command.{FleetTask}
use admirald.Queue.Codec.{Codec}
use admirald.Queue.Claim.{Claim, claimed, no_command_available, claim_failed, claim_task}
use admirald.Queue.Settle.{Table, cancel_command_for_node}
use admirald.Instances.Instance.{CustomerApp}
use admirald.Operations.Operation.{Operation}
use admirald.Fleet.Stale.{discard_reason}

-- The answers by their HTTP status: 405, 400, 403, 204, 500, and 200 with the task.
pub data ClaimAnswer : Type 0 where
  method_not_allowed : ClaimAnswer
  bad_request : String → ClaimAnswer
  forbidden : ClaimAnswer
  no_content : ClaimAnswer
  internal_error : Error → ClaimAnswer
  -- task, command ID, attempt count, maximum of attempts
  handed_out : FleetTask → String → ℕ → ℕ → ClaimAnswer

-- A request: the method, the `node_id` of the body, or `none` for a body that is not JSON, and the node
-- that the middleware has authenticated.
pub record ClaimRequest : Type 0 where
  pub is_post : Bool
  pub node_id : Option String
  pub authenticated : Option String

abbrev pub max_discarded_terminal_tasks : ℕ
max_discarded_terminal_tasks = 128

-- The rounds are counted down; `now`, `consumer` and `locked` tell the time, the name under which a
-- command is leased, and the rows that others lock in each of them. The tables of operations and
-- instances stay as they are while the request is served, and the database answers.
module _ (codec : Codec) (key : List ℕ) (locked : ℕ → String → Bool) (now : ℕ → ℕ)
    (consumer : ℕ → String) (operations : List Operation) (apps : List CustomerApp)
    (node : String) where
  -- A claimed task is handed out, or its command is cancelled and the next round follows.
  unfoldable pub hand_out_or_discard :
      (String → String → ClaimAnswer × Table)
      → FleetTask
      → String
      → ℕ
      → ℕ
      → Table
      → ClaimAnswer × Table
  hand_out_or_discard discard task id attempts max_attempts table =
      let reason = discard_reason operations apps node task in
      if reason == "" then (handed_out task id attempts max_attempts, table) else discard id reason

  unfoldable pub after_claim :
      (String → String → Table → ClaimAnswer × Table) → Claim × Table → ClaimAnswer × Table
  unfolding hand_out_or_discard
  after_claim discard (no_command_available, table) = (no_content, table)
  after_claim discard (claim_failed e, table) = (internal_error e, table)
  after_claim discard (claimed task id attempts max_attempts, table) =
      hand_out_or_discard (λ i reason. discard i reason table) task id attempts max_attempts table

  unfoldable pub claim_rounds : ℕ → Table → ClaimAnswer × Table
  unfolding after_claim
  claim_rounds zero table = (no_content, table)
  claim_rounds (suc n) table =
      after_claim
        (λ id reason after. claim_rounds n (cancel_command_for_node (now n) id node reason after))
        (claim_task codec key (locked n) (now n) (consumer n) node table)

-- `HandleTaskClaim`
module _ (codec : Codec) (key : List ℕ) (locked : ℕ → String → Bool) (now : ℕ → ℕ)
    (consumer : String → ℕ → String) (operations : List Operation) (apps : List CustomerApp) where
  unfoldable pub claim_as : String → Option String → Table → ClaimAnswer × Table
  unfolding claim_rounds
  claim_as node none table = (forbidden, table)
  claim_as node (some authenticated) table =
      if not (authenticated == node)
      then (forbidden, table)
      else claim_rounds codec key locked now (consumer authenticated) operations apps authenticated
          max_discarded_terminal_tasks table

  unfoldable pub handle_task_claim : ClaimRequest → Table → ClaimAnswer × Table
  unfolding claim_as
  handle_task_claim req table =
      if not req.is_post then (method_not_allowed, table) else elim (req.node_id) [
        | none ↦ (bad_request "Invalid JSON payload", table)
        | some node ↦
            if node == ""
            then (bad_request "node_id is required", table)
            else claim_as node req.authenticated table
      ]
