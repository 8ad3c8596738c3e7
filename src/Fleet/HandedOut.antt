-- ===== src/Fleet/HandedOut.antt =====
-- What HandleTaskClaim (internal/api/handlers_fleet.go) hands out, and what it does to the queue.
use admirald.Shared.{
  ℕ, zero, suc, ◌+◌, ◌≡◌, ◌≢◌, refl, ◌∙◌, inl, inr, Bool, some, String, List, ◌==◌, arith, eq_iff,
  In, In-update_where, Bool-cases, Option-cases,
}
use admirald.Queue.Command.{FleetTask, FleetCommand, leased}
use admirald.Queue.Codec.{Codec}
use admirald.Queue.Claim.{
  Claim, claimed, no_command_available, claim_failed, claim_task, reset_expired, lease_command,
  lease, next_command,
}
use admirald.Queue.Settle.{Table, cancel_command_for_node}
use admirald.Queue.Rows.{IsValid}
use admirald.Queue.Order.{next_command-first}
use admirald.Queue.History.{NodeStep, claim, cancel_command, of_node, Step-IsValid}
use admirald.Queue.Isolation.{others, NodeStep-others}
use admirald.Instances.Instance.{CustomerApp}
use admirald.Operations.Operation.{Operation}
use admirald.Fleet.Stale.{discard_reason}
use admirald.Fleet.Eligible.{IsEligible}
use admirald.Fleet.TaskClaim.{
  ClaimAnswer, ClaimRequest, handed_out, method_not_allowed, bad_request, forbidden, after_claim,
  hand_out_or_discard, claim_rounds, claim_as, handle_task_claim, max_discarded_terminal_tasks,
}
use admirald.Fleet.Rounds.{held, Round, quiet, unreadable, given, discarded, claim_rounds-Round}

-- The command in the queue: leased to the node, with the count of attempts that was reported.
pub record IsHeld (node id : String) (attempts : ℕ) (t : Table) : Type 0 where
  pub command : FleetCommand
  pub present : In command t
  pub same_id : command.id ≡ id
  pub same_node : command.node_id ≡ node
  pub is_leased : command.status ≡ leased
  pub counted : command.attempt_count ≡ attempts

-- If a task is handed out, it is eligible and its command is held by the node.
pub data IsSoundAnswer (operations : List Operation) (apps : List CustomerApp) (node : String)
    : ClaimAnswer × Table → Type 0 where
  with_task :
      {task : FleetTask} {id : String} {attempts max_attempts : ℕ} {t : Table}
      → IsEligible operations apps node task
      → IsHeld node id attempts t
      → IsSoundAnswer operations apps node (handed_out task id attempts max_attempts, t)
  without_task :
      {answer : ClaimAnswer} {t : Table}
      → ((task : FleetTask) (id : String) (attempts max_attempts : ℕ)
          → answer ≢ handed_out task id attempts max_attempts)
      → IsSoundAnswer operations apps node (answer, t)

-- Calls of the publisher for a node, one after the other.
pub data NodeSteps (node : String) : Table → Table → Type 0 where
  finished : {t : Table} → NodeSteps node t t
  step : {t u v : Table} → NodeStep node t u → NodeSteps node u v → NodeSteps node t v

NodeSteps-IsValid : {node : String} {t u : Table} → NodeSteps node t u → IsValid t → IsValid u
NodeSteps-IsValid finished v = v
NodeSteps-IsValid {node} (step s rest) v = NodeSteps-IsValid rest (Step-IsValid (of_node node s) v)

NodeSteps-others :
    {node : String} {t u : Table} → NodeSteps node t u → IsValid t → others node u ≡ others node t
NodeSteps-others finished v = refl
NodeSteps-others {node} (step s rest) v =
    NodeSteps-others rest (Step-IsValid (of_node node s) v) ∙ NodeStep-others s v

module _ (codec : Codec) (key : List ℕ) (locked : ℕ → String → Bool) (now : ℕ → ℕ)
    (consumer : ℕ → String) (operations : List Operation) (apps : List CustomerApp)
    (node : String) where
  after-NodeSteps :
      (n : ℕ)
      → ((t : Table)
          → NodeSteps node t
              (claim_rounds codec key locked now consumer operations apps node n t).1)
      → (r : Claim × Table)
      → NodeSteps node r.1
          (after_claim codec key locked now consumer operations apps node
            (λ id reason after.
              claim_rounds codec key locked now consumer operations apps node n
                (cancel_command_for_node (now n) id node reason after))
            r).1
  unfolding after_claim hand_out_or_discard
  after-NodeSteps n more (no_command_available, t) = finished
  after-NodeSteps n more (claim_failed e, t) = finished
  after-NodeSteps n more (claimed task id attempts max_attempts, t) =
      let reason = discard_reason operations apps node task in
      elim (Bool-cases (reason == "")) [
        | inl h ↦ rw (hand_out_or_discard, h) finished
        | inr h ↦ rw (hand_out_or_discard, h) (step (cancel_command (now n) id reason) (more _))
      ]

  rounds-NodeSteps :
      (n : ℕ) (t : Table)
      → NodeSteps node t (claim_rounds codec key locked now consumer operations apps node n t).1
  unfolding claim_rounds
  rounds-NodeSteps zero t = finished
  rounds-NodeSteps (suc n) t = step (claim codec key (locked n) (now n) (consumer n)) (
      after-NodeSteps n (rounds-NodeSteps n)
        (claim_task codec key (locked n) (now n) (consumer n) node t))

  held-IsHeld :
      (n : ℕ) (t : Table) (c : FleetCommand)
      → next_command (locked n) (now n) node (reset_expired (now n) node t) ≡ some c
      → IsHeld node c.id
          (c.attempt_count + 1)
          (held codec key locked now consumer operations apps node n c t)
  unfolding lease_command lease
  held-IsHeld n t c found =
      let (m, ready, _) =
        next_command-first (locked n) (now n) node (reset_expired (now n) node t) c found in
      record {
        command = lease (now n) (consumer n) c;
        present =
            In-update_where (λ x. x.id == c.id) (lease (now n) (consumer n)) c
              (reset_expired (now n) node t) m ((eq_iff c.id c.id).1 refl);
        same_id = refl;
        same_node = (eq_iff c.node_id node).0 (ground arith);
        is_leased = refl;
        counted = refl;
      }

  Round-IsSoundAnswer :
      (n : ℕ) (t : Table)
      → ((u : Table)
          → IsSoundAnswer operations apps node
              (claim_rounds codec key locked now consumer operations apps node n u))
      → {r : ClaimAnswer × Table} → Round codec key locked now consumer operations apps node n t r
      → IsSoundAnswer operations apps node r
  Round-IsSoundAnswer n t more (quiet _) = without_task (λ task id a m h. cc)
  Round-IsSoundAnswer n t more (unreadable c e _ _) = without_task (λ task id a m h. cc)
  Round-IsSoundAnswer n t more (given c task found _ v) = with_task v (held-IsHeld n t c found)
  Round-IsSoundAnswer n t more (discarded c task _ _ _) = more _

  rounds-IsSoundAnswer :
      (n : ℕ) (t : Table)
      → IsSoundAnswer operations apps node
          (claim_rounds codec key locked now consumer operations apps node n t)
  unfolding claim_rounds
  rounds-IsSoundAnswer zero t = without_task (λ task id a m h. cc)
  rounds-IsSoundAnswer (suc n) t =
      Round-IsSoundAnswer n t (rounds-IsSoundAnswer n)
        (claim_rounds-Round codec key locked now consumer operations apps node n t)

module _ (codec : Codec) (key : List ℕ) (locked : ℕ → String → Bool) (now : ℕ → ℕ)
    (consumer : String → ℕ → String) (operations : List Operation) (apps : List CustomerApp)
    (node : String) (t : Table) where
  -- What a request of the node leads to.
  abbrev Served : ClaimAnswer × Table → Type 0
  Served r = IsSoundAnswer operations apps node r × NodeSteps node t r.1

  refused :
      (answer : ClaimAnswer)
      → ((task : FleetTask) (id : String) (attempts max_attempts : ℕ)
          → answer ≢ handed_out task id attempts max_attempts)
      → Served (answer, t)
  refused answer no_task = (without_task no_task, finished)

  claim_as-Served :
      (claimed_node : String)
      → Served (claim_as codec key locked now consumer operations apps claimed_node (some node) t)
  unfolding claim_as
  claim_as-Served claimed_node = elim (Bool-cases (node == claimed_node)) [
    | inr other ↦ rw (claim_as, other) (refused forbidden (λ task id a m h. cc))
    | inl same ↦
        rw (claim_as, same)
          (
            rounds-IsSoundAnswer codec key locked now (consumer node) operations apps node
                max_discarded_terminal_tasks t,
            rounds-NodeSteps codec key locked now (consumer node) operations apps node
                max_discarded_terminal_tasks t,
          )
  ]

  handle_task_claim-Served :
      (req : ClaimRequest)
      → req.authenticated ≡ some node
      → Served (handle_task_claim codec key locked now consumer operations apps req t)
  unfolding handle_task_claim
  handle_task_claim-Served req e = elim (Bool-cases (req.is_post)) [
    | inr other ↦ rw (handle_task_claim, other) (refused method_not_allowed (λ task id a m h. cc))
    | inl post ↦ elim (Option-cases (req.node_id)) [
      | inl bad ↦
          rw (handle_task_claim, post, bad)
            (refused (bad_request "Invalid JSON payload") (λ task id a m h. cc))
      | inr (claimed_node, given_node) ↦ elim (Bool-cases (claimed_node == "")) [
        | inl blank ↦
            rw (handle_task_claim, post, given_node, blank)
              (refused (bad_request "node_id is required") (λ task id a m h. cc))
        | inr named ↦
            rw (handle_task_claim, post, given_node, named, e) (claim_as-Served claimed_node)
      ]
    ]
  ]

  -- What the handler hands out to an authenticated node is eligible for that node, and its command is
  -- leased to the node, with the count of attempts that the answer reports.
  pub handle_task_claim-IsSoundAnswer :
      (req : ClaimRequest)
      → req.authenticated ≡ some node
      → IsSoundAnswer operations apps node
          (handle_task_claim codec key locked now consumer operations apps req t)
  handle_task_claim-IsSoundAnswer req e = (handle_task_claim-Served req e).0

  -- On a valid queue, a request of an authenticated node, however many commands it discards, leaves the
  -- commands of every other node as they were, and the queue valid.
  pub handle_task_claim-others :
      (req : ClaimRequest)
      → req.authenticated ≡ some node
      → IsValid t
      → (others node (handle_task_claim codec key locked now consumer operations apps req t).1
          ≡ others node t)
        × IsValid (handle_task_claim codec key locked now consumer operations apps req t).1
  handle_task_claim-others req e v =
      let steps = (handle_task_claim-Served req e).1 in
      (NodeSteps-others steps v, NodeSteps-IsValid steps v)
