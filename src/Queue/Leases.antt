-- ===== src/Queue/Leases.antt =====
-- Leases: a claimed command is not taken again while its lease runs, whatever else the queue is asked to do,
-- but for a failure that is reported for it and a restoration of cancelled commands.
use mathlib.Core.Path.{subst}
use admirald.Shared.{
  ℕ, ◌+◌, ◌≤◌, ◌≡◌, ◌≢◌, refl, sym, inl, inr, Bool, true, false, String, arith, All,
  All-update_where, update_where, ok,
}
use admirald.Queue.Command.{FleetTask, default_lease_seconds}
use admirald.Queue.Publish.{Publisher, Draw, publish_task, publish_rejected_task}
use admirald.Queue.Claim.{reset_expired, lease_command}
use admirald.Queue.Settle.{
  Table, mark_running_for_node, renew_lease_for_node, discard_command_for_node,
  cancel_command_for_node, cancel_task_for_node, acknowledge_task_for_node, cancel_tasks_for_node,
  finalize_cancelled_tasks_for_node, discard_tasks_for_node, complete_task,
}
use admirald.Queue.Next.{Reports, claim_task-IsNext}
use admirald.Queue.Taken.{
  IsTaken, AreTaken, ClaimCall, run_claim, claim-AreTaken, settled_by, store_task-AreTaken,
  renew-AreTaken, succeeded-AreTaken, failed-AreTaken, AreTaken-leased,
}

-- Any call of the queue but a restoration of cancelled commands, where claims come before the deadline,
-- renewals not before the start, a published command has an identifier of its own, and a failure is
-- reported for another task than the command's.
pub data Call (start deadline : ℕ) (id : String) (t : Table) : Table → Type 0 where
  claims : (k : ClaimCall) → k.now ≤ deadline → Call start deadline id t (run_claim k t).1
  publishes :
      (is_blank : String → Bool) (p : Publisher) (d : Draw) (task : FleetTask) {u : Table}
      → d.command_id ≢ id
      → publish_task is_blank p d task t ≡ ok u
      → Call start deadline id t u
  rejects :
      (is_blank : String → Bool) (p : Publisher) (d : Draw) (task : FleetTask)
      (reason result : String) {u : Table}
      → d.command_id ≢ id
      → publish_rejected_task is_blank p d task reason result t ≡ ok u
      → Call start deadline id t u
  marks :
      (now : ℕ) (command_id node : String)
      → Call start deadline id t (mark_running_for_node now command_id node t).1
  renews :
      (now : ℕ) (command_id node : String)
      → start ≤ now
      → Call start deadline id t (renew_lease_for_node now command_id node t).1
  discards :
      (now : ℕ) (command_id node reason : String)
      → Call start deadline id t (discard_command_for_node now command_id node reason t).1
  cancels :
      (now : ℕ) (command_id node reason : String)
      → Call start deadline id t (cancel_command_for_node now command_id node reason t)
  cancels_task :
      (now : ℕ) (task_id node reason : String)
      → Call start deadline id t (cancel_task_for_node now task_id node reason t)
  acknowledges :
      (now : ℕ) (task_id node : String)
      → Call start deadline id t (acknowledge_task_for_node now task_id node t)
  cancels_all :
      (now : ℕ) (node marker : String)
      → Call start deadline id t (cancel_tasks_for_node now node marker t)
  discards_all :
      (now : ℕ) (node : String) → Call start deadline id t (discard_tasks_for_node now node t)
  finalizes :
      (node marker : String)
      → Call start deadline id t (finalize_cancelled_tasks_for_node node marker t)
  succeeds :
      (now : ℕ) (task_id error_msg : String) {u : Table}
      → complete_task now task_id true error_msg t ≡ ok u
      → Call start deadline id t u
  fails_other :
      (now : ℕ) (task_id error_msg : String) {u : Table}
      → All (λ c. c.id ≡ id → c.task_public_id ≢ task_id) t
      → complete_task now task_id false error_msg t ≡ ok u
      → Call start deadline id t u

-- Any number of such calls.
pub data Calls (start deadline : ℕ) (id : String) (t : Table) : Table → Type 0 where
  none_yet : Calls start deadline id t t
  then_one :
      {u v : Table}
      → Calls start deadline id t u
      → Call start deadline id u v
      → Calls start deadline id t v

module _ (deadline : ℕ) (id : String) where
  Call-AreTaken :
      {start : ℕ} {t u : Table}
      → deadline ≤ start + default_lease_seconds
      → Call start deadline id t u
      → AreTaken deadline id t
      → AreTaken deadline id u
  unfolding mark_running_for_node renew_lease_for_node discard_command_for_node
      cancel_command_for_node cancel_task_for_node acknowledge_task_for_node cancel_tasks_for_node
      discard_tasks_for_node finalize_cancelled_tasks_for_node publish_task publish_rejected_task
  Call-AreTaken {start} {t} within (claims k runs) held =
      (claim-AreTaken deadline id k t runs held).1
  Call-AreTaken {start} {t} {u} within (publishes is_blank p d task differs done) held =
      store_task-AreTaken deadline id is_blank p d task _ _ _ _ t u differs done held
  Call-AreTaken {start} {t} {u} within (rejects is_blank p d task reason result differs done) held =
      store_task-AreTaken deadline id is_blank p d task _ _ _ _ t u differs done held
  Call-AreTaken {start} {t} within (marks now command_id node) held =
      All-update_where (IsTaken deadline id) _ _ t
        (λ c m hit h same. elim (h same) [
          | inl busy ↦ inl (refl, busy.1, busy.2, busy.3)
          | inr free ↦ (let idle_now = free.0 in absurd (ground arith))
        ])
        held
  Call-AreTaken {start} {t} within (renews now command_id node since) held =
      renew-AreTaken deadline id start now _ t within since (λ c hit. ground arith) held
  Call-AreTaken {start} {t} within (discards now command_id node reason) held =
      settled_by deadline id _ _ t (λ c. (refl, refl)) held
  Call-AreTaken {start} {t} within (cancels now command_id node reason) held =
      settled_by deadline id _ _ t (λ c. (refl, refl)) held
  Call-AreTaken {start} {t} within (cancels_task now task_id node reason) held =
      settled_by deadline id _ _ t (λ c. (refl, refl)) held
  Call-AreTaken {start} {t} within (acknowledges now task_id node) held =
      settled_by deadline id _ _ t (λ c. (refl, refl)) held
  Call-AreTaken {start} {t} within (cancels_all now node marker) held =
      settled_by deadline id _ _ t (λ c. (refl, refl)) held
  Call-AreTaken {start} {t} within (discards_all now node) held =
      settled_by deadline id _ _ t (λ c. (refl, refl)) held
  Call-AreTaken {start} {t} within (finalizes node marker) held =
      All-update_where (IsTaken deadline id) _ _ t (λ c m hit h same. h same) held
  Call-AreTaken {start} {t} {u} within (succeeds now task_id error_msg done) held =
      succeeded-AreTaken deadline id now task_id error_msg t u done held
  Call-AreTaken {start} {t} {u} within (fails_other now task_id error_msg other done) held =
      failed-AreTaken deadline id now task_id error_msg t u other done held

  Calls-AreTaken :
      {start : ℕ} {t u : Table}
      → deadline ≤ start + default_lease_seconds
      → Calls start deadline id t u
      → AreTaken deadline id t
      → AreTaken deadline id u
  Calls-AreTaken within none_yet held = held
  Calls-AreTaken within (then_one before call) held =
      Call-AreTaken within call (Calls-AreTaken within before held)

-- Once a claim has returned a command, no claim made within its 300 seconds, by any node or consumer,
-- returns it again, whatever calls of the queue come in between: other claims in that time, new or rejected
-- tasks under identifiers of their own, marks, renewals at no earlier time, discards, cancellations,
-- acknowledgements, reports of success, and reports of failure for other tasks. Only a failure reported for
-- the command's task, or a restoration of cancelled commands, is not among them.
pub claimed_once :
    (id : String) (k later : ClaimCall) (t u : Table)
    → Reports id (run_claim k t).0
    → Calls k.now (k.now + 300) id (run_claim k t).1 u
    → later.now ≤ k.now + 300
    → Reports id (run_claim later u).0
    → ⊥
unfolding update_where lease_command
claimed_once id k later t u first between runs =
    let (c, _, _, after) =
      claim_task-IsNext k.codec k.key k.locked k.now k.consumer k.node t id first in
    let leased =
      subst (AreTaken (k.now + 300) id) (sym after)
        (AreTaken-leased k.now id k.consumer (reset_expired k.now k.node t)) in
    (claim-AreTaken (k.now + 300) id later u runs
      (Calls-AreTaken (k.now + 300) id (omega arith) between leased)).0
