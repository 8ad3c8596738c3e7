-- ===== src/Fleet/Kept.antt =====
-- What a callback does to the instance leaves the operations that are recorded as they were: the parts of
-- internal/api/handlers_fleet.go and handlers_tasks.go that follow the settlement of an operation.
use mathlib.Core.Path.{subst}
use admirald.Shared.{
  ◌≡◌, refl, sym, ap, ◌∙◌, inl, inr, Bool, false, ◌&&◌, Option, none, some, String, List, any,
  arith, ◌==◌, Bool-cases, find-In, any-hit, update_where, find-update_where-some, Error, Result,
  ok, err,
}
use admirald.Queue.Command.{FleetTask}
use admirald.Queue.Publish.{Publisher, Draw, publish_task}
use admirald.Queue.Settle.{Table}
use admirald.Instances.Instance.{get_customer_app}
use admirald.Operations.Operation.{
  Operation, is_operation, get_operation, update_operation, update_operation_metadata,
  update_operation_task_id, mark_operation_queued_if_pending_dispatch,
}
use admirald.Fleet.State.{Control}
use admirald.Fleet.Enqueue.{
  Prepared, ready, unprepared, is_suboperation, fail_instance_for_task, keep_images, with_restart,
  published, enqueue_task_with_id, fail_operation, starts, needs_restarting, task_of,
}

-- The operation is found under its identifier.
abbrev pub Recorded : Operation → List Operation → Type 0
Recorded o operations = get_operation o.id operations ≡ some o

-- An update of other rows.
pub Recorded-update_where :
    (o : Operation) (q : Operation → Bool) (f : Operation → Operation) (operations : List Operation)
    → ((x : Operation) → (f x).id ≡ x.id)
    → q o ≡ false
    → Recorded o operations
    → Recorded o (update_where q f operations)
Recorded-update_where o q f operations same_id other found =
    find-update_where-some (is_operation o.id) q f operations o
      (λ x. ap (λ i. i == o.id) (same_id x)) found
    ∙ rw other refl

-- A recorded operation does not have the identifier of a new one.
pub Recorded-fresh :
    (o : Operation) (id : String) (operations : List Operation)
    → any (is_operation id) operations ≡ false
    → Recorded o operations
    → o.id == id ≡ false
Recorded-fresh o id operations fresh found = elim (Bool-cases (o.id == id)) [
  | inr other ↦ other
  | inl same ↦
      let (m, _) = find-In (is_operation o.id) operations o found in
      let hit = any-hit (is_operation id) o operations m same in cc
]

fail_instance_for_task-operations :
    (op_id instance_id : String) (s : Control)
    → (fail_instance_for_task op_id instance_id s).operations ≡ s.operations
unfolding fail_instance_for_task
fail_instance_for_task-operations op_id instance_id s =
    elim (Bool-cases (is_suboperation (get_operation op_id s.operations))) [
      | inl h ↦ rw (fail_instance_for_task, h) refl
      | inr h ↦ rw (fail_instance_for_task, h) refl
    ]

keep_images-Recorded :
    (o : Operation) (op_id : String) (images : List (String × String)) (found : Option Operation)
    (operations : List Operation)
    → o.id == op_id ≡ false
    → Recorded o operations
    → Recorded o (keep_images op_id images found operations)
unfolding keep_images update_operation_metadata
keep_images-Recorded o op_id images none operations other r = r
keep_images-Recorded o op_id images (some op) operations other r =
    Recorded-update_where o (is_operation op_id) _ operations (λ x. refl) other r

module _ (error_text : Error → String) (is_blank : String → Bool) (p : Publisher) (d : Draw)
    (o : Operation) where
  with_restart-Recorded :
      (task : FleetTask) (images : List (String × String)) (s : Control)
      → o.id == task.operation_id ≡ false
      → Recorded o s.operations
      → Recorded o (with_restart error_text is_blank p d task images s)
  unfolding with_restart
  with_restart-Recorded task images s other r =
      elim (Bool-cases
        (starts task.action && needs_restarting (get_customer_app task.instance_id s.apps))) [
          | inl h ↦
              rw (with_restart, h)
                (keep_images-Recorded o task.operation_id images
                  (get_operation task.operation_id s.operations) s.operations other r)
          | inr h ↦ rw (with_restart, h) r
        ]

  published-Recorded :
      (task : FleetTask) (s : Control) (r : Result Table)
      → o.id == task.operation_id ≡ false
      → Recorded o s.operations
      → Recorded o (published error_text is_blank p d task s r).1.operations
  unfolding published update_operation mark_operation_queued_if_pending_dispatch
  published-Recorded task s (err e) other found =
      subst (λ l. Recorded o l)
        (sym (
          fail_instance_for_task-operations task.operation_id task.instance_id
            (fail_operation task.operation_id (error_text e) s)))
        (Recorded-update_where o (is_operation task.operation_id) _ s.operations (λ x. refl) other
          found)
  published-Recorded task s (ok commands) other found =
      Recorded-update_where o _ _ s.operations (λ x. refl) (ground arith) found

  -- Enqueueing the task of another operation.
  pub enqueue_task_with_id-Recorded :
      (prepared : Prepared) (task_id op_id instance_id node_id action : String) (s : Control)
      → o.id == op_id ≡ false
      → Recorded o s.operations
      → Recorded o
          (enqueue_task_with_id error_text is_blank p d prepared task_id op_id instance_id node_id
            action s).1.operations
  unfolding enqueue_task_with_id update_operation update_operation_task_id
  enqueue_task_with_id-Recorded (unprepared error_msg) task_id op_id instance_id node_id action s
        other found =
      subst (λ l. Recorded o l)
        (sym
          (fail_instance_for_task-operations op_id instance_id (fail_operation op_id error_msg s)))
        (Recorded-update_where o (is_operation op_id) _ s.operations (λ x. refl) other found)
  enqueue_task_with_id-Recorded (ready body images) task_id op_id instance_id node_id action s other
        found =
      let task = task_of task_id op_id instance_id node_id action body in
      published-Recorded task _ (publish_task is_blank p d task s.commands) other (
        Recorded-update_where o (is_operation op_id) _
          (with_restart error_text is_blank p d task images s) (λ x. refl) other
          (with_restart-Recorded task images s other found))
