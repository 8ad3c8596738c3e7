-- ===== src/Fleet/Enqueued.antt =====
-- From handlers_tasks.go to HandleTaskClaim: a task that is enqueued for an operation is eligible for the
-- node's claim (internal/api).
use mathlib.Core.Path.{subst}
use admirald.Shared.{
  ◌≡◌, refl, ap, ◌∙◌, ◌⊎◌, inl, inr, Bool, true, any, false, ◌&&◌, none, some, String, List,
  if◌then◌else◌, ◌==◌, Bool-cases, find-In, find-update_where-some, Error, Result, ok, err,
}
use admirald.Shared.Text.{trim_space}
use admirald.Queue.Command.{FleetTask}
use admirald.Queue.Publish.{Publisher, Draw, publish_task}
use admirald.Queue.Settle.{Table}
use admirald.Queue.Listed.{publish_task-listed}
use admirald.Instances.Instance.{CustomerApp, get_customer_app}
use admirald.Operations.Operation.{
  Operation, is_operation, get_operation, is_over, update_operation_task_id,
  update_operation_metadata, mark_operation_queued_if_pending_dispatch,
}
use admirald.Fleet.State.{Control}
use admirald.Fleet.Enqueue.{
  ready, published_raw, enqueue_raw_task, published, with_restart, keep_images,
  enqueue_task_with_id, task_of, starts, needs_restarting, with_images,
}
use admirald.Fleet.Eligible.{IsCurrent, IsUsable, IsEligible}

-- What the caller of an enqueueing function has recorded: an operation that goes on, for the same instance
-- and action, on this node or none, and a task ID that is not blank.
pub record IsFor (task : FleetTask) (node : String) (op : Operation) : Type 0 where
  pub goes_on : is_over op.status ≡ false
  pub same_instance : op.instance_id ≡ task.instance_id
  pub op_node : (op.node_id ≡ "") ⊎ (op.node_id ≡ node)
  pub task_node : (task.node_id ≡ "") ⊎ (task.node_id ≡ node)
  pub same_action : op.action ≡ task.action
  pub named : trim_space task.task_id == "" ≡ false

-- The row once the task is assigned and the operation is marked as queued.
abbrev queued_row : FleetTask → Operation → Operation
queued_row task op =
    if op.status == "pending_dispatch"
    then record op { task_id = task.task_id; status = "queued"; error_message = none }
    else record op { task_id = task.task_id }

queued_row-IsCurrent :
    (task : FleetTask) (node : String) (op : Operation)
    → IsFor task node op
    → IsCurrent task node (queued_row task op)
queued_row-IsCurrent task node op f = elim (Bool-cases (op.status == "pending_dispatch")) [
  | inl h ↦ rw h (record {
    goes_on = refl;
    same_instance = f.same_instance;
    op_node = f.op_node;
    task_node = f.task_node;
    same_action = f.same_action;
    named = f.named;
    same_task = refl;
  })
  | inr h ↦ rw h (record {
    goes_on = f.goes_on;
    same_instance = f.same_instance;
    op_node = f.op_node;
    task_node = f.task_node;
    same_action = f.same_action;
    named = f.named;
    same_task = refl;
  })
]

queued-found :
    (task : FleetTask) (op : Operation) (operations : List Operation)
    → get_operation task.operation_id operations ≡ some op
    → get_operation task.operation_id (
        mark_operation_queued_if_pending_dispatch task.operation_id
          (update_operation_task_id task.operation_id task.task_id operations))
      ≡ some (queued_row task op)
unfolding mark_operation_queued_if_pending_dispatch update_operation_task_id
queued-found task op operations found =
    let id = task.operation_id in
    let (_, hit) = find-In (is_operation id) operations op found in
    let assigned : get_operation id (update_operation_task_id id task.task_id operations)
        ≡ some (record op { task_id = task.task_id }) =
      find-update_where-some (is_operation id) (is_operation id) _ operations op (λ x. refl) found
      ∙ rw hit refl in
    find-update_where-some (is_operation id)
      (λ o. is_operation id o && (o.status == "pending_dispatch")) _
      (update_operation_task_id id task.task_id operations) (record op { task_id = task.task_id })
      (λ x. refl) assigned
    ∙ rw hit refl

-- The task needs no instance, or has one that may be worked on.
abbrev pub Usable : FleetTask → List CustomerApp → Type 0
Usable task apps =
    (task.action ≡ "test_backup_storage")
    ⊎ ((app : CustomerApp) × (get_customer_app task.instance_id apps ≡ some app)
        × IsUsable task.action app)

module _ (error_text : Error → String) (is_blank : String → Bool) (p : Publisher) (d : Draw)
    (task : FleetTask) (node : String) (op : Operation) (wanted : IsFor task node op) where
  queued-IsEligible :
      (operations : List Operation) (apps : List CustomerApp)
      → get_operation task.operation_id operations ≡ some op
      → Usable task apps
      → IsEligible
          (mark_operation_queued_if_pending_dispatch task.operation_id
            (update_operation_task_id task.operation_id task.task_id operations))
          apps
          node
          task
  queued-IsEligible operations apps found usable = record {
    op = queued_row task op;
    recorded = queued-found task op operations found;
    current = queued_row-IsCurrent task node op wanted;
    usable = usable;
  }

  -- A raw task that was enqueued without an error was published, and is eligible for the node.
  pub enqueue_raw_task-IsEligible :
      (s u : Control)
      → get_operation task.operation_id s.operations ≡ some op
      → Usable task s.apps
      → enqueue_raw_task error_text is_blank p d task s ≡ (ok tt, u)
      → IsEligible u.operations u.apps node task
        × (publish_task is_blank p d task s.commands ≡ ok u.commands)
  unfolding enqueue_raw_task published_raw
  enqueue_raw_task-IsEligible s u found usable done =
      go (publish_task is_blank p d task s.commands) refl done
    where
      assigned : Control
      assigned = record s {
        operations = update_operation_task_id task.operation_id task.task_id s.operations;
      }

      go :
          (r : Result Table)
          → publish_task is_blank p d task s.commands ≡ r
          → published_raw error_text is_blank p d task assigned r ≡ (ok tt, u)
          → IsEligible u.operations u.apps node task
            × (publish_task is_blank p d task s.commands ≡ ok u.commands)
      go (err e) made h = absurd (let answer = ap (λ x. x.0) h in cc)
      go (ok commands) made h =
          subst
            (λ v.
              IsEligible v.operations v.apps node task
              × (publish_task is_blank p d task s.commands ≡ ok v.commands))
            (ap (λ x. x.1) h) (queued-IsEligible s.operations s.apps found usable, made)

  keep_images-found :
      (images : List (String × String)) (operations : List Operation)
      → get_operation task.operation_id operations ≡ some op
      → get_operation task.operation_id (keep_images task.operation_id images (some op) operations)
        ≡ some (record op { metadata = with_images images op.metadata })
  unfolding keep_images update_operation_metadata
  keep_images-found images operations found =
      let (_, hit) = find-In (is_operation task.operation_id) operations op found in
      find-update_where-some (is_operation task.operation_id) (is_operation task.operation_id) _
        operations op (λ x. refl) found
      ∙ rw hit refl

-- The operation of a start that must be verified, after its images were kept with it.
with_restart-found :
    (error_text : Error → String) (is_blank : String → Bool) (p : Publisher) (d : Draw)
    (task : FleetTask) (node : String) (op : Operation) (images : List (String × String))
    (s : Control)
    → IsFor task node op
    → get_operation task.operation_id s.operations ≡ some op
    → (o : Operation) × (get_operation task.operation_id
          (with_restart error_text is_blank p d task images s)
        ≡ some o)
      × IsFor task node o
unfolding with_restart
with_restart-found error_text is_blank p d task node op images s f found =
    elim (Bool-cases
      (starts task.action && needs_restarting (get_customer_app task.instance_id s.apps))) [
        | inr h ↦ (op, rw (with_restart, h) found, f)
        | inl h ↦ (
          record op { metadata = with_images images op.metadata },
          rw (with_restart, h, found)
              (keep_images-found error_text is_blank p d task node op f images s.operations found),
          record {
            goes_on = f.goes_on;
            same_instance = f.same_instance;
            op_node = f.op_node;
            task_node = f.task_node;
            same_action = f.same_action;
            named = f.named;
          },
        )
      ]

module _ (error_text : Error → String) (is_blank : String → Bool) (p : Publisher) (d : Draw)
    (task_id op_id instance_id node_id action body : String) (images : List (String × String)) where
  abbrev task : FleetTask
  task = task_of task_id op_id instance_id node_id action body

  enqueued-IsEligible :
      (node : String) (op : Operation) (s u : Control)
      → IsFor task node op
      → get_operation op_id s.operations ≡ some op
      → Usable task s.apps
      → enqueue_task_with_id error_text is_blank p d
          (ready body images)
          task_id
          op_id
          instance_id
          node_id
          action
          s
        ≡ (ok tt, u)
      → IsEligible u.operations u.apps node task
        × (publish_task is_blank p d task s.commands ≡ ok u.commands)
  unfolding enqueue_task_with_id published
  enqueued-IsEligible node op s u f found usable done =
      let (o, kept, wanted) =
        with_restart-found error_text is_blank p d task node op images s f found in
      go o wanted kept (publish_task is_blank p d task s.commands) refl done
    where
      restarted : List Operation
      restarted = with_restart error_text is_blank p d task images s

      go :
          (o : Operation)
          → IsFor task node o
          → get_operation op_id restarted ≡ some o
          → (r : Result Table) → publish_task is_blank p d task s.commands ≡ r
          → published error_text is_blank p d task
              (record s { operations = update_operation_task_id op_id task_id restarted })
              r
            ≡ (ok tt, u)
          → IsEligible u.operations u.apps node task
            × (publish_task is_blank p d task s.commands ≡ ok u.commands)
      go o wanted kept (err e) made h = absurd (let answer = ap (λ x. x.0) h in cc)
      go o wanted kept (ok commands) made h =
          subst
            (λ v.
              IsEligible v.operations v.apps node task
              × (publish_task is_blank p d task s.commands ≡ ok v.commands))
            (ap (λ x. x.1) h)
            (
              queued-IsEligible error_text is_blank p d task node o wanted restarted s.apps kept
                  usable,
              made,
            )

  -- Let a task have an ID that is not blank, and a recorded operation that has not ended, for the same
  -- instance and action, on the node or on none, where the task is for the node or for none; and let its
  -- instance be recorded in a state that the action may run in, unless the action tests a backup storage.
  -- If enqueueing the task ends without an error, then by the tables left the task meets the conditions
  -- under which a claim of the node does not discard it, its publication to the queue ended without an
  -- error, and the queue has a command with the task's ID as its idempotency key, a new one or, where
  -- there was one, that one.
  pub enqueue_task_with_id-IsEligible :
      (node : String) (op : Operation) (s u : Control)
      → IsFor task node op
      → get_operation op_id s.operations ≡ some op
      → Usable task s.apps
      → enqueue_task_with_id error_text is_blank p d
          (ready body images)
          task_id
          op_id
          instance_id
          node_id
          action
          s
        ≡ (ok tt, u)
      → IsEligible u.operations u.apps node task
        × (publish_task is_blank p d task s.commands ≡ ok u.commands)
        × (any (λ c. c.idempotency_key == task_id) u.commands ≡ true)
  enqueue_task_with_id-IsEligible node op s u f found usable done =
      let (eligible, sent) = enqueued-IsEligible node op s u f found usable done in
      (eligible, sent, publish_task-listed is_blank p d task s.commands u.commands sent)
