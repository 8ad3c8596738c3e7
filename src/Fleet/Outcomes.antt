-- ===== src/Fleet/Outcomes.antt =====
-- The outcomes of HandleFleetCallback (internal/api/handlers_fleet.go), and the row of the operation after
-- its result was applied.
use mathlib.Core.Path.{subst}
use admirald.Shared.{
  ℕ, ◌≡◌, ◌≢◌, refl, ap, ◌∙◌, ◌⊎◌, inl, inr, Bool, true, false, not, ◌&&◌, Option, none, some,
  String, List, arith, if◌then◌else◌, ◌==◌, eq_iff, Bool-cases, find-In, if_both,
  find-update_where-some, Result, ok, err,
}
use admirald.Nodes.Capacity.{Floats}
use admirald.Queue.Publish.{Publisher}
use admirald.Operations.Operation.{
  Operation, is_operation, get_operation, is_over, update_operation, update_operation_metadata,
  null_if_empty,
}
use admirald.Fleet.State.{TaskResult, Control, Decoders, Catalog}
use admirald.Fleet.Enqueue.{fail_operation, starts}
use admirald.Fleet.Effects.{Cleanup}
use admirald.Fleet.Aftermath.{aftermath-Recorded}
use admirald.Fleet.Callback.{
  CallbackAnswer, unknown_operation, duplicate, wrong_node, wrong_task, accepted,
  fail_fleet_callback_task, acknowledge_duplicate, reject, verified, unless_refused, reports_ports,
  record_ports, ports_recorded, settle_operation, apply_result, callback_on, handle_fleet_callback,
}

-- Only commands of the queue may differ.
pub record IsSameButCommands (s u : Control) : Type 0 where
  pub same_operations : u.operations ≡ s.operations
  pub same_apps : u.apps ≡ s.apps
  pub same_nodes : u.nodes ≡ s.nodes
  pub same_backups : u.backups ≡ s.backups

pub fail_fleet_callback_task-same :
    (now : ℕ) (task_id reason : String) (s : Control)
    → IsSameButCommands s (fail_fleet_callback_task now task_id reason s)
unfolding fail_fleet_callback_task
fail_fleet_callback_task-same now task_id reason s =
    if_both (IsSameButCommands s) (task_id == "") _ _
      (record { same_operations = refl; same_apps = refl; same_nodes = refl; same_backups = refl })
      (record { same_operations = refl; same_apps = refl; same_nodes = refl; same_backups = refl })

acknowledge_duplicate-same :
    (now : ℕ) (op : Operation) (res : TaskResult) (s : Control)
    → IsSameButCommands s (acknowledge_duplicate now op res s)
unfolding acknowledge_duplicate
acknowledge_duplicate-same now op res s = record {
  same_operations = refl;
  same_apps = refl;
  same_nodes = refl;
  same_backups = refl;
}

-- What the settlement makes of the row of the operation.
abbrev pub settled_row : Decoders → Operation → TaskResult → Operation
settled_row dec op res = record op {
  status = if res.success then "succeeded" else "failed";
  error_message = null_if_empty res.error;
  metadata = (record_ports dec op res).metadata;
}

pub settled_over : (success : Bool) → is_over (if success then "succeeded" else "failed") ≡ true
settled_over true = refl
settled_over false = refl

pub update_operation-found :
    (id status error_msg : String) (o : Operation) (operations : List Operation)
    → get_operation id operations ≡ some o
    → get_operation id (update_operation id status error_msg operations)
      ≡ some (record o { status = status; error_message = null_if_empty error_msg })
unfolding update_operation
update_operation-found id status error_msg o operations found =
    let (_, hit) = find-In (is_operation id) operations o found in
    find-update_where-some (is_operation id) (is_operation id) _ operations o (λ x. refl) found
    ∙ rw hit refl

pub ports_recorded-found :
    (dec : Decoders) (op : Operation) (res : TaskResult) (id : String) (operations : List Operation)
    → op.id ≡ id
    → get_operation id operations ≡ some op
    → get_operation id (ports_recorded dec op res operations)
      ≡ some (record op { metadata = (record_ports dec op res).metadata })
unfolding ports_recorded record_ports update_operation_metadata
ports_recorded-found dec op res id operations same found =
    elim (Bool-cases (reports_ports op res)) [
      | inr h ↦ rw (ports_recorded, record_ports, h) found
      | inl h ↦
          rw (ports_recorded, record_ports, h)
            (find-update_where-some (is_operation id) (is_operation op.id) _ operations op
                (λ x. refl) found
              ∙ rw ((eq_iff op.id op.id).1 refl) refl)
    ]

unless_refused-operation_id :
    (dec : Decoders) (res : TaskResult) (r : Result (Unit {0}))
    → (unless_refused dec res r).operation_id ≡ res.operation_id
unless_refused-operation_id dec res (ok _) = refl
unless_refused-operation_id dec res (err e) = refl

pub verified-operation_id :
    (dec : Decoders) (catalog : Catalog) (op : Operation) (res : TaskResult) (s : Control)
    → (verified dec catalog op res s).operation_id ≡ res.operation_id
unfolding verified
verified-operation_id dec catalog op res s = elim (Bool-cases (res.success && starts op.action)) [
  | inl h ↦ rw (verified, h) (unless_refused-operation_id dec res _)
  | inr h ↦ rw (verified, h) refl
]

module _ {F : Type 0} (fl : Floats F) (dec : Decoders) (is_blank : String → Bool) (p : Publisher)
    (now : ℕ) (catalog : Catalog) (fresh : Cleanup) where
  -- The operation after its result was applied.
  pub apply_result-found :
      (op : Operation) (res : TaskResult) (s : Control)
      → op.id ≡ res.operation_id
      → get_operation op.id s.operations ≡ some op
      → get_operation op.id (apply_result fl dec is_blank p now catalog fresh op res s).operations
        ≡ some (settled_row dec op res)
  unfolding apply_result settle_operation
  apply_result-found op res s same found =
      let recorded = ports_recorded-found dec op res op.id s.operations refl found in
      let settled : get_operation op.id
            (settle_operation fl dec is_blank p now catalog fresh op res s).operations
          ≡ some (settled_row dec op res) =
        subst
          (λ i.
            get_operation op.id (
              update_operation i (if res.success then "succeeded" else "failed") res.error
                (ports_recorded dec op res s.operations))
            ≡ some (settled_row dec op res))
          same
          (update_operation-found op.id (if res.success then "succeeded" else "failed") res.error
            (record op { metadata = (record_ports dec op res).metadata })
            (ports_recorded dec op res s.operations) recorded) in
      aftermath-Recorded fl dec is_blank p now catalog fresh (settled_row dec op res)
        (record_ports dec op res) res
        (settle_operation fl dec is_blank p now catalog fresh op res s) settled

  abbrev handled : Option String → TaskResult → Control → CallbackAnswer × Control
  handled = handle_fleet_callback fl dec is_blank p now catalog fresh

  abbrev on_operation : TaskResult → Option Operation → Control → CallbackAnswer × Control
  on_operation = callback_on fl dec is_blank p now catalog fresh

  -- The outcomes of a callback that the node's identity lets through.
  pub data Outcome (res : TaskResult) (s : Control) : CallbackAnswer × Control → Type 0 where
    unknown :
        {u : Control}
        → get_operation res.operation_id s.operations ≡ none
        → IsSameButCommands s u
        → Outcome res s (unknown_operation, u)
    repeated :
        (op : Operation) {u : Control}
        → get_operation res.operation_id s.operations ≡ some op
        → is_over op.status ≡ true
        → IsSameButCommands s u
        → Outcome res s (duplicate, u)
    rejected :
        (op : Operation) (reason : String) (answer : CallbackAnswer) {u : Control}
        → get_operation res.operation_id s.operations ≡ some op
        → is_over op.status ≡ false
        → answer ≢ accepted
        → IsSameButCommands (fail_operation op.id reason s) u
        → Outcome res s (answer, u)
    applied :
        (op : Operation)
        → get_operation res.operation_id s.operations ≡ some op
        → is_over op.status ≡ false
        → (op.node_id ≡ "") ⊎ (op.node_id ≡ res.node_id)
        → (op.task_id ≡ "") ⊎ (op.task_id ≡ res.task_id)
        → Outcome res s (
          accepted,
          apply_result fl dec is_blank p now catalog fresh op (verified dec catalog op res s) s,
        )

  reject-same :
      (op : Operation) (reason : String) (s : Control)
      → IsSameButCommands (fail_operation op.id reason s) (reject now op reason s)
  unfolding reject
  reject-same op reason s =
      let k = fail_fleet_callback_task-same now op.task_id reason s in
      record {
        same_operations = ap (λ l. update_operation op.id "failed" reason l) k.same_operations;
        same_apps = k.same_apps;
        same_nodes = k.same_nodes;
        same_backups = k.same_backups;
      }

  pub callback_on-Outcome :
      (res : TaskResult) (found : Option Operation) (s : Control)
      → get_operation res.operation_id s.operations ≡ found
      → Outcome res s (on_operation res found s)
  unfolding callback_on
  callback_on-Outcome res none s e =
      unknown e
        (fail_fleet_callback_task-same now res.task_id "callback references an unknown operation" s)
  callback_on-Outcome res (some op) s e = elim (Bool-cases (is_over op.status)) [
    | inl over ↦
        rw (callback_on, over) (repeated op e over (acknowledge_duplicate-same now op res s))
    | inr going ↦ elim (Bool-cases (not (op.node_id == "") && not (op.node_id == res.node_id))) [
      | inl other ↦
          rw (callback_on, going, other)
            (rejected op "callback node_id does not match operation" wrong_node e going (λ h. cc)
              (reject-same op "callback node_id does not match operation" s))
      | inr same_node ↦
          elim (Bool-cases (not (op.task_id == "") && not (op.task_id == res.task_id))) [
            | inl other ↦
                rw (callback_on, going, same_node, other)
                  (rejected op "callback task_id does not match operation" wrong_task e going
                    (λ h. cc) (reject-same op "callback task_id does not match operation" s))
            | inr same_task ↦
                let n = eq_iff op.node_id "" in
                let n2 = eq_iff op.node_id res.node_id in
                let t = eq_iff op.task_id "" in
                let t2 = eq_iff op.task_id res.task_id in
                rw (callback_on, going, same_node, same_task)
                  (applied op e going (ground arith) (ground arith))
          ]
    ]
  ]
