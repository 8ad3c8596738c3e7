-- ===== src/Fleet/Eligible.antt =====
-- Which tasks HandleTaskClaim of internal/api/handlers_fleet.go hands out.
use Prim.Native.String.{◌++◌, len}
use text.Mathlib.TextPositions.{len-append}
use mathlib.Core.Path.{subst}
use admirald.Shared.{
  ◌≡◌, ◌↔◌, ◌⊎◌, ◌+◌, refl, sym, ap, ◌∙◌, inl, inr, Bool, true, false, not, ◌&&◌, Option, none,
  some, String, List, arith, eq_iff, if◌then◌else◌, ◌==◌, Bool-cases, some_injective,
}
use admirald.Shared.Text.{trim_space}
use admirald.Queue.Command.{FleetTask}
use admirald.Instances.Instance.{CustomerApp, get_customer_app}
use admirald.Operations.Operation.{Operation, get_operation, is_over}
use admirald.Fleet.Stale.{stale_task_reason, instance_reason, discard_reason}

-- The operation wants this task, on this node.
pub record IsCurrent (task : FleetTask) (node : String) (op : Operation) : Type 0 where
  pub goes_on : is_over op.status ≡ false
  pub same_instance : op.instance_id ≡ task.instance_id
  pub op_node : (op.node_id ≡ "") ⊎ (op.node_id ≡ node)
  pub task_node : (task.node_id ≡ "") ⊎ (task.node_id ≡ node)
  pub same_action : op.action ≡ task.action
  pub named : trim_space task.task_id == "" ≡ false
  pub same_task : op.task_id ≡ task.task_id

-- The instance of the task may be worked on.
pub record IsUsable (action : String) (app : CustomerApp) : Type 0 where
  pub there_or_cleanup :
      (app.technical_status == "deprovisioned" ≡ false) ⊎ (action ≡ "delete_backup")

-- A task that may be handed out to a node.
pub record IsEligible (operations : List Operation) (apps : List CustomerApp) (node : String)
    (task : FleetTask) : Type 0 where
  pub op : Operation
  pub recorded : get_operation task.operation_id operations ≡ some op
  pub current : IsCurrent task node op
  pub usable :
      (task.action ≡ "test_backup_storage")
      ⊎ ((app : CustomerApp) × (get_customer_app task.instance_id apps ≡ some app)
          × IsUsable task.action app)

-- The status of an ended operation makes the reason a text that is not empty.
terminal_reason : (status : String) → ("operation is terminal: " ++ status) == "" ≡ false
terminal_reason status = elim (Bool-cases (("operation is terminal: " ++ status) == "")) [
  | inl blank ↦
      let sizes : len "operation is terminal: " + len status ≡ len "" =
        sym (len-append "operation is terminal: " status)
        ∙ ap len ((eq_iff ("operation is terminal: " ++ status) "").0 blank) in
      absurd (omega (arith, sizes))
  | inr filled ↦ filled
]

-- A chain of reasons is empty if the first test fails and the rest is empty.
reason_empty :
    (b : Bool) (reason rest : String)
    → reason == "" ≡ false
    → ((if b then reason else rest) == "" ≡ true) ↔ ((b ≡ false) × (rest == "" ≡ true))
reason_empty true reason rest some_reason = ((λ h. cc), (λ h. cc))
reason_empty false reason rest some_reason = ((λ h. (refl, h)), (λ h. h.1))

stale_task_reason-IsCurrent :
    (task : FleetTask) (op : Operation) (node : String)
    → (stale_task_reason task (some op) node == "" ≡ true) ↔ IsCurrent task node op
unfolding stale_task_reason
stale_task_reason-IsCurrent task op node =
    let ended = reason_empty (is_over op.status) _ _ (terminal_reason op.status) in
    let instance_ = reason_empty (not (op.instance_id == task.instance_id)) _ _ refl in
    let op_node = reason_empty (not (op.node_id == "") && not (op.node_id == node)) _ _ refl in
    let task_node =
      reason_empty (not (task.node_id == "") && not (task.node_id == node)) _ _ refl in
    let action = reason_empty (not (op.action == task.action)) _ _ refl in
    let op_named = reason_empty (trim_space op.task_id == "") _ _ refl in
    let task_named = reason_empty (trim_space task.task_id == "") _ _ refl in
    let same_task = reason_empty (not (op.task_id == task.task_id)) _ "" refl in
    let i = eq_iff op.instance_id task.instance_id in
    let o = eq_iff op.node_id "" in
    let o2 = eq_iff op.node_id node in
    let n = eq_iff task.node_id "" in
    let n2 = eq_iff task.node_id node in
    let a = eq_iff op.action task.action in
    let s = eq_iff op.task_id task.task_id in
    (
      λ h.
          let (h1, r1) = ended.0 h in
          let (h2, r2) = instance_.0 r1 in
          let (h3, r3) = op_node.0 r2 in
          let (h4, r4) = task_node.0 r3 in
          let (h5, r5) = action.0 r4 in
          let (h6, r6) = op_named.0 r5 in
          let (h7, r7) = task_named.0 r6 in
          let (h8, r8) = same_task.0 r7 in
          record {
            goes_on = h1;
            same_instance = ground arith;
            op_node = ground arith;
            task_node = ground arith;
            same_action = ground arith;
            named = h7;
            same_task = ground arith;
          },
      λ c.
          let c2 = c.same_instance in
          let c3 = c.op_node in
          let c4 = c.task_node in
          let c5 = c.same_action in
          let c7 = c.same_task in
          ended.1 (
            c.goes_on,
            instance_.1 (
              ground arith,
              op_node.1 (
                ground arith,
                task_node.1 (
                  ground arith,
                  action.1 (
                    ground arith,
                    op_named.1
                        (rw c7 (c.named), task_named.1 (c.named, same_task.1 (ground arith, refl))),
                  ),
                ),
              ),
            ),
          ),
    )

stale_task_reason-cases :
    (task : FleetTask) (node : String) (found : Option Operation)
    → (stale_task_reason task found node == "" ≡ true)
      ↔ ((op : Operation) × (found ≡ some op) × IsCurrent task node op)
unfolding stale_task_reason
stale_task_reason-cases task node none = ((λ h. cc), (λ v. let e = v.1 in cc))
stale_task_reason-cases task node (some op) = (
  λ h. (op, refl, (stale_task_reason-IsCurrent task op node).0 h),
  λ v.
      let (other, e, current) = v in
      (stale_task_reason-IsCurrent task op node).1
        (subst (λ o. IsCurrent task node o) (sym (some_injective op other e)) current),
)

instance_reason-IsUsable :
    (action : String) (found : Option CustomerApp)
    → (instance_reason action found == "" ≡ true)
      ↔ ((app : CustomerApp) × (found ≡ some app) × IsUsable action app)
unfolding instance_reason
instance_reason-IsUsable action none = ((λ h. cc), (λ v. let e = v.1 in cc))
instance_reason-IsUsable action (some app) =
    let blocked =
      reason_empty ((app.technical_status == "deprovisioned") && not (action == "delete_backup"))
        "instance is already deprovisioned" "" refl in
    let cleanup = eq_iff action "delete_backup" in
    (
      λ h. let (free, _) = blocked.0 h in (app, refl, record { there_or_cleanup = ground arith }),
      λ v.
          let (other, e, usable) = v in
          let same : app ≡ other = some_injective app other e in
          let either =
            subst
              (λ x. (x.technical_status == "deprovisioned" ≡ false) ⊎ (action ≡ "delete_backup"))
              (sym same) usable.there_or_cleanup in
          blocked.1 (ground arith, refl),
    )

-- A second reason is looked for only if there is no first one, and the test asks for it.
chained :
    (first second : String) (skip : Bool)
    → ((if (first == "") && not skip then second else first) == "" ≡ true)
      ↔ ((first == "" ≡ true) × ((skip ≡ true) ⊎ (second == "" ≡ true)))
chained first second skip = elim (Bool-cases (first == "")) [
  | inl e ↦ rw e (go skip e)
  | inr e ↦ rw (e, e) ((λ h. cc), (λ v. let h = v.0 in cc))
]
  where
    go :
        (b : Bool)
        → first == "" ≡ true
        → ((if true && not b then second else first) == "" ≡ true)
          ↔ ((true ≡ true) × ((b ≡ true) ⊎ (second == "" ≡ true)))
    go true e = ((λ h. (refl, inl refl)), (λ v. e))
    go false e = (λ h. (refl, inr h), λ v. elim (v.1) [ inl t ↦ cc | inr h ↦ h ])

-- A task is handed out exactly if its operation is recorded, has not ended, and names this task, this
-- node or none, the same instance and the same action, and its instance may be worked on.
pub discard_reason-IsEligible :
    (operations : List Operation) (apps : List CustomerApp) (node : String) (task : FleetTask)
    → (discard_reason operations apps node task == "" ≡ true) ↔ IsEligible operations apps node task
unfolding discard_reason
discard_reason-IsEligible operations apps node task =
    let found = get_operation task.operation_id operations in
    let both =
      chained (stale_task_reason task found node)
        (instance_reason task.action (get_customer_app task.instance_id apps))
        (task.action == "test_backup_storage") in
    let known = stale_task_reason-cases task node found in
    let usable = instance_reason-IsUsable task.action (get_customer_app task.instance_id apps) in
    let test = eq_iff task.action "test_backup_storage" in
    (
      λ h.
          let (current, instance_) = both.0 h in
          let (op, recorded, is_current) = known.0 current in
          record {
            op = op;
            recorded = recorded;
            current = is_current;
            usable = elim instance_ [ inl t ↦ inl (test.0 t) | inr u ↦ inr (usable.0 u) ];
          },
      λ v. both.1 (
        known.1 (v.op, v.recorded, v.current),
        elim (v.usable) [ inl t ↦ inl (test.1 t) | inr u ↦ inr (usable.1 u) ],
      ),
    )
