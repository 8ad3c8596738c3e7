-- ===== src/Fleet/Repeated.antt =====
-- HandleFleetCallback (internal/api/handlers_fleet.go) under repeated delivery, and for operations that
-- have ended.
use mathlib.Core.Path.{subst}
use admirald.Shared.{
  ℕ, ◌≡◌, refl, sym, ◌∙◌, inl, inr, Bool, true, false, Option, none, some, String, List, ◌==◌,
  eq_iff, Bool-cases, find-In, if_both, some_injective,
}
use admirald.Nodes.Capacity.{Floats}
use admirald.Queue.Publish.{Publisher}
use admirald.Operations.Operation.{
  Operation, is_operation, get_operation, is_over, update_operation, update_operation_metadata,
  null_if_empty,
}
use admirald.Fleet.State.{TaskResult, Control, Decoders, Catalog}
use admirald.Fleet.Effects.{Cleanup}
use admirald.Fleet.Kept.{Recorded, Recorded-update_where}
use admirald.Fleet.Aftermath.{aftermath-Recorded}
use admirald.Fleet.Callback.{
  CallbackAnswer, wrong_identity, is_impostor, verified, record_ports, reports_ports,
  ports_recorded, settle_operation, apply_result, handle_fleet_callback,
}
use admirald.Fleet.Outcomes.{
  IsSameButCommands, Outcome, unknown, repeated, rejected, applied, settled_row, settled_over,
  fail_fleet_callback_task-same, verified-operation_id, update_operation-found, apply_result-found,
  callback_on-Outcome,
}

module _ {F : Type 0} (fl : Floats F) (dec : Decoders) (is_blank : String → Bool) (p : Publisher)
    (now : ℕ) (catalog : Catalog) (fresh : Cleanup) where
  abbrev handled : Option String → TaskResult → Control → CallbackAnswer × Control
  handled = handle_fleet_callback fl dec is_blank p now catalog fresh

  -- A case distinction on the outcome of a callback.
  handled-cases :
      (P : CallbackAnswer × Control → Type 0) (authenticated : Option String) (res : TaskResult)
      (s : Control)
      → ((u : Control) → IsSameButCommands s u → P (wrong_identity, u))
      → ((r : CallbackAnswer × Control) → Outcome fl dec is_blank p now catalog fresh res s r → P r)
      → P (handled authenticated res s)
  unfolding handle_fleet_callback
  handled-cases P authenticated res s impostor through =
      if_both P (is_impostor authenticated res.node_id) _ _
        (impostor _ (
          fail_fleet_callback_task-same now res.task_id
            "callback node_id does not match authenticated node" s))
        (through _ (
          callback_on-Outcome fl dec is_blank p now catalog fresh res
            (get_operation res.operation_id s.operations) s refl))

  -- An operation that has ended is not the one that a result is applied to.
  other_operation :
      (o op : Operation) (id : String) (operations : List Operation)
      → is_over o.status ≡ true
      → Recorded o operations
      → get_operation id operations ≡ some op
      → is_over op.status ≡ false
      → o.id == op.id ≡ false
  other_operation o op id operations over r found going = elim (Bool-cases (o.id == op.id)) [
    | inr other ↦ other
    | inl hit ↦
        let (_, named) = find-In (is_operation id) operations op found in
        let same_id : id ≡ o.id =
          sym ((eq_iff op.id id).0 named) ∙ sym ((eq_iff o.id op.id).0 hit) in
        let same : o ≡ op =
          some_injective o op
            (sym r ∙ subst (λ i. get_operation i operations ≡ some op) same_id found) in
        let clash = subst (λ x. is_over x.status ≡ true) same over in cc
  ]

  ports_recorded-Recorded :
      (o op : Operation) (res : TaskResult) (operations : List Operation)
      → o.id == op.id ≡ false
      → Recorded o operations
      → Recorded o (ports_recorded dec op res operations)
  unfolding ports_recorded update_operation_metadata
  ports_recorded-Recorded o op res operations other r =
      if_both (λ l. Recorded o l) (reports_ports op res) _ _
        (Recorded-update_where o (is_operation op.id) _ operations (λ x. refl) other r) r

  apply_result-Recorded :
      (o op : Operation) (res : TaskResult) (s : Control)
      → op.id ≡ res.operation_id
      → o.id == op.id ≡ false
      → Recorded o s.operations
      → Recorded o (apply_result fl dec is_blank p now catalog fresh op res s).operations
  unfolding apply_result settle_operation update_operation
  apply_result-Recorded o op res s same other r =
      let away : o.id == res.operation_id ≡ false = subst (λ i. o.id == i ≡ false) same other in
      aftermath-Recorded fl dec is_blank p now catalog fresh o (record_ports dec op res) res
        (settle_operation fl dec is_blank p now catalog fresh op res s)
        (Recorded-update_where o (is_operation res.operation_id) _
          (ports_recorded dec op res s.operations) (λ x. refl) away
          (ports_recorded-Recorded o op res s.operations other r))

  found_id :
      (id : String) (op : Operation) (operations : List Operation)
      → get_operation id operations ≡ some op
      → op.id ≡ id
  found_id id op operations found =
      (eq_iff op.id id).0 (find-In (is_operation id) operations op found).1

  -- Whatever callback arrives, an operation that has ended keeps its row: its status, its error and the
  -- rest.
  pub handle_fleet_callback-over :
      (authenticated : Option String) (res : TaskResult) (s : Control) (o : Operation)
      → is_over o.status ≡ true
      → get_operation o.id s.operations ≡ some o
      → get_operation o.id (handled authenticated res s).1.operations ≡ some o
  unfolding update_operation
  handle_fleet_callback-over authenticated res s o over r =
      handled-cases (λ u. Recorded o u.1.operations) authenticated res s
        (λ u same. subst (λ l. Recorded o l) (sym same.same_operations) r) (λ r. go {u = r})
    where
      go :
          {u : CallbackAnswer × Control}
          → Outcome fl dec is_blank p now catalog fresh res s u
          → Recorded o u.1.operations
      go (unknown _ same) = subst (λ l. Recorded o l) (sym same.same_operations) r
      go (repeated op _ _ same) = subst (λ l. Recorded o l) (sym same.same_operations) r
      go (rejected op reason answer found going _ same) =
          subst (λ l. Recorded o l) (sym same.same_operations)
            (Recorded-update_where o (is_operation op.id) _ s.operations (λ x. refl)
              (other_operation o op res.operation_id s.operations over r found going) r)
      go (applied op found going _ _) =
          let v = verified dec catalog op res s in
          apply_result-Recorded o op v s
            (found_id res.operation_id op s.operations found
              ∙ sym (verified-operation_id dec catalog op res s))
            (other_operation o op res.operation_id s.operations over r found going) r

  -- There is no operation to which the result could be applied.
  data NothingToApply (id : String) (operations : List Operation) : Type 0 where
    gone : get_operation id operations ≡ none → NothingToApply id operations
    ended :
        (o : Operation)
        → get_operation id operations ≡ some o
        → is_over o.status ≡ true
        → NothingToApply id operations

  contradicts :
      (id : String) (operations : List Operation) (op : Operation)
      → NothingToApply id operations
      → get_operation id operations ≡ some op
      → is_over op.status ≡ true
  contradicts id operations op (gone e) found = cc
  contradicts id operations op (ended o e over) found =
      subst (λ x. is_over x.status ≡ true) (some_injective o op (sym e ∙ found)) over

  nothing-same :
      (authenticated : Option String) (res : TaskResult) (s : Control)
      → NothingToApply res.operation_id s.operations
      → IsSameButCommands s (handled authenticated res s).1
  nothing-same authenticated res s n =
      handled-cases (λ u. IsSameButCommands s u.1) authenticated res s (λ u same. same)
        (λ r. go {u = r})
    where
      go :
          {u : CallbackAnswer × Control}
          → Outcome fl dec is_blank p now catalog fresh res s u
          → IsSameButCommands s u.1
      go (unknown _ same) = same
      go (repeated op _ _ same) = same
      go (rejected op reason answer found going _ same) =
          absurd (let over = contradicts res.operation_id s.operations op n found in cc)
      go (applied op found going _ _) =
          absurd (let over = contradicts res.operation_id s.operations op n found in cc)

  -- After a callback that the node's identity lets through, there is nothing left to apply.
  outcome-NothingToApply :
      (res : TaskResult) (s : Control) {u : CallbackAnswer × Control}
      → Outcome fl dec is_blank p now catalog fresh res s u
      → NothingToApply res.operation_id u.1.operations
  outcome-NothingToApply res s (unknown e same) =
      gone (subst (λ l. get_operation res.operation_id l ≡ none) (sym same.same_operations) e)
  outcome-NothingToApply res s (repeated op e over same) =
      ended op
        (subst (λ l. get_operation res.operation_id l ≡ some op) (sym same.same_operations) e) over
  outcome-NothingToApply res s (rejected op reason answer found going _ same) =
      let failed = update_operation-found op.id "failed" reason op s.operations (
        subst (λ i. get_operation i s.operations ≡ some op)
          (sym (found_id res.operation_id op s.operations found)) found) in
      let row : Operation = record op { status = "failed"; error_message = null_if_empty reason } in
      ended row
        (subst (λ l. get_operation res.operation_id l ≡ some row) (sym same.same_operations)
          (subst
            (λ i. get_operation i (update_operation op.id "failed" reason s.operations) ≡ some row)
            (found_id res.operation_id op s.operations found) failed))
        refl
  outcome-NothingToApply res s (applied op found going _ _) =
      let v = verified dec catalog op res s in
      let same_id = found_id res.operation_id op s.operations found in
      ended (settled_row dec op v)
        (subst
          (λ i.
            get_operation i (apply_result fl dec is_blank p now catalog fresh op v s).operations
            ≡ some (settled_row dec op v))
          same_id
          (apply_result-found fl dec is_blank p now catalog fresh op v s
            (same_id ∙ sym (verified-operation_id dec catalog op res s))
            (subst (λ i. get_operation i s.operations ≡ some op) (sym same_id) found)))
        (settled_over v.success)

  impostor-same :
      (authenticated : Option String) (res : TaskResult) (s : Control)
      → is_impostor authenticated res.node_id ≡ true
      → IsSameButCommands s (handled authenticated res s).1
  unfolding handle_fleet_callback
  impostor-same authenticated res s h =
      rw (handle_fleet_callback, h)
        (fail_fleet_callback_task-same now res.task_id
          "callback node_id does not match authenticated node" s)

  handled-NothingToApply :
      (authenticated : Option String) (res : TaskResult) (s : Control)
      → is_impostor authenticated res.node_id ≡ false
      → NothingToApply res.operation_id (handled authenticated res s).1.operations
  unfolding handle_fleet_callback
  handled-NothingToApply authenticated res s h =
      rw (handle_fleet_callback, h)
        (outcome-NothingToApply res s (
          callback_on-Outcome fl dec is_blank p now catalog fresh res
            (get_operation res.operation_id s.operations) s refl))

-- A callback that is delivered again, at the same time or later, changes no operation, no instance, no node
-- and no backup, whatever its first delivery led to.
pub handle_fleet_callback-repeated :
    {F : Type 0} (fl : Floats F) (dec : Decoders) (is_blank : String → Bool) (p : Publisher)
    (now later : ℕ) (catalog : Catalog) (fresh again : Cleanup) (authenticated : Option String)
    (res : TaskResult) (s : Control)
    → IsSameButCommands
        (handle_fleet_callback fl dec is_blank p now catalog fresh authenticated res s).1
        (handle_fleet_callback fl dec is_blank p later catalog again authenticated res
          (handle_fleet_callback fl dec is_blank p now catalog fresh authenticated res s).1).1
handle_fleet_callback-repeated fl dec is_blank p now later catalog fresh again authenticated res s =
    let first = (handle_fleet_callback fl dec is_blank p now catalog fresh authenticated res s).1 in
    elim (Bool-cases (is_impostor authenticated res.node_id)) [
      | inl h ↦ impostor-same fl dec is_blank p later catalog again authenticated res first h
      | inr h ↦
          let n =
            handled-NothingToApply fl dec is_blank p now catalog fresh authenticated res s h in
          elim n [
            | gone e ↦
                nothing-same fl dec is_blank p later catalog again authenticated res first (gone e)
            | ended o e over ↦
                nothing-same fl dec is_blank p later catalog again authenticated res first
                  (ended o e over)
          ]
    ]
