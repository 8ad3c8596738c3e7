-- ===== src/Provision/Rejected.antt =====
-- What recordBlockedWorkloadAttempt of internal/api/handlers_policy.go leaves.
use text.Mathlib.TextPositions.{eq_refl}
use admirald.Shared.{
  ◌≡◌, refl, ap, ◌∙◌, inl, inr, Bool, true, false, none, String, List, [], ◌∷◌, ◌++◌, any,
  Bool-cases, update_where, arith, Error, Result, ok, err,
}
use admirald.Queue.Command.{FleetCommand}
use admirald.Queue.Publish.{publish_rejected_task}
use admirald.Nodes.Policy.{Evaluation}
use admirald.Nodes.Select.{Tier}
use admirald.Operations.Operation.{
  Operation, is_operation, may_insert, null_if_empty, create_operation_with_metadata,
  update_operation, update_operation_task_id,
}
use admirald.Provision.Requests.{Tables}
use admirald.Provision.Blocked.{
  Attempt, rejected_task, stored, persist_rejected_task, record_blocked_workload_attempt,
}

update_where-last :
    {A : Type 0} (p : A → Bool) (f : A → A) (xs : List A) (y : A)
    → any p xs ≡ false
    → p y ≡ true
    → update_where p f (xs ++ y ∷ []) ≡ xs ++ f y ∷ []
unfolding update_where
update_where-last p f [] y none_hit hit = rw hit refl
update_where-last p f (x ∷ xs) y none_hit hit =
    let miss : p x ≡ false = ground arith in
    rw miss (ap (λ r. x ∷ r) (update_where-last p f xs y (ground arith) hit))

module _ (a : Attempt) (action instance_id node_id : String) (tier : Tier)
    (evaluations : List Evaluation) (t : Tables) where
  -- The operation as it is created, and as it stands in the end.
  abbrev first_row : Operation
  first_row = record {
    id = a.operation_id;
    instance_id = instance_id;
    node_id = node_id;
    task_id = "";
    action = action;
    status = "failed";
    error_message = none;
    admin_user = a.operator;
    metadata = none;
  }

  abbrev pub last_row : Operation
  last_row = record {
    id = a.operation_id;
    instance_id = instance_id;
    node_id = node_id;
    task_id = a.task_id;
    action = action;
    status = "failed";
    error_message = null_if_empty (a.marshal_detail tier evaluations);
    admin_user = a.operator;
    metadata = none;
  }

  -- Either the attempt is on record, with a failed operation and a rejected command, or an error came, and
  -- only operations may have changed.
  pub data IsRecorded : Result (Unit {0}) × Tables → Type 0 where
    recorded :
        (commands : List FleetCommand)
        → publish_rejected_task a.is_blank a.publisher a.draw
            (rejected_task a action instance_id node_id tier evaluations)
            a.detail
            (a.marshal_detail tier evaluations)
            t.commands
          ≡ ok commands
        → IsRecorded
            (ok tt, record t { operations = t.operations ++ last_row ∷ []; commands = commands })
    unrecorded :
        (e : Error) (operations : List Operation)
        → IsRecorded (err e, record t { operations = operations })

  marked :
      any (is_operation a.operation_id) t.operations ≡ false
      → update_operation_task_id a.operation_id a.task_id (
          update_operation a.operation_id "failed"
            (a.marshal_detail tier evaluations)
            (t.operations ++ first_row ∷ []))
        ≡ t.operations ++ last_row ∷ []
  unfolding update_operation update_operation_task_id
  marked unused =
      let own = eq_refl a.operation_id in
      ap (update_operation_task_id a.operation_id a.task_id)
        (update_where-last (is_operation a.operation_id) _ t.operations first_row unused own)
      ∙ update_where-last (is_operation a.operation_id) _ t.operations _ unused own

  stored-IsRecorded :
      (r : Result (List FleetCommand)) (operations : List Operation)
      → publish_rejected_task a.is_blank a.publisher a.draw
          (rejected_task a action instance_id node_id tier evaluations)
          a.detail
          (a.marshal_detail tier evaluations)
          t.commands
        ≡ r
      → operations ≡ t.operations ++ last_row ∷ []
      → IsRecorded (
          stored a action instance_id node_id tier evaluations
            (record t { operations = operations })
            r)
  stored-IsRecorded (err e) operations made same = unrecorded e operations
  stored-IsRecorded (ok commands) operations made same = rw same (recorded commands made)

  -- Every call leaves so: a failed operation and a rejected command, or an error.
  pub record_blocked_workload_attempt-IsRecorded :
      IsRecorded (record_blocked_workload_attempt a action instance_id node_id tier evaluations t)
  unfolding record_blocked_workload_attempt persist_rejected_task create_operation_with_metadata
  record_blocked_workload_attempt-IsRecorded =
      elim (Bool-cases (may_insert t.apps first_row t.operations)) [
        | inl fits ↦
            let unused : any (is_operation a.operation_id) t.operations ≡ false = ground arith in
            rw fits (stored-IsRecorded _ _ refl (marked unused))
        | inr refused ↦ rw refused (unrecorded _ t.operations)
      ]
