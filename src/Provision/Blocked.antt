-- ===== src/Provision/Blocked.antt =====
-- recordBlockedWorkloadAttempt, persistRejectedTask and policyRejectedAction of
-- internal/api/handlers_policy.go: a workload that no node has room for leaves an operation that has failed
-- and a rejected command. The statements are not one transaction: what was done before an error stays.
use admirald.Shared.{Bool, none, String, List, if◌then◌else◌, ◌==◌, Result, ok, err}
use admirald.Queue.Command.{FleetTask, FleetCommand}
use admirald.Queue.Publish.{Publisher, Draw, publish_rejected_task}
use admirald.Nodes.Policy.{Evaluation}
use admirald.Nodes.Select.{Tier}
use admirald.Operations.Operation.{
  Operation, create_operation_with_metadata, update_operation, update_operation_task_id,
}
use admirald.Provision.Requests.{Tables}

-- What an attempt draws from outside: the generated identifiers, the operator of the request, the publisher
-- and its random values, and as functions of the tier and the evaluations the JSON of the detail, its text,
-- and the rest of the task's document.
pub record Attempt : Type 0 where
  pub operation_id : String
  pub task_id : String
  pub operator : String
  pub is_blank : String → Bool
  pub publisher : Publisher
  pub draw : Draw
  pub marshal_detail : Tier → List Evaluation → String
  pub detail : String
  pub body : Tier → String

abbrev pub policy_rejected_action : String → String
policy_rejected_action action =
    if action == "resize_app" then "resize_policy_rejected" else "provision_policy_rejected"

module _ (a : Attempt) (action instance_id node_id : String) (tier : Tier)
    (evaluations : List Evaluation) where
  abbrev pub rejected_task : FleetTask
  rejected_task = record {
    task_id = a.task_id;
    operation_id = a.operation_id;
    node_id = node_id;
    action = policy_rejected_action action;
    instance_id = instance_id;
    body = a.body tier;
    task_signature = "";
    signed_at = 0;
  }

  abbrev pub stored : Tables → Result (List FleetCommand) → Result (Unit {0}) × Tables
  stored t (err e) = (err e, t)
  stored t (ok commands) = (ok tt, record t { commands = commands })

  unfoldable pub persist_rejected_task : Tables → Result (Unit {0}) × Tables
  persist_rejected_task t =
      stored
        (record t { operations = update_operation_task_id a.operation_id a.task_id t.operations })
        (publish_rejected_task a.is_blank a.publisher a.draw rejected_task a.detail
          (a.marshal_detail tier evaluations) t.commands)

  abbrev pub begun : Tables → Result (List Operation) → Result (Unit {0}) × Tables
  unfolding persist_rejected_task
  begun t (err e) = (err e, t)
  begun t (ok operations) = persist_rejected_task (record t {
    operations =
        update_operation a.operation_id "failed" (a.marshal_detail tier evaluations) operations;
  })

  unfoldable pub record_blocked_workload_attempt : Tables → Result (Unit {0}) × Tables
  record_blocked_workload_attempt t = begun t (
      create_operation_with_metadata t.apps a.operation_id instance_id node_id action "failed"
        a.operator none t.operations)
