-- ===== src/Provision/Placed.antt =====
-- Where the handler places an application.
use admirald.Shared.{
  ℕ, ◌≡◌, Bool, true, false, none, String, List, [], ◌∷◌, ◌++◌, if◌then◌else◌, ◌==◌, In, Result, ok,
  err,
}
use admirald.Shared.Text.{trim_space, to_lower}
use admirald.Nodes.Node.{Node, add_node_commitment}
use admirald.Nodes.Capacity.{Floats, parse_size_bytes}
use admirald.Nodes.Policy.{Evaluation}
use admirald.Nodes.Select.{Tier, Selection}
use admirald.Nodes.Chosen.{IsBest, IsCandidate}
use admirald.Queue.Command.{FleetCommand}
use admirald.Queue.Publish.{publish_rejected_task}
use admirald.Operations.Operation.{Operation, null_if_empty}
use admirald.Provision.Blocked.{Attempt, rejected_task}
use admirald.Provision.Rejected as Rejected
use admirald.Provision.Requests.{
  Tables, AppDefinition, get_provision_request, created, existing, conflict, blocked, failed,
  new_record, new_app, new_operation, reserve_idempotent_provision,
}
use admirald.Provision.Replay.{ProvisionRequest, Fingerprints, provision_idempotency_key_hash}
use admirald.Provision.Once as Once
use admirald.Provision.Handler.{
  Outcome, answered, failed_with, unplaced, reserved, Fresh, reservation,
  handle_provision_without_capacity,
}

-- An outcome that tells of a new application.
abbrev pub is_new : Outcome → Bool
is_new (reserved (created r)) = true
is_new (reserved (existing r)) = false
is_new (reserved (conflict r)) = false
is_new (reserved blocked) = false
is_new (reserved (failed e)) = false
is_new (answered a) = false
is_new (failed_with status message) = false
is_new (unplaced evaluations) = false

-- An outcome that tells that no node has room.
abbrev pub is_unplaced : Outcome → Bool
is_unplaced (unplaced evaluations) = true
is_unplaced (answered a) = false
is_unplaced (failed_with status message) = false
is_unplaced (reserved r) = false

module _ {F : Type 0} (fl : Floats F) (prints : Fingerprints) (now : ℕ) (fresh : Fresh)
    (attempt : Attempt) (req : ProvisionRequest) (t : Tables) (key : String) where
  -- An active definition of the application asked for, which can be read, has the tier asked for.
  pub record IsAsked (tier : Tier) : Type 0 where
    pub definition : AppDefinition
    pub defined : In definition t.app_definitions
    pub own_name : definition.name ≡ req.app_definition_name
    pub active : to_lower (trim_space definition.status) ≡ "active"
    pub readable : definition.readable ≡ true
    pub offered : In tier definition.tiers
    pub own_tier : tier.name ≡ req.tier_name

  -- What a request with a key comes to.
  pub data IsPlaced : Outcome × Tables → Type 0 where
    -- A new application on a node.
    placed :
        (key_hash : String) (tier : Tier) (n : Node)
        → provision_idempotency_key_hash prints key ≡ ok key_hash
        → get_provision_request req.customer_id key_hash t ≡ none
        → IsAsked tier
        → IsBest fl now req.node_id
            (parse_size_bytes fl tier.memory)
            (parse_size_bytes fl tier.storage)
            t.nodes
            n
        → IsPlaced (
          reserved (
              created
                (new_record (reservation fl prints now fresh attempt req key_hash tier n.id))),
          record t {
            requests =
                t.requests
                ++ new_record (reservation fl prints now fresh attempt req key_hash tier n.id) ∷ [];
            nodes =
                add_node_commitment n.id
                  (parse_size_bytes fl tier.memory)
                  (parse_size_bytes fl tier.storage)
                  t.nodes;
            apps =
                t.apps
                ++ new_app (reservation fl prints now fresh attempt req key_hash tier n.id) ∷ [];
            operations =
                t.operations
                ++ new_operation (reservation fl prints now fresh attempt req key_hash tier n.id)
                  ∷ [];
          },
        )
    -- No node of those asked for fits, which is recorded by a failed operation and a rejected command.
    no_room :
        (tier : Tier) (evaluations : List Evaluation) (commands : List FleetCommand)
        → IsAsked tier
        → ((n : Node)
            → In n t.nodes
            → IsCandidate fl now req.node_id
                (parse_size_bytes fl tier.memory)
                (parse_size_bytes fl tier.storage)
                n
            → ⊥)
        → publish_rejected_task attempt.is_blank attempt.publisher attempt.draw
            (rejected_task attempt "provision_app" "" req.node_id tier evaluations)
            attempt.detail
            (attempt.marshal_detail tier evaluations)
            t.commands
          ≡ ok commands
        → IsPlaced (
          unplaced evaluations,
          record t {
            operations =
                t.operations
                ++ record {
                  id = attempt.operation_id;
                  instance_id = "";
                  node_id = req.node_id;
                  task_id = attempt.task_id;
                  action = "provision_app";
                  status = "failed";
                  error_message = null_if_empty (attempt.marshal_detail tier evaluations);
                  admin_user = attempt.operator;
                  metadata = none;
                }
                  ∷ [];
            commands = commands;
          },
        )
    -- The record of such an attempt fails: only operations may have changed.
    unrecorded :
        (operations : List Operation)
        → IsPlaced (
          failed_with 500 "Failed handling blocked provisioning attempt",
          record t { operations = operations },
        )
    -- Any other answer, over unchanged tables.
    unplaced_request : (o : Outcome) → is_new o ≡ false → is_unplaced o ≡ false → IsPlaced (o, t)

  -- No node that was asked for fits the tier.
  abbrev NoneFits : Tier → Type 0
  NoneFits tier =
      (n : Node)
      → In n t.nodes
      → IsCandidate fl now req.node_id (parse_size_bytes fl tier.memory)
          (parse_size_bytes fl tier.storage) n
      → ⊥

  abbrev continue : String → Tier → Result Selection → Outcome × Tables
  continue key_hash tier (err e) = (failed_with 500 "Database error selecting node", t)
  continue key_hash tier (ok selection) =
      if selection.node_id == ""
      then handle_provision_without_capacity fl prints now fresh attempt req key_hash tier
          selection.evaluations t
      else (let (result, after) =
            reserve_idempotent_provision
              (reservation fl prints now fresh attempt req key_hash tier selection.node_id) t in
          (reserved result, after))
