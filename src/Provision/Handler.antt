-- ===== src/Provision/Handler.antt =====
-- The handler of provisioning requests (HandleCustomerApps of internal/api/handlers_instances.go, method
-- POST) up to the reservation. The making of secrets, routes and the task comes after it. The table is
-- that of one moment: no other request comes between the statements.
use admirald.Shared.{
  ℕ, Bool, not, ◌||◌, Option, none, some, String, List, find, any, ◌&&◌, if◌then◌else◌, ◌==◌, Error,
  errorf, Result, ok, err,
}
use admirald.Shared.Text.{trim_space, to_lower}
use admirald.Nodes.Node.{is_node}
use admirald.Nodes.Capacity.{Floats, parse_size_bytes}
use admirald.Nodes.Policy.{Evaluation}
use admirald.Nodes.Select.{Tier, select_node_for_tier}
use admirald.Provision.Blocked.{Attempt, record_blocked_workload_attempt}
use admirald.Provision.Requests.{Tables, Reservation, Reserved, reserve_idempotent_provision}
use admirald.Provision.Replay.{
  ProvisionRequest, Fingerprints, Answer, provision_idempotency_key_hash, provision_request_hash,
  replay_provision_if_present,
}

pub data Outcome : Type 0 where
  -- An earlier request is answered again.
  answered : Answer → Outcome
  -- A status and a message.
  failed_with : ℕ → String → Outcome
  -- No node fits: status 503, and the attempt was recorded.
  unplaced : List Evaluation → Outcome
  reserved : Reserved → Outcome

-- The identifiers that are generated, the snapshot of the tier, and the operator of the request.
pub record Fresh : Type 0 where
  pub instance_id : String
  pub operation_id : String
  pub task_id : String
  pub tier_snapshot_json : String
  pub admin_user : String

-- What the handler reads of the caller: `isSystemPrincipal`, and the header X-Admiral-Customer-ID.
pub record Caller : Type 0 where
  pub is_system : Bool
  pub customer_header : String

-- `none` lets the request pass; the answer otherwise.
unfoldable pub require_customer_ownership : Caller → String → Option Outcome
require_customer_ownership caller customer_id =
    if caller.is_system
    then none
    else (let given = trim_space caller.customer_header in
        if given == ""
        then some (failed_with 400 "X-Admiral-Customer-ID header is required")
        else if not (given == customer_id)
        then some (failed_with 403 "access denied")
        else none)

abbrev pub message_of : Error → String
message_of (errorf f args) = f

module _ {F : Type 0} (fl : Floats F) (prints : Fingerprints) (now : ℕ) (fresh : Fresh)
    (attempt : Attempt) (req : ProvisionRequest) where
  abbrev pub reservation : String → Tier → String → Reservation
  reservation key_hash tier node_id = record {
    customer_id = req.customer_id;
    key_hash = key_hash;
    request_hash = provision_request_hash prints req;
    instance_id = fresh.instance_id;
    operation_id = fresh.operation_id;
    task_id = fresh.task_id;
    app_name = req.app_definition_name;
    tier_name = req.tier_name;
    node_id = node_id;
    tier_snapshot_json = fresh.tier_snapshot_json;
    logical_instance_id = req.logical_instance_id;
    admin_user = fresh.admin_user;
    ram_delta = parse_size_bytes fl tier.memory;
    disk_delta = parse_size_bytes fl tier.storage;
  }

  abbrev pub replay : String → Tables → Option Answer
  replay key_hash t =
      replay_provision_if_present req.customer_id key_hash (provision_request_hash prints req) t

  -- The answer where no node fits; what was written before an error stays.
  abbrev pub attempt_recorded : List Evaluation → Result (Unit {0}) × Tables → Outcome × Tables
  attempt_recorded evaluations (err e, t) =
      (failed_with 500 "Failed handling blocked provisioning attempt", t)
  attempt_recorded evaluations (ok _, t) = (unplaced evaluations, t)

  -- `handleProvisionWithoutCapacity`
  unfoldable pub handle_provision_without_capacity :
      String → Tier → List Evaluation → Tables → Outcome × Tables
  handle_provision_without_capacity key_hash tier evaluations t = elim (replay key_hash t) [
    | some answer ↦ (answered answer, t)
    | none ↦
        attempt_recorded evaluations (
          record_blocked_workload_attempt attempt "provision_app" "" req.node_id tier evaluations t)
  ]

  -- From the selection of a node on.
  unfoldable pub place : String → Tier → Tables → Outcome × Tables
  place key_hash tier t = elim (select_node_for_tier fl now tier req.node_id t.nodes) [
    | err e ↦ (failed_with 500 "Database error selecting node", t)
    | ok selection ↦
        if selection.node_id == ""
        then handle_provision_without_capacity key_hash tier selection.evaluations t
        else (let (result, after) =
              reserve_idempotent_provision (reservation key_hash tier selection.node_id) t in
            (reserved result, after))
  ]

  -- The lookups before it.
  unfoldable pub find_tier_and_place : String → Tables → Outcome × Tables
  find_tier_and_place key_hash t =
      elim (find (λ d. d.name == req.app_definition_name) t.app_definitions) [
        | none ↦ (failed_with 404 "App definition not found", t)
        | some d ↦
            if not (to_lower (trim_space d.status) == "active")
            then (failed_with 409 "App definition is inactive and cannot be provisioned", t)
            else if not d.readable
            then (failed_with 500 "Stored application definition is invalid", t)
            else elim (find (λ tier. tier.name == req.tier_name) d.tiers) [
              | none ↦ (failed_with 404 "Tier not found for this app definition", t)
              | some tier ↦
                  if not (req.node_id == "") && not (any (is_node req.node_id) t.nodes)
                  then (failed_with 404 "Requested node not found", t)
                  else place key_hash tier t
            ]
      ]

  unfoldable pub handle_provision : Caller → String → Tables → Outcome × Tables
  handle_provision caller key t =
      if (req.app_definition_name == "") || (req.tier_name == "") || (req.customer_id == "")
      then (failed_with 400 "app_definition_name, tier_name, and customer_id are required", t)
      else elim (require_customer_ownership caller req.customer_id) [
        | some answer ↦ (answer, t)
        | none ↦ elim (provision_idempotency_key_hash prints key) [
          | err e ↦ (failed_with 400 (message_of e), t)
          | ok key_hash ↦ elim (replay key_hash t) [
            | some answer ↦ (answered answer, t)
            | none ↦ find_tier_and_place key_hash t
          ]
        ]
      ]
