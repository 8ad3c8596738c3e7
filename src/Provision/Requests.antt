-- ===== src/Provision/Requests.antt =====
-- internal/database/provision_requests.go: the tables that a provisioning request changes. A statement
-- that violates a primary key or a foreign key makes the transaction roll back.
use admirald.Shared.{
  ℕ, ℤ, Bool, false, not, ◌&&◌, Option, none, some, String, List, [], ◌∷◌, ◌++◌, any, find, nat_beq,
  if◌then◌else◌, ◌==◌, update_where, affected, Error, errorf, Result, ok, err,
}
use admirald.Queue.Command.{FleetCommand}
use admirald.Nodes.Select.{Tier}
use admirald.Nodes.Node.{Node, reserve_node_capacity}
use admirald.Instances.Instance.{CustomerApp}
use admirald.Operations.Operation.{Operation}

-- A row of `provision_requests`; a response status of 0 says that there is no response yet.
pub record ProvisionRequestRecord : Type 0 where
  pub customer_id : String
  pub key_hash : String
  pub request_hash : String
  pub instance_id : String
  pub operation_id : String
  pub task_id : String
  pub response_status : ℕ
  pub response_json : Option String

-- A row of `app_definitions` with its tiers; `readable` is whether its YAML can be decoded.
pub record AppDefinition : Type 0 where
  pub name : String
  pub status : String
  pub readable : Bool
  pub tiers : List Tier

pub record Tables : Type 0 where
  pub requests : List ProvisionRequestRecord
  pub nodes : List Node
  pub apps : List CustomerApp
  pub operations : List Operation
  pub commands : List FleetCommand
  pub app_definitions : List AppDefinition

-- The arguments of `ReserveIdempotentProvision`.
pub record Reservation : Type 0 where
  pub customer_id : String
  pub key_hash : String
  pub request_hash : String
  pub instance_id : String
  pub operation_id : String
  pub task_id : String
  pub app_name : String
  pub tier_name : String
  pub node_id : String
  pub tier_snapshot_json : String
  pub logical_instance_id : String
  pub admin_user : String
  pub ram_delta : ℤ
  pub disk_delta : ℤ

abbrev pub has_key : String → String → ProvisionRequestRecord → Bool
has_key customer_id key_hash r = (r.customer_id == customer_id) && (r.key_hash == key_hash)

abbrev pub get_provision_request : String → String → Tables → Option ProvisionRequestRecord
get_provision_request customer_id key_hash t = find (has_key customer_id key_hash) t.requests

-- The three results of the code: whether the request is new, the record, and the error.
pub data Reserved : Type 0 where
  created : ProvisionRequestRecord → Reserved
  existing : ProvisionRequestRecord → Reserved
  -- `ErrProvisionIdempotencyConflict`
  conflict : ProvisionRequestRecord → Reserved
  -- `ErrNodeCapacityPolicyBlocked`
  blocked : Reserved
  failed : Error → Reserved

abbrev pub new_record : Reservation → ProvisionRequestRecord
new_record a = record {
  customer_id = a.customer_id;
  key_hash = a.key_hash;
  request_hash = a.request_hash;
  instance_id = a.instance_id;
  operation_id = a.operation_id;
  task_id = a.task_id;
  response_status = 0;
  response_json = none;
}

abbrev pub new_app : Reservation → CustomerApp
new_app a = record {
  id = a.instance_id;
  customer_id = a.customer_id;
  app_definition_name = a.app_name;
  tier_name = a.tier_name;
  node_id = some a.node_id;
  commercial_status = "active";
  technical_status = "pending_provision";
  tier_snapshot_json = a.tier_snapshot_json;
  logical_instance_id =
      if a.logical_instance_id == "" then a.instance_id else a.logical_instance_id;
  inspect_data = "";
  setup_completed = false;
  need_restarting = false;
}

abbrev pub new_operation : Reservation → Operation
new_operation a = record {
  id = a.operation_id;
  instance_id = a.instance_id;
  node_id = a.node_id;
  task_id = a.task_id;
  action = "provision_app";
  status = "pending_dispatch";
  error_message = none;
  admin_user = a.admin_user;
  metadata = none;
}

abbrev pub app_insertable : Reservation → Tables → Bool
app_insertable a t =
    any (λ d. d.name == a.app_name) t.app_definitions
    && not (any (λ x. x.id == a.instance_id) t.apps)

abbrev pub operation_insertable : Reservation → Tables → Bool
operation_insertable a t = not (any (λ o. o.id == a.operation_id) t.operations)

-- The transaction after the key was claimed.
unfoldable pub claim_and_create : Reservation → Tables → Reserved × Tables
claim_and_create a t = elim (reserve_node_capacity a.node_id a.ram_delta a.disk_delta t.nodes) [
  | none ↦ (blocked, t)
  | some nodes ↦
      if not (app_insertable a t)
      then (failed (errorf "create idempotent customer app: %w" []), t)
      else if not (operation_insertable a t)
      then (failed (errorf "create idempotent provision operation: %w" []), t)
      else (
        created (new_record a),
        record t {
          requests = t.requests ++ new_record a ∷ [];
          nodes = nodes;
          apps = t.apps ++ new_app a ∷ [];
          operations = t.operations ++ new_operation a ∷ [];
        },
      )
]

-- `ReserveIdempotentProvision`, while the database answers.
unfoldable pub reserve_idempotent_provision : Reservation → Tables → Reserved × Tables
reserve_idempotent_provision a t = elim (get_provision_request a.customer_id a.key_hash t) [
  | none ↦ claim_and_create a t
  | some r ↦ if r.request_hash == a.request_hash then (existing r, t) else (conflict r, t)
]

-- Whether two columns of JSON are equal, where there may be none.
abbrev pub same_json : Option String → String → Bool
same_json none s = false
same_json (some r) s = r == s

-- `CompleteProvisionRequest`; `response_json` is what the database keeps of the text.
unfoldable pub complete_provision_request :
    String → String → ℕ → String → Tables → Result (Unit {0}) × Tables
complete_provision_request customer_id key_hash status response_json t =
    let open_row : ProvisionRequestRecord → Bool =
      λ r. has_key customer_id key_hash r && nat_beq r.response_status 0 in
    let done_row : ProvisionRequestRecord → Bool = λ r.
      has_key customer_id key_hash r
      && nat_beq r.response_status status
      && same_json r.response_json response_json in
    if affected open_row t.requests
    then (
      ok tt,
      record t {
        requests =
            update_where open_row
              (λ r. record r { response_status = status; response_json = some response_json })
              t.requests;
      },
    )
    else if any done_row t.requests
    then (ok tt, t)
    else (err (errorf "provision idempotency record was completed with a different response" []), t)
