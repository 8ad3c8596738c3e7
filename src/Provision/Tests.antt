-- ===== src/Provision/Tests.antt =====
-- Runs of idempotent provisioning on one node.
use admirald.Shared.{
  ◌≡◌, ◌≢◌, refl, pos, ◌+ℤ◌, true, false, some, String, [], ◌∷◌, arith, eq_iff, update_where, map,
}
use admirald.Shared.Text.{trim_space, any_char, to_lower}
use admirald.Nodes.Reasons.{normalize_reasons, append_unique_reason}
use admirald.Nodes.Policy.{evaluate_node_for_tier, tier_rejections, has_valid_node_metrics}
use admirald.Nodes.Select.{select_node_for_tier, select_loop, choose, sort_nodes}
use admirald.Provision.Handler.{require_customer_ownership, find_tier_and_place, place}
use admirald.Shared.{◌-ℤ◌, ◌+ℤ◌}
use admirald.Nodes.Capacity.{Floats, parse_size_bytes, scaled}
use admirald.Queue.Tests.{not_blank, publisher, draw_1}
use admirald.Provision.Blocked.{Attempt, record_blocked_workload_attempt, persist_rejected_task}
use admirald.Operations.Operation.{
  create_operation_with_metadata, update_operation, update_operation_task_id,
}
use admirald.Queue.Publish.{publish_rejected_task, persist_task}
use admirald.Queue.Codec.{seal_payload, sign_payload}
use admirald.Provision.Handler.{handle_provision_without_capacity}
use admirald.Provision.Handler.{Fresh, Caller, handle_provision}
use admirald.Provision.Replay.{ProvisionRequest, Fingerprints, provision_idempotency_key_hash}
use admirald.Nodes.Select.{Tier}
use admirald.Shared.{◌*◌, leb, negsuc, none, ◌≢◌, if◌then◌else◌, ◌==◌, ℕ, ℤ, ◌∷◌}
use admirald.Nodes.Node.{Node, reserve_node_capacity}
use admirald.Provision.Requests.{
  Tables, Reservation, get_provision_request, created, existing, new_record, claim_and_create,
  reserve_idempotent_provision, complete_provision_request,
}
use admirald.Provision.Replay.{replayed, replay_provision_if_present}
use admirald.Provision.Once.{reserve, none_yet, more}
use admirald.Provision.Kept.{
  IsRepeat, reserve_idempotent_provision-IsRepeat,
  replay_provision_if_present-complete_provision_request,
}

abbrev node : Node
node = record {
  id = "n1";
  node_role = "worker";
  status = "active";
  manual_disabled = false;
  health_status = "healthy";
  health_reason_codes = "";
  available_for_provisioning = true;
  unavailable_reason_codes = "";
  ram_total = pos 100;
  ram_used = pos 40;
  disk_total = pos 300;
  disk_used = pos 40;
  ram_commit_limit = pos 80;
  disk_commit_limit = pos 200;
  committed_ram = pos 50;
  committed_disk = pos 10;
  last_metrics_at = some 5;
  wireguard_ip = "";
}

abbrev tables : Tables
tables = record {
  requests = [];
  nodes = node ∷ [];
  apps = [];
  operations = [];
  commands = [];
  app_definitions = record { name = "wiki"; status = "active"; readable = true; tiers = [] } ∷ [];
}

abbrev request : String → String → Reservation
request hash instance_id = record {
  customer_id = "c1";
  key_hash = "k1";
  request_hash = hash;
  instance_id = instance_id;
  operation_id = "op";
  task_id = "task";
  app_name = "wiki";
  tier_name = "small";
  node_id = "n1";
  tier_snapshot_json = "{}";
  logical_instance_id = "";
  admin_user = "harbor";
  ram_delta = pos 20;
  disk_delta = pos 20;
}

abbrev first : Reservation
first = request "h1" "inst1"

abbrev second : Reservation
second = request "h1" "inst2"

abbrev after : Tables
after = (reserve_idempotent_provision first tables).1

first_made : (reserve_idempotent_provision first tables).0 ≡ created (new_record first)
unfolding reserve_idempotent_provision claim_and_create reserve_node_capacity ◌+ℤ◌ update_where
first_made = refl

-- The retry answers the first request, and the node is charged once.
retried : (reserve_idempotent_provision second after).0 ≡ existing (new_record first)
unfolding reserve_idempotent_provision claim_and_create reserve_node_capacity ◌+ℤ◌ update_where
retried = refl

charged_once :
    map (λ n. n.committed_ram) (reserve_idempotent_provision second after).1.nodes ≡ pos 70 ∷ []
unfolding reserve_idempotent_provision claim_and_create reserve_node_capacity ◌+ℤ◌ update_where
charged_once = refl

found : get_provision_request "c1" "k1" after ≡ some (new_record first)
unfolding reserve_idempotent_provision claim_and_create reserve_node_capacity ◌+ℤ◌ update_where
found = refl

not_empty : ◌≢◌ {A = String} "{}" ""
not_empty e = let same = (eq_iff "{}" "").1 e in cc

reserve_idempotent_provision-IsRepeat_example :
    IsRepeat
      (new_record first)
      second
      (reserve_idempotent_provision second after).1
      (reserve_idempotent_provision second (reserve_idempotent_provision second after).1)
reserve_idempotent_provision-IsRepeat_example =
    reserve_idempotent_provision-IsRepeat first second tables
      (reserve_idempotent_provision second after).1 (new_record first) first_made
      (more none_yet (reserve second)) refl refl

replay_provision_if_present-complete_provision_request_example :
    replay_provision_if_present "c1" "k1" "h1"
      (complete_provision_request "c1" "k1" 202 "{}" after).1
    ≡ some (replayed 202 (some "{}"))
replay_provision_if_present-complete_provision_request_example =
    replay_provision_if_present-complete_provision_request "c1" "k1" "h1" 202 "{}" after
      (complete_provision_request "c1" "k1" 202 "{}" after).1 (new_record first) found refl
      (omega arith) not_empty none_yet

-- Numbers that are whole, for the run below.
abbrev whole : ℤ → ℕ
whole (pos k) = k
whole (negsuc k) = 0

abbrev wholes : Floats ℕ
wholes = record {
  of_int64 = whole;
  to_int64 = pos;
  hundredths = λ x. x;
  mul = λ x y. x * y;
  div = λ x y. x;
  le = leb;
  parse = λ s. if s == "20" then some 20 else none;
}

abbrev prints : Fingerprints
prints = record { hex_sha256 = λ s. s; marshal = λ r. r.app_definition_name }

abbrev ids : Fresh
ids = record {
  instance_id = "inst1";
  operation_id = "op1";
  task_id = "task1";
  tier_snapshot_json = "{}";
  admin_user = "harbor";
}

abbrev attempt_1 : Attempt
attempt_1 = record {
  operation_id = "op9";
  task_id = "task9";
  operator = "harbor";
  is_blank = not_blank;
  publisher = publisher;
  draw = draw_1;
  marshal_detail = λ tier evaluations. "{\"code\":\"no_capacity\"}";
  detail = "no capacity";
  body = λ tier. "policy-rejected";
}

abbrev small : Tier
small = record {
  name = "small";
  cpu = "1";
  memory = "20";
  storage = "20";
  environment = [];
  other = "";
}

abbrev with_tier : Tables
with_tier = record tables {
  app_definitions =
      record { name = "wiki"; status = " Active "; readable = true; tiers = small ∷ [] } ∷ [];
}

abbrev wiki : ProvisionRequest
wiki = record {
  app_definition_name = "wiki";
  tier_name = "small";
  customer_id = "c1";
  node_id = "";
  logical_instance_id = "";
}

abbrev harbor : Caller
harbor = record { is_system = false; customer_header = "c1" }

-- The request is placed on the node, whose memory is charged.
provisioned :
    map
      (λ n. n.committed_ram)
      (handle_provision wholes prints 10 ids attempt_1 wiki harbor "key" with_tier).1.nodes
    ≡ pos 70 ∷ []
unfolding handle_provision require_customer_ownership trim_space provision_idempotency_key_hash
    any_char replay_provision_if_present find_tier_and_place to_lower place select_node_for_tier
    parse_size_bytes scaled select_loop evaluate_node_for_tier normalize_reasons tier_rejections
    ◌+ℤ◌ has_valid_node_metrics reserve_node_capacity choose claim_and_create
    reserve_idempotent_provision update_where sort_nodes ◌-ℤ◌
provisioned = refl

-- Where the node is full, the attempt leaves a failed operation and a rejected command.
refused_attempt :
    map {B = String × String × String}
      (λ o. (o.id, o.status, o.task_id))
      (handle_provision wholes prints 10 ids attempt_1 wiki harbor "key"
        (record with_tier { nodes = record node { committed_ram = pos 70 } ∷ [] })).1.operations
    ≡ ("op9", "failed", "task9") ∷ []
unfolding handle_provision require_customer_ownership trim_space provision_idempotency_key_hash
    any_char replay_provision_if_present find_tier_and_place to_lower place select_node_for_tier
    parse_size_bytes scaled select_loop evaluate_node_for_tier normalize_reasons tier_rejections
    ◌+ℤ◌ has_valid_node_metrics choose update_where sort_nodes ◌-ℤ◌
    handle_provision_without_capacity record_blocked_workload_attempt create_operation_with_metadata
    update_operation update_operation_task_id persist_rejected_task publish_rejected_task
    persist_task seal_payload sign_payload append_unique_reason
refused_attempt = refl
