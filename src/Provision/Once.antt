-- ===== src/Provision/Once.antt =====
-- A key makes one reservation, whatever happens to the tables in between.
use admirald.Shared.{
  ℕ, ◌≡◌, ◌≢◌, refl, sym, ◌∙◌, ◌⊎◌, inl, inr, false, none, some, String, List, [], ◌∷◌, ◌++◌, ◌==◌,
  eq_iff, Bool-cases, Option-cases, Error,
}
use admirald.Queue.Command.{FleetCommand}
use admirald.Nodes.Node.{Node, reserve_node_capacity}
use admirald.Instances.Instance.{CustomerApp}
use admirald.Operations.Operation.{Operation}
use admirald.Provision.Requests.{
  ProvisionRequestRecord, Tables, Reservation, get_provision_request, Reserved, created, existing,
  conflict, blocked, failed, new_record, new_app, new_operation, app_insertable,
  operation_insertable, claim_and_create, reserve_idempotent_provision, complete_provision_request,
}

-- What changes the tables: reservations, responses, and other parts of the server, which leave the table
-- of requests alone.
pub data Step (t : Tables) : Tables → Type 0 where
  reserve : (a : Reservation) → Step t (reserve_idempotent_provision a t).1
  complete :
      (customer_id key_hash : String) (status : ℕ) (json : String)
      → Step t (complete_provision_request customer_id key_hash status json t).1
  others :
      (nodes : List Node) (apps : List CustomerApp) (operations : List Operation)
      (commands : List FleetCommand)
      → Step t
          (record t { nodes = nodes; apps = apps; operations = operations; commands = commands })

pub data Steps (t : Tables) : Tables → Type 0 where
  none_yet : Steps t t
  more : {u v : Tables} → Steps t u → Step u v → Steps t v

-- The same request, perhaps with a response.
pub record IsSame (r s : ProvisionRequestRecord) : Type 0 where
  pub same_hash : s.request_hash ≡ r.request_hash
  pub same_instance : s.instance_id ≡ r.instance_id
  pub same_operation : s.operation_id ≡ r.operation_id
  pub same_task : s.task_id ≡ r.task_id
  pub kept_status : r.response_status ≢ 0 → s.response_status ≡ r.response_status
  pub kept_json : r.response_status ≢ 0 → s.response_json ≡ r.response_json

pub IsSame-refl : (r : ProvisionRequestRecord) → IsSame r r
IsSame-refl r = record {
  same_hash = refl;
  same_instance = refl;
  same_operation = refl;
  same_task = refl;
  kept_status = λ _. refl;
  kept_json = λ _. refl;
}

pub IsSame-trans : (r s u : ProvisionRequestRecord) → IsSame r s → IsSame s u → IsSame r u
IsSame-trans r s u h k = record {
  same_hash = k.same_hash ∙ h.same_hash;
  same_instance = k.same_instance ∙ h.same_instance;
  same_operation = k.same_operation ∙ h.same_operation;
  same_task = k.same_task ∙ h.same_task;
  kept_status = λ n. k.kept_status (λ z. n (sym (h.kept_status n) ∙ z)) ∙ h.kept_status n;
  kept_json = λ n. k.kept_json (λ z. n (sym (h.kept_status n) ∙ z)) ∙ h.kept_json n;
}

-- The outcomes of a reservation: a new request with its rows, or unchanged tables.
pub data IsReservation (a : Reservation) (t : Tables) : Reserved × Tables → Type 0 where
  made :
      (nodes : List Node)
      → get_provision_request a.customer_id a.key_hash t ≡ none
      → reserve_node_capacity a.node_id a.ram_delta a.disk_delta t.nodes ≡ some nodes
      → IsReservation a t (
        created (new_record a),
        record t {
          requests = t.requests ++ new_record a ∷ [];
          nodes = nodes;
          apps = t.apps ++ new_app a ∷ [];
          operations = t.operations ++ new_operation a ∷ [];
        },
      )
  repeated :
      (r : ProvisionRequestRecord)
      → get_provision_request a.customer_id a.key_hash t ≡ some r
      → r.request_hash ≡ a.request_hash
      → IsReservation a t (existing r, t)
  refused :
      (r : ProvisionRequestRecord)
      → get_provision_request a.customer_id a.key_hash t ≡ some r
      → r.request_hash ≢ a.request_hash
      → IsReservation a t (conflict r, t)
  full :
      get_provision_request a.customer_id a.key_hash t ≡ none
      → reserve_node_capacity a.node_id a.ram_delta a.disk_delta t.nodes ≡ none
      → IsReservation a t (blocked, t)
  broken :
      (e : Error) (nodes : List Node)
      → get_provision_request a.customer_id a.key_hash t ≡ none
      → reserve_node_capacity a.node_id a.ram_delta a.disk_delta t.nodes ≡ some nodes
      → (app_insertable a t ≡ false) ⊎ (operation_insertable a t ≡ false)
      → IsReservation a t (failed e, t)

claim_and_create-IsReservation :
    (a : Reservation) (t : Tables)
    → get_provision_request a.customer_id a.key_hash t ≡ none
    → IsReservation a t (claim_and_create a t)
unfolding claim_and_create
claim_and_create-IsReservation a t fresh =
    elim (Option-cases (reserve_node_capacity a.node_id a.ram_delta a.disk_delta t.nodes)) [
      | inl crowded ↦ rw (claim_and_create, crowded) (full fresh crowded)
      | inr (nodes, room) ↦ elim (Bool-cases (app_insertable a t)) [
        | inr bad ↦ rw (claim_and_create, room, bad) (broken _ nodes fresh room (inl bad))
        | inl good ↦ elim (Bool-cases (operation_insertable a t)) [
          | inr taken ↦
              rw (claim_and_create, room, good, taken) (broken _ nodes fresh room (inr taken))
          | inl free ↦ rw (claim_and_create, room, good, free) (made nodes fresh room)
        ]
      ]
    ]

-- A reservation either claims a new key with capacity on the node and adds one request, one
-- application and one operation, or it leaves all tables as they are: for a known key with the same
-- request, a known key with another request, and, for a new key, a node without capacity, an application
-- that has no definition, or identifiers that are taken.
pub reserve_idempotent_provision-IsReservation :
    (a : Reservation) (t : Tables) → IsReservation a t (reserve_idempotent_provision a t)
unfolding reserve_idempotent_provision
reserve_idempotent_provision-IsReservation a t =
    elim (Option-cases (get_provision_request a.customer_id a.key_hash t)) [
      | inl fresh ↦
          rw (reserve_idempotent_provision, fresh) (claim_and_create-IsReservation a t fresh)
      | inr (r, known) ↦ elim (Bool-cases (r.request_hash == a.request_hash)) [
        | inl same ↦
            rw (reserve_idempotent_provision, known, same)
              (repeated r known ((eq_iff r.request_hash a.request_hash).0 same))
        | inr other ↦
            rw (reserve_idempotent_provision, known, other)
              (refused r known (λ e. let same = (eq_iff r.request_hash a.request_hash).1 e in cc))
      ]
    ]
