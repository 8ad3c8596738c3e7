-- ===== src/Provision/Kept.antt =====
-- What later steps leave of a request.
use admirald.Shared.{
  ℕ, ◌≡◌, ◌≢◌, ◌<◌, refl, sym, ap, ◌∙◌, inl, inr, Bool, true, ◌&&◌, some, String, [], ◌∷◌, any,
  nat_beq, ltb, arith, if◌then◌else◌, ◌==◌, eq_iff, Bool-cases, affected, find-update_where-some,
  find-append_first, find-append_last, find-In, any-hit,
}
use admirald.Provision.Requests.{
  ProvisionRequestRecord, Tables, Reservation, has_key, get_provision_request, Reserved, created,
  existing, conflict, new_record, reserve_idempotent_provision, complete_provision_request,
  same_json,
}
use admirald.Provision.Replay.{
  replayed, key_conflict, has_body, write_provision_replay, replay_provision_if_present,
}
use admirald.Provision.Once.{
  Step, reserve, complete, others, Steps, none_yet, more, IsSame, IsSame-refl, IsSame-trans,
  IsReservation, made, repeated, refused, full, broken, reserve_idempotent_provision-IsReservation,
}

-- The request is still on record under its key.
pub data IsKept (customer_id key_hash : String) (r : ProvisionRequestRecord) (t : Tables)
    : Type 0 where
  kept :
      (s : ProvisionRequestRecord)
      → get_provision_request customer_id key_hash t ≡ some s
      → IsSame r s
      → IsKept customer_id key_hash r t

abbrev open_row : String → String → ProvisionRequestRecord → Bool
open_row customer_id key_hash x = has_key customer_id key_hash x && nat_beq x.response_status 0

abbrev answered : ℕ → String → ProvisionRequestRecord → ProvisionRequestRecord
answered status json x = record x { response_status = status; response_json = some json }

module _ (c k : String) (r : ProvisionRequestRecord) where
  IsKept-reserve :
      (a : Reservation) (t : Tables) (answer : Reserved × Tables)
      → get_provision_request c k t ≡ some r
      → IsReservation a t answer
      → IsKept c k r answer.1
  IsKept-reserve a t _ found (made nodes fresh room) =
      kept r (find-append_first (has_key c k) t.requests (new_record a ∷ []) r found)
        (IsSame-refl r)
  IsKept-reserve a t _ found (repeated s known same) = kept r found (IsSame-refl r)
  IsKept-reserve a t _ found (refused s known other) = kept r found (IsSame-refl r)
  IsKept-reserve a t _ found (full fresh crowded) = kept r found (IsSame-refl r)
  IsKept-reserve a t _ found (broken e nodes new room taken) = kept r found (IsSame-refl r)

  answered-IsSame :
      (c2 k2 : String) (status : ℕ) (json : String)
      → IsSame r (if open_row c2 k2 r then answered status json r else r)
  answered-IsSame c2 k2 status json = elim (Bool-cases (open_row c2 k2 r)) [
    | inr shut ↦ rw shut (IsSame-refl r)
    | inl is_open ↦
        let zero_status : r.response_status ≡ 0 = ground arith in
        rw is_open (record {
          same_hash = refl;
          same_instance = refl;
          same_operation = refl;
          same_task = refl;
          kept_status = λ n. absurd (n zero_status);
          kept_json = λ n. absurd (n zero_status);
        })
  ]

  IsKept-complete :
      (c2 k2 : String) (status : ℕ) (json : String) (t : Tables)
      → get_provision_request c k t ≡ some r
      → IsKept c k r (complete_provision_request c2 k2 status json t).1
  unfolding complete_provision_request
  IsKept-complete c2 k2 status json t found =
      elim (Bool-cases (affected (open_row c2 k2) t.requests)) [
        | inl hit ↦
            rw (complete_provision_request, hit)
              (kept (if open_row c2 k2 r then answered status json r else r)
                (find-update_where-some (has_key c k) (open_row c2 k2) (answered status json)
                  t.requests r (λ x. refl) found)
                (answered-IsSame c2 k2 status json))
        | inr miss ↦
            elim (Bool-cases (
              any
                (λ x.
                  has_key c2 k2 x
                  && nat_beq x.response_status status
                  && same_json x.response_json json)
                t.requests)) [
                  | inl done ↦
                      rw (complete_provision_request, miss, done) (kept r found (IsSame-refl r))
                  | inr differs ↦
                      rw (complete_provision_request, miss, differs) (kept r found (IsSame-refl r))
                ]
      ]

  IsKept-Step : (t u : Tables) → get_provision_request c k t ≡ some r → Step t u → IsKept c k r u
  IsKept-Step t _ found (reserve a) =
      IsKept-reserve a t _ found (reserve_idempotent_provision-IsReservation a t)
  IsKept-Step t _ found (complete c2 k2 status json) = IsKept-complete c2 k2 status json t found
  IsKept-Step t _ found (others nodes apps operations commands) = kept r found (IsSame-refl r)

pub IsKept-Steps :
    (c k : String) (r : ProvisionRequestRecord) (t u : Tables)
    → get_provision_request c k t ≡ some r
    → Steps t u
    → IsKept c k r u
IsKept-Steps c k r t _ found none_yet = kept r found (IsSame-refl r)
IsKept-Steps c k r t v found (more {u = u} steps step) = elim (IsKept-Steps c k r t u found steps) [
  | kept s there same ↦ elim (IsKept-Step c k s u v there step) [
    | kept w later next ↦ kept w later (IsSame-trans r s w same next)
  ]
]

-- A request that was made is answered again, and nothing is reserved.
pub data IsRepeat (r : ProvisionRequestRecord) (a : Reservation) (t : Tables)
    : Reserved × Tables → Type 0 where
  again :
      (s : ProvisionRequestRecord)
      → IsSame r s
      → r.request_hash ≡ a.request_hash
      → IsRepeat r a t (existing s, t)
  misused :
      (s : ProvisionRequestRecord)
      → IsSame r s
      → r.request_hash ≢ a.request_hash
      → IsRepeat r a t (conflict s, t)

created_injective : (r s : ProvisionRequestRecord) → created r ≡ created s → r ≡ s
created_injective r s e = cc

IsRepeat-known :
    (r s : ProvisionRequestRecord) (a : Reservation) (t : Tables)
    → get_provision_request a.customer_id a.key_hash t ≡ some s
    → IsSame r s
    → IsRepeat r a t (reserve_idempotent_provision a t)
unfolding reserve_idempotent_provision
IsRepeat-known r s a t found same = elim (Bool-cases (s.request_hash == a.request_hash)) [
  | inl eq ↦
      rw (reserve_idempotent_provision, found, eq)
        (again s same (sym same.same_hash ∙ (eq_iff s.request_hash a.request_hash).0 eq))
  | inr ne ↦
      rw (reserve_idempotent_provision, found, ne)
        (misused s same
          (λ e. let t = (eq_iff s.request_hash a.request_hash).1 (same.same_hash ∙ e) in cc))
]

created_found :
    (a : Reservation) (t : Tables) (r : ProvisionRequestRecord) (answer : Reserved × Tables)
    → answer.0 ≡ created r
    → IsReservation a t answer
    → get_provision_request a.customer_id a.key_hash answer.1 ≡ some r
created_found a t r _ e (made nodes fresh room) =
    let same = created_injective (new_record a) r e in
    let key = (eq_iff a.customer_id a.customer_id).1 refl in
    let hash = (eq_iff a.key_hash a.key_hash).1 refl in
    find-append_last (has_key a.customer_id a.key_hash) t.requests (new_record a) fresh
      (rw (key, hash) refl)
    ∙ ap (λ x. some x) same
created_found a t r _ e (repeated s known same) = cc
created_found a t r _ e (refused s known other) = cc
created_found a t r _ e (full fresh crowded) = cc
created_found a t r _ e (broken w nodes new room taken) = cc

-- Once a reservation has created a request, a reservation with the same customer and key changes nothing
-- after any further steps: it answers the first one's instance, operation and task, or, for another
-- request hash, a conflict.
pub reserve_idempotent_provision-IsRepeat :
    (first a : Reservation) (t u : Tables) (r : ProvisionRequestRecord)
    → (reserve_idempotent_provision first t).0 ≡ created r
    → Steps (reserve_idempotent_provision first t).1 u
    → a.customer_id ≡ first.customer_id
    → a.key_hash ≡ first.key_hash
    → IsRepeat r a u (reserve_idempotent_provision a u)
reserve_idempotent_provision-IsRepeat first a t u r fresh steps same_customer same_key =
    let there =
      created_found first t r _ fresh (reserve_idempotent_provision-IsReservation first t) in
    elim (IsKept-Steps first.customer_id first.key_hash r _ u there steps) [
      | kept s later same ↦ IsRepeat-known r s a u (rw (same_customer, same_key) later) same
    ]

complete_found :
    (c k : String) (status : ℕ) (json : String) (t : Tables) (r : ProvisionRequestRecord)
    → get_provision_request c k t ≡ some r
    → r.response_status ≡ 0
    → get_provision_request c k (complete_provision_request c k status json t).1
      ≡ some (record r { response_status = status; response_json = some json })
unfolding complete_provision_request
complete_found c k status json t r found unanswered =
    let (listed, keyed) = find-In (has_key c k) t.requests r found in
    let is_open : open_row c k r ≡ true = rw (keyed, unanswered) refl in
    let hit = any-hit (open_row c k) r t.requests listed is_open in
    rw (complete_provision_request, hit)
      (find-update_where-some (has_key c k) (open_row c k) (answered status json) t.requests r
          (λ x. refl) found
        ∙ rw is_open refl)

write_stored :
    (s : ProvisionRequestRecord) (status : ℕ) (json : String)
    → s.response_status ≡ status
    → s.response_json ≡ some json
    → 0 < status
    → has_body (some json) ≡ true
    → write_provision_replay s ≡ replayed status (some json)
unfolding write_provision_replay
write_stored s status json h k positive body =
    let test : ltb 0 status ≡ true = ground arith in rw (h, k, test, body) refl

-- The first response that is stored for a request is what every later request with its key is answered,
-- after any further steps, unless its request hash is another; then the answer is a conflict.
pub replay_provision_if_present-complete_provision_request :
    (c k hash : String) (status : ℕ) (json : String) (t u : Tables) (r : ProvisionRequestRecord)
    → get_provision_request c k t ≡ some r
    → r.response_status ≡ 0
    → 0 < status
    → json ≢ ""
    → Steps (complete_provision_request c k status json t).1 u
    → replay_provision_if_present c k hash u
      ≡ some (if r.request_hash == hash then replayed status (some json) else key_conflict)
unfolding replay_provision_if_present write_provision_replay
replay_provision_if_present-complete_provision_request c k hash status json t u r found unanswered
      positive filled steps =
    let there = complete_found c k status json t r found unanswered in
    let not_zero : status ≢ 0 = λ z. omega arith in
    elim (IsKept-Steps c k (record r { response_status = status; response_json = some json }) _ u
      there steps) [
        | kept s later same ↦
            let status_now = same.kept_status not_zero in
            let json_now = same.kept_json not_zero in
            let body : has_body (some json) ≡ true = let empty = eq_iff json "" in ground arith in
            let answer : write_provision_replay s ≡ replayed status (some json) =
              write_stored s status json status_now json_now positive body in
            elim (Bool-cases (s.request_hash == hash)) [
              | inl eq ↦
                  rw (replay_provision_if_present, later, eq, answer, ← same.same_hash, eq) refl
              | inr ne ↦ rw (replay_provision_if_present, later, ne, ← same.same_hash, ne) refl
            ]
      ]
