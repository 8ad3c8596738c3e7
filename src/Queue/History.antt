-- ===== src/Queue/History.antt =====
-- `fleet_commands` under any sequence of calls of the publisher, at any times.
use admirald.Shared.{
  ℕ, ◌+◌, ◌<◌, ◌≡◌, refl, ◌⊎◌, inl, inr, Bool, true, false, none, some, String, List, [], >>=-eq-ok,
  leb, find, Bool-cases, arith, In, Error, Result, ok, err, eq_iff, ◌==◌, row_of_key, update_where,
  Option-cases,
}
use mathlib.Core.Path.{subst}
use admirald.Queue.Command.{
  FleetTask, FleetCommand, CommandStatus, is_held, pending, failed, default_max_attempts,
}
use admirald.Queue.Codec.{Codec, seal_payload, sign_payload, decode_payload}
use admirald.Queue.Publish.{
  unsigned, store_task, Publisher, Draw, new_command, persist_task, publish_task,
  publish_rejected_task,
}
use admirald.Queue.Claim.{
  Claim, claimed, no_command_available, claim_failed, deliver, claim_task, reset_expired, end_lease,
  is_expired, next_command, lease_command, lease, is_ready, set_signature, set_signed_at,
}
use admirald.Queue.Settle.{
  Table, mark_running_for_node, renew_lease_for_node, discard_command_for_node,
  cancel_command_for_node, cancel_task_for_node, acknowledge_task_for_node, cancel_tasks_for_node,
  restore_cancelled_tasks_for_node, finalize_cancelled_tasks_for_node, discard_tasks_for_node,
  complete_failed, backoff, complete_task, of_task, succeed, bury, retry,
}
use admirald.Queue.Rows.{
  IsSound, IsValid, IsValid-empty, IsValid-update_where, IsValid-insert_command,
}
use admirald.Queue.Order.{next_command-first}

-- One call of the publisher for a node.
pub data NodeStep (node : String) (t : Table) : Table → Type 0 where
  claim :
      (codec : Codec) (key : List ℕ) (locked : String → Bool) (now : ℕ) (consumer : String)
      → NodeStep node t (claim_task codec key locked now consumer node t).1
  mark : (now : ℕ) (id : String) → NodeStep node t (mark_running_for_node now id node t).1
  renew : (now : ℕ) (id : String) → NodeStep node t (renew_lease_for_node now id node t).1
  discard :
      (now : ℕ) (id reason : String)
      → NodeStep node t (discard_command_for_node now id node reason t).1
  cancel_command :
      (now : ℕ) (id reason : String)
      → NodeStep node t (cancel_command_for_node now id node reason t)
  cancel_task :
      (now : ℕ) (id reason : String) → NodeStep node t (cancel_task_for_node now id node reason t)
  acknowledge : (now : ℕ) (id : String) → NodeStep node t (acknowledge_task_for_node now id node t)
  cancel_tasks :
      (now : ℕ) (marker : String) → NodeStep node t (cancel_tasks_for_node now node marker t)
  discard_tasks : (now : ℕ) → NodeStep node t (discard_tasks_for_node now node t)
  restore_tasks :
      (now : ℕ) (marker : String)
      → NodeStep node t (restore_cancelled_tasks_for_node now node marker t)
  finalize_tasks :
      (marker : String) → NodeStep node t (finalize_cancelled_tasks_for_node node marker t)

-- One call of the publisher.
pub data Step (t : Table) : Table → Type 0 where
  publish :
      (is_blank : String → Bool) (p : Publisher) (d : Draw) (task : FleetTask) {u : Table}
      → publish_task is_blank p d task t ≡ ok u
      → Step t u
  reject :
      (is_blank : String → Bool) (p : Publisher) (d : Draw) (task : FleetTask)
      (reason result : String) {u : Table}
      → publish_rejected_task is_blank p d task reason result t ≡ ok u
      → Step t u
  complete :
      (now : ℕ) (task_id : String) (success : Bool) (error_msg : String) {u : Table}
      → complete_task now task_id success error_msg t ≡ ok u
      → Step t u
  of_node : (node : String) {u : Table} → NodeStep node t u → Step t u

pub data Reach : Table → Type 0 where
  empty : Reach []
  next : {t u : Table} → Reach t → Step t u → Reach u

-- `reset_expired` and `lease_command` keep a valid table valid; a leased row has an attempt left.
pub IsValid-reset_expired :
    (now : ℕ) (node : String) (t : Table) → IsValid t → IsValid (reset_expired now node t)
unfolding reset_expired
IsValid-reset_expired now node t v =
    IsValid-update_where (is_expired now node) end_lease t (λ c m hit s. ground arith) (λ c. refl)
      (λ c. refl) v

pub IsValid-lease_command :
    (now : ℕ) (consumer : String) (c : FleetCommand) (t : Table)
    → In c t
    → c.attempt_count < c.max_attempts
    → IsValid t
    → IsValid (lease_command now consumer c.id t)
unfolding lease_command
IsValid-lease_command now consumer c t m room v =
    IsValid-update_where (λ x. x.id == c.id) (lease now consumer) t
      (λ x mx hit s.
        let same : x ≡ c =
          row_of_key (λ y. y.id) x c t v.ids_distinct mx m ((eq_iff x.id c.id).0 hit) in
        let left : x.attempt_count < x.max_attempts = rw same room in ground arith)
      (λ x. refl) (λ x. refl) v

pub ready-room :
    (locked : String → Bool) (now : ℕ) (node : String) (c : FleetCommand)
    → is_ready locked now node c ≡ true
    → c.attempt_count < c.max_attempts
ready-room locked now node c h = ground arith

module _ (codec : Codec) (key : List ℕ) (locked : String → Bool) (now : ℕ) (consumer node : String)
    (t : Table) where
  abbrev reset : Table
  reset = reset_expired now node t

  -- The outcomes of a claim, by what is next in the queue and whether its payload can be read.
  pub data Claims : Claim × Table → Type 0 where
    idle : next_command locked now node reset ≡ none → Claims (no_command_available, reset)
    broken :
        (c : FleetCommand) (e : Error)
        → next_command locked now node reset ≡ some c
        → decode_payload codec key c.payload ≡ err e
        → Claims (claim_failed e, t)
    taken :
        (c : FleetCommand) (task : FleetTask)
        → next_command locked now node reset ≡ some c
        → decode_payload codec key c.payload ≡ ok task
        → Claims (
          claimed
              (set_signed_at c.signed_at (set_signature c.task_signature task))
              c.id
              (c.attempt_count + 1)
              c.max_attempts,
          lease_command now consumer c.id reset,
        )

  delivered :
      (c : FleetCommand)
      → next_command locked now node reset ≡ some c
      → (r : Result FleetTask) → decode_payload codec key c.payload ≡ r
      → Claims (deliver codec key c t (lease_command now consumer c.id reset))
  unfolding deliver
  delivered c found (ok task) e = rw (e, deliver) (taken c task found e)
  delivered c found (err x) e = rw (e, deliver) (broken c x found e)

  pub claim_task-Claims : Claims (claim_task codec key locked now consumer node t)
  unfolding claim_task
  claim_task-Claims = elim (Option-cases (next_command locked now node reset)) [
    | inl none_left ↦ rw (none_left, claim_task) (idle none_left)
    | inr (c, found) ↦
        rw (found, claim_task) (delivered c found (decode_payload codec key c.payload) refl)
  ]

  Claims-IsValid : {r : Claim × Table} → IsValid t → Claims r → IsValid r.1
  Claims-IsValid v (idle _) = IsValid-reset_expired now node t v
  Claims-IsValid v (broken c e _ _) = v
  Claims-IsValid v (taken c task found _) =
      let (m, ready, _) = next_command-first locked now node reset c found in
      IsValid-lease_command now consumer c reset m (ready-room locked now node c ready)
        (IsValid-reset_expired now node t v)

new_command-IsSound :
    (is_blank : String → Bool) (d : Draw) (task : FleetTask) (payload : List ℕ)
    (status : CommandStatus) (max_attempts : ℕ) (last_error result sig : String) (signed_at : ℕ)
    → is_held status ≡ false
    → IsSound
        (new_command is_blank d task payload status max_attempts last_error result sig signed_at)
unfolding new_command
new_command-IsSound is_blank d task payload status max_attempts last_error result sig signed_at h =
    record {
      capped = omega arith;
      held_leased = λ e. cc;
      held_owned = λ e. cc;
      held_tried = λ e. cc;
      waiting_free = λ _. (refl, refl);
      settled_free = λ _. refl;
    }

store_task-IsValid :
    (is_blank : String → Bool) (p : Publisher) (d : Draw) (task : FleetTask)
    (status : CommandStatus) (n : ℕ) (reason result : String) (t u : Table)
    → is_held status ≡ false
    → store_task is_blank p d task status n reason result t ≡ ok u
    → IsValid t
    → IsValid u
unfolding store_task persist_task
store_task-IsValid is_blank p d task status n reason result t u h e v =
    let payload = p.codec.marshal_task (unsigned task) in
    let sig = sign_payload p.codec payload d.now in
    let (stored, _, done) =
      >>=-eq-ok (seal_payload p.codec p.encryption_key d.nonce payload)
        (λ b. persist_task is_blank d task b status n reason result sig d.now t) e in
    IsValid-insert_command (new_command is_blank d task stored status n reason result sig d.now) t u
      (new_command-IsSound is_blank d task stored status n reason result sig d.now h) done v

-- A call of `CompleteTask` that does not fail is one of its three updates.
pub complete_task-cases :
    (now : ℕ) (task_id : String) (success : Bool) (error_msg : String) (t u : Table)
    → complete_task now task_id success error_msg t ≡ ok u
    → (update_where (of_task task_id) (succeed now) t ≡ u)
      ⊎ ((update_where (of_task task_id) (bury now error_msg) t ≡ u)
          ⊎ ((n : ℕ) × (update_where (of_task task_id) (retry n error_msg) t ≡ u)))
unfolding complete_task complete_failed
complete_task-cases now task_id true error_msg t u h = inl (ground arith)
complete_task-cases now task_id false error_msg t u h =
    elim (Option-cases (find (of_task task_id) t)) [
      | inl e ↦ absurd (ground arith)
      | inr (c, e) ↦ elim (Bool-cases (leb c.max_attempts c.attempt_count)) [
        | inl spent ↦ inr (inl (ground arith))
        | inr left ↦ inr (inr (now + backoff c.attempt_count, ground arith))
      ]
    ]

NodeStep-IsValid : {node : String} {t u : Table} → NodeStep node t u → IsValid t → IsValid u
unfolding mark_running_for_node renew_lease_for_node discard_command_for_node
    cancel_command_for_node cancel_task_for_node acknowledge_task_for_node discard_tasks_for_node
    restore_cancelled_tasks_for_node finalize_cancelled_tasks_for_node
NodeStep-IsValid {node} {t} (claim codec key locked now consumer) v =
    Claims-IsValid codec key locked now consumer node t v
      (claim_task-Claims codec key locked now consumer node t)
NodeStep-IsValid {t = t} _ v =
    IsValid-update_where _ _ t (λ c m hit s. ground arith) (λ c. refl) (λ c. refl) v

-- Every call keeps the table valid.
pub Step-IsValid : {t u : Table} → Step t u → IsValid t → IsValid u
unfolding publish_task publish_rejected_task
Step-IsValid {t} {u} (publish is_blank p d task h) v =
    store_task-IsValid is_blank p d task pending default_max_attempts "" "" t u refl h v
Step-IsValid {t} {u} (reject is_blank p d task reason result h) v =
    store_task-IsValid is_blank p d task failed 0 reason result t u refl h v
Step-IsValid (of_node node s) v = NodeStep-IsValid s v
Step-IsValid {t} {u} (complete now task_id success error_msg h) v =
    elim (complete_task-cases now task_id success error_msg t u h) [
      | inl e ↦
          subst IsValid e
            (IsValid-update_where _ _ t (λ c m hit s. ground arith) (λ c. refl) (λ c. refl) v)
      | inr (inl e) ↦
          subst IsValid e
            (IsValid-update_where _ _ t (λ c m hit s. ground arith) (λ c. refl) (λ c. refl) v)
      | inr (inr (n, e)) ↦
          subst IsValid e
            (IsValid-update_where _ _ t (λ c m hit s. ground arith) (λ c. refl) (λ c. refl) v)
    ]

-- Whatever calls the publisher has served, at whatever times, the queue is valid.
pub Reach-IsValid : {t : Table} → Reach t → IsValid t
Reach-IsValid empty = IsValid-empty
Reach-IsValid (next r s) = Step-IsValid s (Reach-IsValid r)
