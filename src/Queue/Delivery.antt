-- ===== src/Queue/Delivery.antt =====
-- From `PublishTask` to `ClaimTask`: the task that a node claims is the task that was published.
use admirald.Shared.{
  ℕ, ◌≤◌, ◌≡◌, ◌≢◌, ap, Bool, true, false, some, String, List, [], ◌∷◌, ◌++◌, arith, In, All,
  All-map, All-append, any-miss, any-hit, keep-append_one, update_where-miss, eq_iff, ◌==◌, ok,
  >>=-eq-ok, length,
}
use admirald.Queue.Command.{FleetTask, FleetCommand, pending, default_max_attempts}
use admirald.Queue.Codec.{IsSound, sign_payload, seal_payload, decode_payload, decode-seal}
use admirald.Queue.Publish.{
  Publisher, Draw, non_empty, positive, unsigned, new_command, insert_command, persist_task,
  publish_task,
}
use admirald.Queue.Claim.{
  claimed, claim_task, deliver, reset_expired, end_lease, is_expired, is_ready, next_command,
  set_signature, set_signed_at,
}
use admirald.Queue.Settle.{Table}

-- The table has no command for the node, and none of the task.
abbrev pub IsClear : String → String → Table → Type 0
IsClear node task_id =
    All (λ c. (c.node_id ≢ node) × (c.idempotency_key ≢ task_id) × (c.task_public_id ≢ task_id))

-- The task as its node receives it: with the signature and its time.
abbrev pub signed : Publisher → Draw → FleetTask → FleetTask
signed p d task = record task {
  task_signature = sign_payload p.codec (p.codec.marshal_task (unsigned task)) d.now;
  signed_at = d.now;
}

neq_false : (a b : String) → a ≢ b → (a == b) ≡ false
neq_false a b h = ground (arith, eq_iff a b)

insert_command-new :
    (r : FleetCommand) (t u : Table)
    → All (λ c. c.idempotency_key ≢ r.idempotency_key) t
    → insert_command r t ≡ ok u
    → t ++ r ∷ [] ≡ u
unfolding insert_command
insert_command-new r t u clear h =
    let other =
      any-miss (λ c. c.idempotency_key == r.idempotency_key) t
        (All-map (λ c. neq_false c.idempotency_key r.idempotency_key) t clear) in
    ground arith

module _ (is_blank : String → Bool) (p : Publisher) (d : Draw) (task : FleetTask) where
  sig : String
  sig = sign_payload p.codec (p.codec.marshal_task (unsigned task)) d.now

  row : List ℕ → FleetCommand
  row stored = new_command is_blank d task stored pending default_max_attempts "" "" sig d.now

  -- A task that is not refused is sealed, and its row is added.
  published :
      (t u : Table)
      → IsClear task.node_id task.task_id t
      → publish_task is_blank p d task t ≡ ok u
      → (stored : List ℕ) × (seal_payload p.codec p.encryption_key d.nonce
            (p.codec.marshal_task (unsigned task))
          ≡ ok stored)
        × (t ++ row stored ∷ [] ≡ u)
  unfolding publish_task persist_task row sig
  published t u clear h =
      let (stored, sealed, inserted) =
        >>=-eq-ok
          (seal_payload p.codec p.encryption_key d.nonce (p.codec.marshal_task (unsigned task)))
          (λ b. persist_task is_blank d task b pending default_max_attempts "" "" sig d.now t) h in
      (
        stored,
        sealed,
        insert_command-new (row stored) t u
            (All-map
              {P = λ c.
                (c.node_id ≢ task.node_id)
                × (c.idempotency_key ≢ task.task_id)
                × (c.task_public_id ≢ task.task_id)}
              (λ c h. h.1) t clear)
            inserted,
      )

  -- The new row is ready from the time at which it was stored.
  row-is_ready :
      (stored : List ℕ) (locked : String → Bool) (now : ℕ)
      → d.now ≤ now
      → locked d.command_id ≡ false
      → is_ready locked now task.node_id (row stored) ≡ true
  unfolding row new_command
  row-is_ready stored locked now later free = ground (arith, eq_iff task.node_id task.node_id)

  row-is_expired : (stored : List ℕ) (now : ℕ) → is_expired now task.node_id (row stored) ≡ false
  unfolding row new_command
  row-is_expired stored now = ground arith

  signed_again :
      set_signed_at (positive d.now) (set_signature (non_empty sig) (unsigned task))
      ≡ signed p d task
  unfolding sig
  signed_again =
      ground (arith, eq_iff (sign_payload p.codec (p.codec.marshal_task (unsigned task)) d.now) "")

  delivered :
      (key stored : List ℕ) (before after : Table)
      → decode_payload p.codec key stored ≡ ok (unsigned task)
      → (deliver p.codec key (row stored) before after).0
        ≡ claimed (signed p d task) d.command_id 1 default_max_attempts
  unfolding deliver row new_command
  delivered key stored before after decoded =
      rw (decoded, deliver) (ap (λ x. claimed x d.command_id 1 default_max_attempts) signed_again)

  module _ (t : Table) (clear : IsClear task.node_id task.task_id t) (stored : List ℕ)
      (now : ℕ) where
    not_ours : All (λ c. (c.node_id == task.node_id) ≡ false) t
    not_ours =
        All-map
          {P = λ c.
            (c.node_id ≢ task.node_id)
            × (c.idempotency_key ≢ task.task_id)
            × (c.task_public_id ≢ task.task_id)}
          (λ c h. neq_false c.node_id task.node_id h.0) t clear

    reset-same : reset_expired now task.node_id (t ++ row stored ∷ []) ≡ t ++ row stored ∷ []
    unfolding reset_expired
    reset-same = update_where-miss (is_expired now task.node_id) end_lease (t ++ row stored ∷ []) (
        All-append (λ c. is_expired now task.node_id c ≡ false) t (row stored ∷ [])
          (All-map {P = λ c. (c.node_id == task.node_id) ≡ false} (λ c h. rw h) t not_ours)
          (row-is_expired stored now, tt))

    next_command-row :
        (locked : String → Bool)
        → d.now ≤ now
        → locked d.command_id ≡ false
        → next_command locked now task.node_id (t ++ row stored ∷ []) ≡ some (row stored)
    unfolding next_command
    next_command-row locked later free =
        let found =
          keep-append_one (is_ready locked now task.node_id) t (row stored)
            (All-map {P = λ c. (c.node_id == task.node_id) ≡ false} (λ c h. rw h) t not_ours)
            (row-is_ready stored locked now later free) in
        rw (found, next_command)

    taken_row :
        (key : List ℕ) (locked : String → Bool) (consumer : String)
        → d.now ≤ now
        → locked d.command_id ≡ false
        → decode_payload p.codec key stored ≡ ok (unsigned task)
        → (claim_task p.codec key locked now consumer task.node_id (t ++ row stored ∷ [])).0
          ≡ claimed (signed p d task) d.command_id 1 default_max_attempts
    unfolding claim_task
    taken_row key locked consumer later free decoded =
        rw (reset-same, claim_task)
          (rw (next_command-row locked later free, claim_task) (delivered key stored _ _ decoded))

  -- With a codec that reads back what it writes, a task with an identifier that is published to a node
  -- without commands, and was not published before, is what the node's next claim returns, unless
  -- the row is locked, with its signature and as the first of five attempts: whether the
  -- queue is encrypted or not.
  pub claim-publish :
      (t u : Table) (locked : String → Bool) (now : ℕ) (consumer : String)
      → IsSound p.codec (unsigned task)
      → length d.nonce ≡ p.codec.nonce_size
      → d.nonce ≢ []
      → task.task_id ≢ ""
      → IsClear task.node_id task.task_id t
      → publish_task is_blank p d task t ≡ ok u
      → d.now ≤ now
      → locked d.command_id ≡ false
      → (claim_task p.codec p.encryption_key locked now consumer task.node_id u).0
        ≡ claimed (signed p d task) d.command_id 1 default_max_attempts
  claim-publish t u locked now consumer sound size filled has_id clear done later free =
      let (stored, sealed, added) = published t u clear done in
      rw (← added) (
        taken_row t clear stored now p.encryption_key locked consumer later free (
          decode-seal p.codec (unsigned task) sound p.encryption_key d.nonce stored size filled
            has_id sealed))

  -- Publishing a task again, where its payload can be sealed, changes nothing, whatever has happened
  -- to its command since.
  pub publish_again :
      (t : Table) (c : FleetCommand) (payload : List ℕ)
      → In c t
      → c.idempotency_key ≡ task.task_id
      → seal_payload p.codec p.encryption_key d.nonce (p.codec.marshal_task (unsigned task))
        ≡ ok payload
      → publish_task is_blank p d task t ≡ ok t
  unfolding publish_task persist_task
  publish_again t c payload m same sealed =
      let hit =
        any-hit (λ x. x.idempotency_key == task.task_id) c t m
          ((eq_iff c.idempotency_key task.task_id).1 same) in
      rw sealed (rw hit)
