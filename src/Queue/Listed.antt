-- ===== src/Queue/Listed.antt =====
-- A publication of internal/queue/queue.go that does not fail leaves a command for the task in the queue.
use text.Mathlib.TextPositions.{eq_refl}
use admirald.Shared.{
  ◌≡◌, refl, inl, inr, Bool, true, String, List, [], ◌∷◌, ◌++◌, arith, any, ◌==◌, ◌||◌, Bool-cases,
  >>=-eq-ok, ok_injective, ok,
}
use mathlib.Core.Path.{subst}
use admirald.Queue.Command.{FleetTask, FleetCommand, pending, default_max_attempts}
use admirald.Queue.Codec.{seal_payload, sign_payload}
use admirald.Queue.Publish.{
  Publisher, Draw, new_command, insert_command, persist_task, store_task, unsigned, publish_task,
}
use admirald.Queue.Settle.{Table}

any-last :
    {A : Type 0} (p : A → Bool) (xs : List A) (y : A) → p y ≡ true → any p (xs ++ y ∷ []) ≡ true
any-last p [] y hit = rw hit refl
any-last p (x ∷ xs) y hit = let rest = any-last p xs y hit in ground arith

insert_command-listed :
    (row : FleetCommand) (t u : Table)
    → insert_command row t ≡ ok u
    → any (λ c. c.idempotency_key == row.idempotency_key) u ≡ true
unfolding insert_command
insert_command-listed row t u done =
    elim (Bool-cases (any (λ c. c.idempotency_key == row.idempotency_key) t)) [
      | inl known ↦
          let same : ok t ≡ ok u = ground arith in
          subst (λ x. any (λ c. c.idempotency_key == row.idempotency_key) x ≡ true)
            (ok_injective t u same) known
      | inr new ↦
          elim (Bool-cases
            (any (λ c. c.id == row.id || c.task_public_id == row.task_public_id) t)) [
              | inl clash ↦ absurd (ground arith)
              | inr fits ↦
                  let same : ok (t ++ row ∷ []) ≡ ok u = ground arith in
                  subst (λ x. any (λ c. c.idempotency_key == row.idempotency_key) x ≡ true)
                    (ok_injective (t ++ row ∷ []) u same)
                    (any-last _ t row (eq_refl row.idempotency_key))
            ]
    ]

-- The queue then has a command whose idempotency key is the ID of the task.
pub publish_task-listed :
    (is_blank : String → Bool) (p : Publisher) (d : Draw) (task : FleetTask) (t u : Table)
    → publish_task is_blank p d task t ≡ ok u
    → any (λ c. c.idempotency_key == task.task_id) u ≡ true
unfolding publish_task store_task persist_task new_command
publish_task-listed is_blank p d task t u e =
    let payload = p.codec.marshal_task (unsigned task) in
    let sig = sign_payload p.codec payload d.now in
    let (stored, _, done) =
      >>=-eq-ok (seal_payload p.codec p.encryption_key d.nonce payload)
        (λ b. persist_task is_blank d task b pending default_max_attempts "" "" sig d.now t) e in
    insert_command-listed
      (new_command is_blank d task stored pending default_max_attempts "" "" sig d.now) t u done
