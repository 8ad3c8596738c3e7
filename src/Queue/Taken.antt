-- ===== src/Queue/Taken.antt =====
-- Commands that no claim takes, since they are leased or settled, and the statements that leave them so.
use mathlib.Core.Path.{subst}
use admirald.Shared.{
  ℕ, ◌+◌, ◌≤◌, ◌≡◌, ◌≢◌, refl, sym, ◌∙◌, ◌⊎◌, inl, inr, Bool, true, false, some, String, List, [],
  ◌∷◌, ◌++◌, arith, All, All-In, All-append, All-update_where, All-update_where_each, eq_iff, ◌==◌,
  any, update_where, Bool-cases, >>=-eq-ok, ok_injective, ok, ◌||◌,
}
use admirald.Queue.Command.{
  FleetTask, FleetCommand, CommandStatus, is_held, is_pending, is_running, default_lease_seconds,
}
use admirald.Queue.Codec.{Codec, seal_payload, sign_payload}
use admirald.Queue.Publish.{
  Publisher, Draw, new_command, insert_command, persist_task, store_task, unsigned,
}
use admirald.Queue.Claim.{
  Claim, claim_task, reset_expired, end_lease, is_expired, lease_command, lease,
}
use admirald.Queue.Settle.{Table, complete_task, of_task, succeed}
use admirald.Queue.Order.{next_command-first}
use admirald.Queue.History.{Claims, idle, broken, taken, claim_task-Claims, complete_task-cases}
use admirald.Queue.Next.{Reports}

-- A row of the command is held under a lease that runs at least until `deadline`, or it is settled.
abbrev pub IsTaken : ℕ → String → FleetCommand → Type 0
IsTaken deadline id c =
    c.id ≡ id
    → ((is_held c.status ≡ true) × (until : ℕ) × (c.leased_until ≡ some until) × (deadline ≤ until))
      ⊎ ((is_held c.status ≡ false) × (is_pending c.status ≡ false))

abbrev pub AreTaken : ℕ → String → Table → Type 0
AreTaken deadline id = All (IsTaken deadline id)

-- One call of `ClaimTask`, with what it draws from outside.
pub record ClaimCall : Type 0 where
  pub codec : Codec
  pub key : List ℕ
  pub locked : String → Bool
  pub now : ℕ
  pub consumer : String
  pub node : String

abbrev pub run_claim : ClaimCall → Table → Claim × Table
run_claim k = claim_task k.codec k.key k.locked k.now k.consumer k.node

module _ (deadline : ℕ) (id : String) where
  AreTaken-reset_expired :
      (now : ℕ) (node : String) (t : Table)
      → now ≤ deadline
      → AreTaken deadline id t
      → AreTaken deadline id (reset_expired now node t)
  unfolding reset_expired
  AreTaken-reset_expired now node t runs held =
      All-update_where (IsTaken deadline id) (is_expired now node) end_lease t
        (λ c m hit h same. elim (h same) [
          | inl busy ↦ (let late = busy.3 in let until = busy.2 in absurd (ground arith))
          | inr free ↦ absurd (ground (arith, free.0))
        ])
        held

  AreTaken-lease_command :
      (now : ℕ) (other consumer : String) (t : Table)
      → other ≢ id
      → AreTaken deadline id t
      → AreTaken deadline id (lease_command now consumer other t)
  unfolding lease_command
  AreTaken-lease_command now other consumer t differ held =
      All-update_where (IsTaken deadline id) (λ c. c.id == other) (lease now consumer) t
        (λ c m hit h same. absurd (differ (sym ((eq_iff c.id other).0 hit) ∙ same))) held

  pub claim-AreTaken :
      (k : ClaimCall) (t : Table)
      → k.now ≤ deadline
      → AreTaken deadline id t
      → (Reports id (run_claim k t).0 → ⊥) × AreTaken deadline id (run_claim k t).1
  claim-AreTaken k t runs held =
      go (claim_task-Claims k.codec k.key k.locked k.now k.consumer k.node t)
    where
      reset : Table
      reset = reset_expired k.now k.node t

      still : AreTaken deadline id reset
      still = AreTaken-reset_expired k.now k.node t runs held

      go :
          {r : Claim × Table}
          → Claims k.codec k.key k.locked k.now k.consumer k.node t r
          → (Reports id r.0 → ⊥) × AreTaken deadline id r.1
      go (idle _) = ((λ h. h), still)
      go (broken c e _ _) = ((λ h. h), held)
      go (taken c task found _) =
          let (m, ready, _) = next_command-first k.locked k.now k.node reset c found in
          let differ : c.id ≢ id = λ same.
            elim (All-In (IsTaken deadline id) c reset still m same) [
              | inl busy ↦ (let held_now = busy.0 in absurd (ground arith))
              | inr free ↦ (let waits = free.1 in absurd (ground arith))
            ] in
          (differ, AreTaken-lease_command k.now c.id k.consumer reset differ still)

  -- An update after which no row it changes is held or pending.
  pub settled_by :
      (p : FleetCommand → Bool) (f : FleetCommand → FleetCommand) (t : Table)
      → ((c : FleetCommand) → (is_held (f c).status ≡ false) × (is_pending (f c).status ≡ false))
      → AreTaken deadline id t
      → AreTaken deadline id (update_where p f t)
  settled_by p f t settles held =
      All-update_where (IsTaken deadline id) p f t (λ c m hit h same. inr (settles c)) held

  insert_command-AreTaken :
      (row : FleetCommand) (t u : Table)
      → row.id ≢ id
      → insert_command row t ≡ ok u
      → AreTaken deadline id t
      → AreTaken deadline id u
  unfolding insert_command
  insert_command-AreTaken row t u differs done held =
      elim (Bool-cases (any (λ c. c.idempotency_key == row.idempotency_key) t)) [
        | inl known ↦
            let same : ok t ≡ ok u = ground arith in
            subst (AreTaken deadline id) (ok_injective t u same) held
        | inr new ↦
            elim (Bool-cases
              (any (λ c. c.id == row.id || c.task_public_id == row.task_public_id) t)) [
                | inl clash ↦ absurd (ground arith)
                | inr fits ↦
                    let same : ok (t ++ row ∷ []) ≡ ok u = ground arith in
                    subst (AreTaken deadline id) (ok_injective (t ++ row ∷ []) u same) (
                      All-append (IsTaken deadline id) t (row ∷ []) held
                        ((λ own. absurd (differs own)), tt))
              ]
      ]

  pub store_task-AreTaken :
      (is_blank : String → Bool) (p : Publisher) (d : Draw) (task : FleetTask)
      (status : CommandStatus) (n : ℕ) (reason result : String) (t u : Table)
      → d.command_id ≢ id
      → store_task is_blank p d task status n reason result t ≡ ok u
      → AreTaken deadline id t
      → AreTaken deadline id u
  unfolding store_task persist_task new_command
  store_task-AreTaken is_blank p d task status n reason result t u differs e held =
      let payload = p.codec.marshal_task (unsigned task) in
      let sig = sign_payload p.codec payload d.now in
      let (stored, _, done) =
        >>=-eq-ok (seal_payload p.codec p.encryption_key d.nonce payload)
          (λ b. persist_task is_blank d task b status n reason result sig d.now t) e in
      insert_command-AreTaken (new_command is_blank d task stored status n reason result sig d.now)
        t u differs done held

  pub renew-AreTaken :
      (start now : ℕ) (p : FleetCommand → Bool) (t : Table)
      → deadline ≤ start + default_lease_seconds
      → start ≤ now
      → ((c : FleetCommand) → p c ≡ true → is_running c.status ≡ true)
      → AreTaken deadline id t
      → AreTaken deadline id
          (update_where p (λ c. record c { leased_until = some (now + default_lease_seconds) }) t)
  renew-AreTaken start now p t within since runs held =
      All-update_where (IsTaken deadline id) p _ t
        (λ c m hit h same. elim (h same) [
          | inl busy ↦ inl (busy.0, now + default_lease_seconds, refl, omega (arith, within, since))
          | inr free ↦
              (let running_now = runs c hit in let idle_now = free.0 in absurd (ground arith))
        ])
        held

  pub succeeded-AreTaken :
      (now : ℕ) (task_id error_msg : String) (t u : Table)
      → complete_task now task_id true error_msg t ≡ ok u
      → AreTaken deadline id t
      → AreTaken deadline id u
  unfolding complete_task
  succeeded-AreTaken now task_id error_msg t u done held =
      subst (AreTaken deadline id) (ok_injective _ u done)
        (settled_by (of_task task_id) (succeed now) t (λ c. (refl, refl)) held)

  -- An update of the rows of another task.
  other_task :
      (task_id : String) (f : FleetCommand → FleetCommand) (t : Table)
      → ((c : FleetCommand) → (f c).id ≡ c.id)
      → All (λ c. c.id ≡ id → c.task_public_id ≢ task_id) t
      → AreTaken deadline id t
      → AreTaken deadline id (update_where (of_task task_id) f t)
  other_task task_id f t keeps other held =
      All-update_where (IsTaken deadline id) (of_task task_id) f t
        (λ c m hit h same. absurd (
          All-In (λ c. c.id ≡ id → c.task_public_id ≢ task_id) c t other m (sym (keeps c) ∙ same)
            ((eq_iff c.task_public_id task_id).0 hit)))
        held

  pub failed-AreTaken :
      (now : ℕ) (task_id error_msg : String) (t u : Table)
      → All (λ c. c.id ≡ id → c.task_public_id ≢ task_id) t
      → complete_task now task_id false error_msg t ≡ ok u
      → AreTaken deadline id t
      → AreTaken deadline id u
  failed-AreTaken now task_id error_msg t u other done held =
      elim (complete_task-cases now task_id false error_msg t u done) [
        | inl e ↦ subst (AreTaken deadline id) e (other_task task_id _ t (λ c. refl) other held)
        | inr (inl e) ↦
            subst (AreTaken deadline id) e (other_task task_id _ t (λ c. refl) other held)
        | inr (inr (n, e)) ↦
            subst (AreTaken deadline id) e (other_task task_id _ t (λ c. refl) other held)
      ]

pub AreTaken-leased :
    (now : ℕ) (id consumer : String) (t : Table)
    → AreTaken (now + default_lease_seconds) id (lease_command now consumer id t)
unfolding lease_command
AreTaken-leased now id consumer t =
    All-update_where_each (IsTaken (now + default_lease_seconds) id) (λ c. c.id == id)
      (lease now consumer) t
      (λ c m. elim (Bool-cases (c.id == id)) [
        | inl hit ↦ rw hit (λ _. inl (refl, now + default_lease_seconds, refl, omega arith))
        | inr miss ↦ rw miss (λ same. absurd (ground (arith, eq_iff c.id id)))
      ])
