-- ===== src/Queue/Retry.antt =====
-- `CompleteTask` and `backoff`: what a failed attempt leads to.
use mathlib.Core.Path.{subst}
use admirald.Shared.{
  ℕ, ◌+◌, ◌≤◌, ◌<◌, ◌≡◌, ◌≢◌, ◌⊎◌, none, refl, sym, ◌∙◌, ap, inl, inr, true, false, some, String,
  [], ◌∷◌, arith, In, In-map, map-update_where, All, All-In, All-update_where,
  All-update_where_each, find, eq_iff, ◌==◌, update_where, Bool-cases, if◌then◌else◌, leb, ok,
  Distinct, row_of_key,
}
use admirald.Queue.Command.{FleetCommand, pending, dead_letter, is_held, is_pending}
use admirald.Queue.Claim.{Claim, reset_expired, end_lease, is_expired}
use admirald.Queue.Settle.{Table, backoff, of_task, bury, retry, complete_task, complete_failed}
use admirald.Queue.Rows.{IsValid, task_ids}
use admirald.Queue.Order.{next_command-first}
use admirald.Queue.History.{Claims, idle, broken, taken, claim_task-Claims}
use admirald.Queue.Next.{Reports}
use admirald.Queue.Taken.{ClaimCall, run_claim}

-- The wait after an attempt is between 2 and 30 seconds and does not shrink from one attempt to the
-- next.
pub backoff_bounds :
    (a b : ℕ) → a ≤ b → (2 ≤ backoff a) × (backoff a ≤ backoff b) × (backoff b ≤ 30)
unfolding backoff
backoff_bounds a b h = ground arith

find-of_task :
    (c : FleetCommand) (t : Table)
    → Distinct (task_ids t)
    → In c t
    → find (of_task c.task_public_id) t ≡ some c
find-of_task c [] d m = absurd m
find-of_task c (x ∷ xs) d (inl e) =
    rw
      ((eq_iff x.task_public_id c.task_public_id).1
        (ap (λ (r : FleetCommand). r.task_public_id) (sym e)))
      (ap some (sym e))
find-of_task c (x ∷ xs) d (inr m) = elim (Bool-cases (x.task_public_id == c.task_public_id)) [
  | inl same ↦ absurd (
      d.0 (
        subst (λ k. In k (task_ids xs)) (sym ((eq_iff x.task_public_id c.task_public_id).0 same))
          (In-map (λ r. r.task_public_id) c xs m)))
  | inr other ↦ rw other (find-of_task c xs d.1 m)
]

-- What a failed attempt of command `c` does to it: it waits for a retry while attempts are left, and
-- is given up otherwise.
abbrev pub after_failure : ℕ → String → FleetCommand → FleetCommand → FleetCommand
after_failure now error_msg c =
    if leb c.max_attempts c.attempt_count
    then bury now error_msg
    else retry (now + backoff c.attempt_count) error_msg

-- The table that a failure leaves.
complete_task-failed :
    (now : ℕ) (error_msg : String) (c : FleetCommand) (t : Table)
    → IsValid t
    → In c t
    → complete_task now c.task_public_id false error_msg t
      ≡ ok (update_where (of_task c.task_public_id) (after_failure now error_msg c) t)
unfolding complete_task complete_failed
complete_task-failed now error_msg c t v m =
    rw (find-of_task c t v.tasks_distinct m, complete_failed)
      (elim (Bool-cases (leb c.max_attempts c.attempt_count)) [
        | inl spent ↦ rw spent
        | inr left ↦ rw left
      ])

-- The rows of a command that may not be claimed before `start`.
abbrev NotBefore : ℕ → String → FleetCommand → Type 0
NotBefore start id x =
    x.id ≡ id → (is_held x.status ≡ false) × (is_pending x.status ≡ true → start ≤ x.available_at)

NotBefore-claim :
    (start : ℕ) (id : String) (k : ClaimCall) (t : Table)
    → k.now < start
    → All (NotBefore start id) t
    → Reports id (run_claim k t).0
    → ⊥
NotBefore-claim start id k t early waits h =
    go (claim_task-Claims k.codec k.key k.locked k.now k.consumer k.node t) h
  where
    reset : Table
    reset = reset_expired k.now k.node t

    still : All (NotBefore start id) reset
    still =
        unfold reset_expired in
        All-update_where (NotBefore start id) (is_expired k.now k.node) end_lease t
          (λ c m hit w same. let (free, _) = w same in absurd (ground arith)) waits

    go :
        {r : Claim × Table}
        → Claims k.codec k.key k.locked k.now k.consumer k.node t r
        → Reports id r.0
        → ⊥
    go (idle _) h = h
    go (broken c e _ _) h = h
    go (taken c task found _) h =
        let (m, ready, _) = next_command-first k.locked k.now k.node reset c found in
        let (free, wait) = All-In (NotBefore start id) c reset still m h in
        let late = wait (ground arith) in ground arith

-- The seconds to wait after an attempt.
abbrev pub IsWait : ℕ → ℕ → Type 0
IsWait attempt wait =
    ((attempt ≤ 1) × (wait ≡ 2))
    ⊎ ((attempt ≡ 2) × (wait ≡ 5))
    ⊎ ((attempt ≡ 3) × (wait ≡ 10))
    ⊎ ((4 ≤ attempt) × (wait ≡ 30))

backoff-IsWait : (attempt : ℕ) → IsWait attempt (backoff attempt)
unfolding backoff
backoff-IsWait attempt = ground arith

IsWait-backoff : (attempt wait : ℕ) → IsWait attempt wait → wait ≡ backoff attempt
unfolding backoff
IsWait-backoff attempt wait w = ground arith

-- A row that waits for another attempt, and one that is given up.
abbrev pub IsRetried : ℕ → String → FleetCommand → FleetCommand → Type 0
IsRetried now error_msg c x =
    (c.attempt_count < c.max_attempts)
    × (wait : ℕ) × IsWait c.attempt_count wait
    × (x ≡ record c {
      status = pending;
      last_error = some error_msg;
      available_at = now + wait;
      leased_until = none;
      leased_by = none;
    })

abbrev pub IsGivenUp : ℕ → String → FleetCommand → FleetCommand → Type 0
IsGivenUp now error_msg c x =
    (c.max_attempts ≤ c.attempt_count)
    × (x ≡ record c {
      status = dead_letter;
      last_error = some error_msg;
      completed_at = some now;
      leased_until = none;
    })

-- What a failure that is reported for the task of a command leaves.
pub record IsSetBack (now : ℕ) (error_msg : String) (c : FleetCommand) (t u : Table) : Type 0 where
  -- The rows are the same tasks in the same order, and all others are as they were.
  pub same_tasks : task_ids u ≡ task_ids t
  pub others : All (λ x. x.task_public_id ≢ c.task_public_id → In x t) u
  pub own :
      All
        (λ x.
          x.task_public_id ≡ c.task_public_id
          → IsRetried now error_msg c x ⊎ IsGivenUp now error_msg c x)
        u
  -- No claim returns the command before the wait is over, or at all once it is given up.
  pub held_back :
      (k : ClaimCall) (wait : ℕ)
      → IsWait c.attempt_count wait
      → (k.now < now + wait) ⊎ (c.max_attempts ≤ c.attempt_count)
      → Reports c.id (run_claim k u).0
      → ⊥

after_failure-task :
    (now : ℕ) (error_msg : String) (c x : FleetCommand)
    → (after_failure now error_msg c x).task_public_id ≡ x.task_public_id
after_failure-task now error_msg c x = elim (Bool-cases (leb c.max_attempts c.attempt_count)) [
  | inl spent ↦ rw spent refl
  | inr left ↦ rw left refl
]

after_failure-cases :
    (now : ℕ) (error_msg : String) (c : FleetCommand)
    → IsRetried now error_msg c (after_failure now error_msg c c)
      ⊎ IsGivenUp now error_msg c (after_failure now error_msg c c)
after_failure-cases now error_msg c = elim (Bool-cases (leb c.max_attempts c.attempt_count)) [
  | inl spent ↦ rw spent (inr (ground arith, refl))
  | inr left ↦
      rw left (inl (ground arith, backoff c.attempt_count, backoff-IsWait c.attempt_count, refl))
]

-- The row afterwards is not handed out before a time, if the command has attempts left and waits until then,
-- or at any time, if it has none.
NotBefore-after_failure :
    (now start : ℕ) (error_msg : String) (c : FleetCommand)
    → (start ≤ now + backoff c.attempt_count) ⊎ (c.max_attempts ≤ c.attempt_count)
    → NotBefore start c.id (after_failure now error_msg c c)
NotBefore-after_failure now start error_msg c waits _ =
    elim (Bool-cases (leb c.max_attempts c.attempt_count)) [
      | inl spent ↦ rw spent (refl, λ e. cc)
      | inr left ↦ rw left (refl, λ e. ground arith)
    ]

module _ (now : ℕ) (error_msg : String) (c : FleetCommand) (t : Table) (v : IsValid t)
    (m : In c t) where
  abbrev failed_table : Table
  failed_table = update_where (of_task c.task_public_id) (after_failure now error_msg c) t

  -- A row with the command's task is the command's row.
  own_row : (x : FleetCommand) → In x t → of_task c.task_public_id x ≡ true → x ≡ c
  own_row x mx hit =
      row_of_key (λ y. y.task_public_id) x c t v.tasks_distinct mx m
        ((eq_iff x.task_public_id c.task_public_id).0 hit)

  failed_table-others : All (λ x. x.task_public_id ≢ c.task_public_id → In x t) failed_table
  failed_table-others =
      All-update_where_each (λ x. x.task_public_id ≢ c.task_public_id → In x t)
        (of_task c.task_public_id) (after_failure now error_msg c) t
        (λ x mx. elim (Bool-cases (of_task c.task_public_id x)) [
          | inl hit ↦ rw hit (λ differs. absurd (
              differs (
                after_failure-task now error_msg c x
                ∙ (eq_iff x.task_public_id c.task_public_id).0 hit)))
          | inr miss ↦ rw miss (λ differs. mx)
        ])

  failed_table-own :
      All
        (λ x.
          x.task_public_id ≡ c.task_public_id
          → IsRetried now error_msg c x ⊎ IsGivenUp now error_msg c x)
        failed_table
  failed_table-own =
      All-update_where_each
        (λ x.
          x.task_public_id ≡ c.task_public_id
          → IsRetried now error_msg c x ⊎ IsGivenUp now error_msg c x)
        (of_task c.task_public_id) (after_failure now error_msg c) t
        (λ x mx. elim (Bool-cases (of_task c.task_public_id x)) [
          | inl hit ↦ rw (hit, own_row x mx hit) (λ _. after_failure-cases now error_msg c)
          | inr miss ↦
              rw miss (λ same. absurd (ground (arith, eq_iff x.task_public_id c.task_public_id)))
        ])

  failed_table-NotBefore :
      (start : ℕ)
      → (start ≤ now + backoff c.attempt_count) ⊎ (c.max_attempts ≤ c.attempt_count)
      → All (NotBefore start c.id) failed_table
  failed_table-NotBefore start waits =
      All-update_where_each (NotBefore start c.id) (of_task c.task_public_id)
        (after_failure now error_msg c) t
        (λ x mx. elim (Bool-cases (of_task c.task_public_id x)) [
          | inl hit ↦
              rw (hit, own_row x mx hit) (NotBefore-after_failure now start error_msg c waits)
          | inr miss ↦ rw miss (λ same.
              let is_c : x ≡ c = row_of_key (λ y. y.id) x c t v.ids_distinct mx m same in
              absurd (ground (arith, eq_iff x.task_public_id c.task_public_id)))
        ])

  failed_table-held_back :
      (k : ClaimCall) (wait : ℕ)
      → IsWait c.attempt_count wait
      → (k.now < now + wait) ⊎ (c.max_attempts ≤ c.attempt_count)
      → Reports c.id (run_claim k failed_table).0
      → ⊥
  failed_table-held_back k wait w (inl early) h =
      let e = IsWait-backoff c.attempt_count wait w in
      NotBefore-claim (now + backoff c.attempt_count) c.id k failed_table (omega (arith, early, e))
        (failed_table-NotBefore (now + backoff c.attempt_count) (inl (omega arith))) h
  failed_table-held_back k wait w (inr spent) h =
      NotBefore-claim (k.now + 1) c.id k failed_table (omega arith)
        (failed_table-NotBefore (k.now + 1) (inr spent)) h

  -- A failure reported for the task of a command of a valid table, whatever the command's status was,
  -- changes that command alone: with attempts left it becomes pending, to be claimed 2 seconds later
  -- after its first attempt, 5 after the second, 10 after the third and 30 after any later one, and with
  -- none left it becomes a dead letter. No claim returns it before that time, or ever once given up, by
  -- the table that the failure leaves.
  pub complete_task-IsSetBack :
      (u : Table) × (complete_task now c.task_public_id false error_msg t ≡ ok u)
      × IsSetBack now error_msg c t u
  complete_task-IsSetBack = (
    failed_table,
    complete_task-failed now error_msg c t v m,
    record {
      same_tasks =
          map-update_where (λ x. x.task_public_id) (of_task c.task_public_id)
            (after_failure now error_msg c) (after_failure-task now error_msg c) t;
      others = failed_table-others;
      own = failed_table-own;
      held_back = failed_table-held_back;
    },
  )
