-- ===== src/Queue/Rows.antt =====
-- The shape of `fleet_commands` between two calls, and the updates and inserts that keep it.
use mathlib.Core.Path.{subst}
use mathlib.Core.List.{map-append}
use admirald.Shared.{
  ◌≤◌, ◌<◌, ◌≡◌, ◌≢◌, ◌⊎◌, inl, inr, Bool, true, false, none, String, List, [], ◌∷◌, ◌++◌, map,
  arith, All, In, All-update_where, All-append, map-update_where, Distinct, Distinct-append_one,
  update_where, any, ◌==◌, ◌||◌, eq_iff, ok,
}
use admirald.Queue.Command.{FleetCommand, is_held, is_terminal, is_pending}
use admirald.Queue.Publish.{insert_command}
use admirald.Queue.Settle.{Table}

-- Attempts stay within the allowance; a held row has a lease, an owner and an attempt; a waiting row
-- has neither lease nor owner; a settled row has no lease.
pub record IsSound (c : FleetCommand) : Type 0 where
  pub capped : c.attempt_count ≤ c.max_attempts
  pub held_leased : is_held c.status ≡ true → c.leased_until ≢ none
  pub held_owned : is_held c.status ≡ true → c.leased_by ≢ none
  pub held_tried : is_held c.status ≡ true → 0 < c.attempt_count
  pub waiting_free : is_pending c.status ≡ true → (c.leased_until ≡ none) × (c.leased_by ≡ none)
  pub settled_free : is_terminal c.status ≡ true → c.leased_until ≡ none

abbrev pub ids : Table → List String
ids = map (λ c. c.id)

abbrev pub task_ids : Table → List String
task_ids = map (λ c. c.task_public_id)

pub record IsValid (t : Table) : Type 0 where
  pub rows : All IsSound t
  pub ids_distinct : Distinct (ids t)
  pub tasks_distinct : Distinct (task_ids t)

pub IsValid-empty : IsValid []
IsValid-empty = record { rows = tt; ids_distinct = tt; tasks_distinct = tt }

-- An update that keeps the identifiers, and keeps the rows that it changes sound.
pub IsValid-update_where :
    (p : FleetCommand → Bool) (f : FleetCommand → FleetCommand) (t : Table)
    → ((c : FleetCommand) → In c t → p c ≡ true → IsSound c → IsSound (f c))
    → ((c : FleetCommand) → (f c).id ≡ c.id)
    → ((c : FleetCommand) → (f c).task_public_id ≡ c.task_public_id)
    → IsValid t
    → IsValid (update_where p f t)
IsValid-update_where p f t step same_id same_task v = record {
  rows = All-update_where IsSound p f t step v.rows;
  ids_distinct = rw (map-update_where (λ c. c.id) p f same_id t) v.ids_distinct;
  tasks_distinct = rw (map-update_where (λ c. c.task_public_id) p f same_task t) v.tasks_distinct;
}

-- A row that a test misses on the whole table has a key that the table lacks.
not_any-In :
    {A : Type 0} (key : A → String) (k : String) (p : A → Bool) (xs : List A)
    → ((x : A) → key x ≡ k → p x ≡ true)
    → any p xs ≡ false
    → In k (map key xs)
    → ⊥
not_any-In key k p [] same h m = m
not_any-In key k p (x ∷ xs) same h (inl e) = ground (arith, same x)
not_any-In key k p (x ∷ xs) same h (inr m) = not_any-In key k p xs same (ground arith) m

abbrev repeats : FleetCommand → FleetCommand → Bool
repeats row c = c.id == row.id || c.task_public_id == row.task_public_id

-- An insert that is not refused changes nothing, or adds a row with a new ID and task ID.
insert_command-cases :
    (row : FleetCommand) (t u : Table)
    → insert_command row t ≡ ok u
    → (t ≡ u) ⊎ ((t ++ row ∷ [] ≡ u) × (any (repeats row) t ≡ false))
unfolding insert_command
insert_command-cases row t u h = ground arith

insert_fresh :
    (row : FleetCommand) (t : Table)
    → IsSound row
    → any (repeats row) t ≡ false
    → IsValid t
    → IsValid (t ++ row ∷ [])
insert_fresh row t sound fresh v = record {
  rows = All-append IsSound t (row ∷ []) v.rows (sound, tt);
  ids_distinct = rw (map-append (λ c. c.id) t (row ∷ [])) (
      Distinct-append_one row.id (ids t)
        (not_any-In (λ c. c.id) row.id (repeats row) t (λ c e. ground (arith, eq_iff c.id row.id))
          fresh)
        v.ids_distinct);
  tasks_distinct = rw (map-append (λ c. c.task_public_id) t (row ∷ [])) (
      Distinct-append_one row.task_public_id (task_ids t)
        (not_any-In (λ c. c.task_public_id) row.task_public_id (repeats row) t
          (λ c e. ground (arith, eq_iff c.task_public_id row.task_public_id)) fresh)
        v.tasks_distinct);
}

pub IsValid-insert_command :
    (row : FleetCommand) (t u : Table)
    → IsSound row
    → insert_command row t ≡ ok u
    → IsValid t
    → IsValid u
IsValid-insert_command row t u sound h v = elim (insert_command-cases row t u h) [
  | inl same ↦ subst IsValid same v
  | inr (added, fresh) ↦ subst IsValid added (insert_fresh row t sound fresh v)
]
