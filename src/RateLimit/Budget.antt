-- ===== src/RateLimit/Budget.antt =====
-- `CheckRateLimit` as a budget of attempts per window, and what `IsBlocked` of the two limiters does
-- to that budget.
use Prim.Native.Nat.{min, suc}
use mathlib.Core.Path.{ap₂}
use text.Mathlib.TextPositions.{eq_refl}
use admirald.Shared.{
  ℕ, ◌+◌, ◌-◌, ◌/◌, ◌≤◌, ◌<◌, ◌≡◌, refl, ap, ◌∙◌, inl, inr, ltb, leb, Bool, true, false, not,
  Option, none, some, String, List, [], ◌∷◌, map, arith, if◌then◌else◌, length, All, Bool-cases,
}
use admirald.RateLimit.Interface.{Limiter, second}
use admirald.RateLimit.Memory
use admirald.RateLimit.Memory.{Buckets, memory_limiter, set_bucket, remove_expired}
use admirald.RateLimit.Store.{Row, Rows, check_row, set_row, is_blocked, db_limiter}

-- How often the answer is yes.
abbrev pub true_count : List Bool → ℕ
true_count [] = 0
true_count (b ∷ bs) = (if b then 1 else 0) + true_count bs

-- The answers to checks of one identifier at the given times.
pub check_answers : ℕ → ℕ → List ℕ → Option Row → List Bool
check_answers max_attempts window [] r = []
check_answers max_attempts window (t ∷ ts) r =
    let (allowed, _, r') = check_row max_attempts window t r in
    allowed ∷ check_answers max_attempts window ts (some r')

module _ (max_attempts window start : ℕ) where
  -- While the window of a row runs, what is left of the budget is admitted.
  rest_of_budget :
      (attempts : ℕ) (ts : List ℕ)
      → All (λ t. t ≤ start + window) ts
      → true_count (
          check_answers max_attempts window ts
            (some (record { window_start = start; attempts = attempts })))
        ≡ min (length ts) (max_attempts - attempts)
  unfolding check_answers check_row
  rest_of_budget attempts [] within = omega arith
  rest_of_budget attempts (t ∷ ts) within =
      let runs : ltb (start + window) t ≡ false = ground (arith, within.0) in
      elim (Bool-cases (leb max_attempts attempts)) [
        | inl spent ↦ rw (runs, spent) (ground (arith, rest_of_budget attempts ts within.1))
        | inr left ↦ rw (runs, left) (ground (arith, rest_of_budget (attempts + 1) ts within.1))
      ]

  -- With a maximum above 0, and from an identifier without a row, the checks within one window of the first admit as many
  -- attempts as there are, up to the maximum, and refuse the rest.
  pub check_answers_budget :
      (ts : List ℕ)
      → 0 < max_attempts
      → All (λ t. t ≤ start + window) ts
      → true_count (check_answers max_attempts window (start ∷ ts) none)
        ≡ min (length (start ∷ ts)) max_attempts
  unfolding check_answers check_row
  check_answers_budget ts some_left within = omega (arith, rest_of_budget 1 ts within)

not-not : (b : Bool) → not (not b) ≡ b
not-not true = refl
not-not false = refl

length-map : {A B : Type 0} (f : A → B) (xs : List A) → length (map f xs) ≡ length xs
length-map f [] = refl
length-map f (x ∷ xs) = ap suc (length-map f xs)

-- The answers of `IsBlocked` at the given times, nothing else being called in between.
unfoldable pub ask : {S : Type 0} → Limiter S → String → ℕ → ℕ → List ℕ → S → List Bool
ask l key max_attempts window [] s = []
ask l key max_attempts window (t ∷ ts) s =
    let (blocked, _, s') = l.is_blocked key max_attempts window t s in
    blocked ∷ ask l key max_attempts window ts s'

module _ (key : String) (max_attempts window : ℕ) where
  ask-eq-check_answers :
      (ts : List ℕ) (rows : Rows)
      → map not (ask (db_limiter true) key max_attempts window ts rows)
        ≡ check_answers max_attempts (window / second) (map (λ t. t / second) ts) (rows key)
  unfolding ask check_answers is_blocked
  ask-eq-check_answers [] rows = refl
  ask-eq-check_answers (t ∷ ts) rows =
      let answer = check_row max_attempts (window / second) (t / second) (rows key) in
      let here : set_row key (some answer.2) rows key ≡ some answer.2 =
        unfold set_row in rw (eq_refl key) in
      ap₂ ◌∷◌ (not-not answer.0) (
        ask-eq-check_answers ts (set_row key (some answer.2) rows)
        ∙ ap (check_answers max_attempts (window / second) (map (λ t. t / second) ts)) here)

  -- Asking the database's limiter whether a key is blocked spends the key's attempts: of the questions
  -- asked within one window, with no failure recorded at all, only the first `max_attempts` are
  -- answered with no.
  pub asking_spends_attempts :
      (start : ℕ) (ts : List ℕ) (rows : Rows)
      → 0 < max_attempts
      → rows key ≡ none
      → All (λ t. t ≤ start / second + window / second) (map (λ t. t / second) ts)
      → true_count (map not (ask (db_limiter true) key max_attempts window (start ∷ ts) rows))
        ≡ min (length (start ∷ ts)) max_attempts
  asking_spends_attempts start ts rows some_left fresh within =
      ap true_count (
        ask-eq-check_answers (start ∷ ts) rows
        ∙ ap (check_answers max_attempts (window / second) (map (λ t. t / second) (start ∷ ts)))
            fresh)
      ∙ check_answers_budget max_attempts (window / second) (start / second)
          (map (λ t. t / second) ts) some_left within
      ∙ ap (λ n. min (suc n) max_attempts) (length-map (λ t. t / second) ts)

  -- Asked about a key without attempts, the in-memory limiter says no and leaves it without attempts.
  pub memory_blocked-clean :
      (now : ℕ) (b : Buckets)
      → 0 < max_attempts
      → b key ≡ []
      → ((Memory.is_blocked key max_attempts window now b).0 ≡ false)
        × ((Memory.is_blocked key max_attempts window now b).2 key ≡ [])
  unfolding Memory.is_blocked set_bucket remove_expired
  memory_blocked-clean now b some_left clean =
      let room : ltb 0 max_attempts ≡ true = ground arith in
      (rw (clean, room) refl, rw (clean, room, eq_refl key) refl)

  -- The in-memory limiter, asked alone about a key without attempts, never answers that the key is
  -- blocked, unless the maximum is 0.
  pub asking_is_free :
      (ts : List ℕ) (b : Buckets)
      → 0 < max_attempts
      → b key ≡ []
      → true_count (ask memory_limiter key max_attempts window ts b) ≡ 0
  unfolding ask
  asking_is_free [] b some_left clean = refl
  asking_is_free (t ∷ ts) b some_left clean =
      let (unblocked, still) = memory_blocked-clean t b some_left clean in
      rw unblocked (
        omega (
          arith,
          asking_is_free ts (Memory.is_blocked key max_attempts window t b).2 some_left still,
        ))
