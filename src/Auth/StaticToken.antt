-- ===== src/Auth/StaticToken.antt =====
-- The static admin token at the session middleware (internal/api/admin_auth.go), behind the database's
-- limiter.
use Prim.Native.Nat.{min}
use mathlib.Core.Path.{ap₂}
use admirald.Shared.{
  ℕ, ◌+◌, ◌/◌, ◌≤◌, ◌≡◌, ◌≢◌, refl, ap, ◌∙◌, inl, inr, Bool, true, false, not, none, String, List,
  [], ◌∷◌, map, arith, ◌==◌, eq_iff, length, All, Bool-cases,
}
use admirald.RateLimit.Interface.{second}
use admirald.RateLimit.Store.{Rows, db_limiter}
use admirald.RateLimit.Budget.{true_count, ask, asking_spends_attempts}
use admirald.Auth.Request.{Request, session_token, Outcome, passed}
use admirald.Auth.Failures.{block_auth_attempt, auth_failure_limit, auth_failure_window}
use admirald.Auth.Session.{State, session_auth, session_gate, session_key}

abbrev pub is_passed : {A : Type 0} → Outcome A → Bool
is_passed (passed _) = true
is_passed _ = false

-- Which of the requests, the same at each of the times, pass the session middleware.
pub admissions : (String → String) → String → Request → List ℕ → State Rows → List Bool
admissions hash_token admin_token r [] st = []
admissions hash_token admin_token r (now ∷ times) st =
    let (outcome, st') = session_auth (db_limiter true) hash_token admin_token true now r st in
    is_passed outcome ∷ admissions hash_token admin_token r times st'

module _ (hash_token : String → String) (admin_token : String) (r : Request)
    (set : admin_token ≢ "") (right : session_token r ≡ admin_token) where
  asked_once : ℕ → Rows → Bool × ℕ × Rows
  asked_once now rows =
      (db_limiter true).is_blocked (session_key r) auth_failure_limit auth_failure_window now rows

  session_auth-static :
      (now : ℕ) (st : State Rows)
      → (is_passed (session_auth (db_limiter true) hash_token admin_token true now r st).0
          ≡ not (asked_once now st.limiter).0)
        × ((session_auth (db_limiter true) hash_token admin_token true now r st).1.limiter
            ≡ (asked_once now st.limiter).2)
  unfolding session_auth session_gate block_auth_attempt asked_once
  session_auth-static now st =
      let unset = eq_iff admin_token "" in
      let blank = eq_iff (session_token r) "" in
      let same = eq_iff (session_token r) admin_token in
      let is_set : (admin_token == "") ≡ false = ground arith in
      let sent : (session_token r == "") ≡ false = ground arith in
      let equal : (session_token r == admin_token) ≡ true = ground arith in
      elim (Bool-cases (asked_once now st.limiter).0) [
        | inl shut ↦ (rw shut refl, rw shut refl)
        | inr free ↦ (rw (free, sent, is_set, equal) refl, rw (free, sent, is_set, equal) refl)
      ]

  admissions-ask :
      (times : List ℕ) (st : State Rows)
      → admissions hash_token admin_token r times st
        ≡ map not (
            ask
              (db_limiter true)
              (session_key r)
              auth_failure_limit
              auth_failure_window
              times
              st.limiter)
  unfolding admissions ask asked_once
  admissions-ask [] st = refl
  admissions-ask (now ∷ times) st =
      let (answer, left) = session_auth-static now st in
      ap₂ ◌∷◌ answer (
        admissions-ask times (session_auth (db_limiter true) hash_token admin_token true now r st).1
        ∙ ap
            (λ rows. map not (
              ask (db_limiter true) (session_key r) auth_failure_limit auth_failure_window times
                rows))
            left)

  -- The right static admin token is locked out of the session middleware too: of the requests that one
  -- address sends with it within one window, from an address without any failure, only the first ten
  -- pass, since the database's limiter counts each question as an attempt and such a success resets
  -- nothing.
  pub static_token_locked_out :
      (start : ℕ) (times : List ℕ) (st : State Rows)
      → st.limiter (session_key r) ≡ none
      → All (λ t. t ≤ start / second + auth_failure_window / second) (map (λ t. t / second) times)
      → true_count (admissions hash_token admin_token r (start ∷ times) st)
        ≡ min (length (start ∷ times)) auth_failure_limit
  static_token_locked_out start times st clean within =
      ap true_count (admissions-ask (start ∷ times) st)
      ∙ asking_spends_attempts (session_key r) auth_failure_limit auth_failure_window start times
          st.limiter (omega arith) clean within
