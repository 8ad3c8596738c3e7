-- ===== src/RateLimit/Interface.antt =====
-- The interface `Limiter` and the middleware `RateLimit` (internal/api/middleware.go). Times are in
-- nanoseconds; `S` is the state that a limiter keeps.
use admirald.Shared.{ℕ, ◌/◌, ltb, Bool, not, String, if◌then◌else◌}

abbrev pub second : ℕ
second = 1_000_000_000

pub record Limiter (S : Type 0) : Type 0 where
  -- key, maximum of attempts, window, time
  pub allow : String → ℕ → ℕ → ℕ → S → Bool × S
  -- Whether the key is blocked, and the duration after which to try again.
  pub is_blocked : String → ℕ → ℕ → ℕ → S → Bool × ℕ × S
  pub reset : String → S → S

-- What a handler behind a limiter answers: status 429, or what it does with the state.
pub data Limited (A : Type 0) : Type 0 where
  too_many_requests : Limited A
  served : A → Limited A

-- `RateLimit`: the handler `next` runs only if the limiter allows the key, which is the route's name
-- with the client's address.
unfoldable pub rate_limit : {S A : Type 0} → Limiter S → String → ℕ → ℕ → ℕ → A → S → Limited A × S
rate_limit l full_key max_attempts window now next s =
    let (allowed, s') = l.allow full_key max_attempts window now s in
    if not allowed then (too_many_requests, s') else (served next, s')

-- The `Retry-After` header: whole seconds, at least one.
unfoldable pub retry_after_seconds : ℕ → ℕ
retry_after_seconds d = let seconds = d / second in if ltb seconds 1 then 1 else seconds
