-- ===== src/RateLimit/Store.antt =====
-- `CheckRateLimit` and `ResetRateLimit` of internal/database/ratelimit.go, and `DBRateLimiter` of
-- internal/api/middleware.go. Windows are whole seconds at every caller.
use admirald.Shared.{
  ℕ, ◌+◌, ◌-◌, ◌*◌, ◌/◌, ltb, leb, Bool, true, false, not, Option, none, some, String,
  if◌then◌else◌, ◌==◌,
}
use admirald.RateLimit.Interface.{Limiter, second}

pub record Row : Type 0 where
  pub window_start : ℕ
  pub attempts : ℕ

-- The table `rate_limits`, whose primary key is the identifier.
abbrev pub Rows : Type 0
Rows = String → Option Row

unfoldable pub set_row : String → Option Row → Rows → Rows
set_row identifier row rows k = if k == identifier then row else rows k

-- The answer for the row that the identifier has: allowed or not, the seconds that remain, and the
-- row afterwards. `window_start < now - window` is written without a subtraction, and so are the
-- remaining seconds, `window - (now - window_start) + 1`.
unfoldable pub check_row : ℕ → ℕ → ℕ → Option Row → Bool × ℕ × Row
check_row max_attempts window now none = (true, 0, record { window_start = now; attempts = 1 })
check_row max_attempts window now (some r) =
    if ltb (r.window_start + window) now
    then (true, 0, record { window_start = now; attempts = 1 })
    else if leb max_attempts r.attempts
    then (let remaining = window + r.window_start + 1 - now in
        (false, if ltb remaining 1 then 1 else remaining, r))
    else (true, 0, record r { attempts = r.attempts + 1 })

unfoldable pub check_rate_limit : String → ℕ → ℕ → ℕ → Rows → Bool × ℕ × Rows
unfolding check_row set_row
check_rate_limit identifier max_attempts window now rows =
    let (allowed, remaining, row) = check_row max_attempts window now (rows identifier) in
    (allowed, remaining, set_row identifier (some row) rows)

unfoldable pub reset_rate_limit : String → Rows → Rows
unfolding set_row
reset_rate_limit identifier = set_row identifier none

-- `DBRateLimiter`; `up` tells whether the database answers. Where it does not, the request passes.
module _ (up : Bool) where
  unfoldable pub allow : String → ℕ → ℕ → ℕ → Rows → Bool × Rows
  unfolding check_rate_limit
  allow key max_attempts window now rows =
      let (allowed, _, rows') =
        check_rate_limit key max_attempts (window / second) (now / second) rows in
      if up then (allowed, rows') else (true, rows)

  unfoldable pub is_blocked : String → ℕ → ℕ → ℕ → Rows → Bool × ℕ × Rows
  unfolding check_rate_limit
  is_blocked key max_attempts window now rows =
      let (allowed, remaining, rows') =
        check_rate_limit key max_attempts (window / second) (now / second) rows in
      if up then (not allowed, remaining * second, rows') else (false, 0, rows)

  unfoldable pub reset : String → Rows → Rows
  unfolding reset_rate_limit
  reset key rows = if up then reset_rate_limit key rows else rows

  abbrev pub db_limiter : Limiter Rows
  db_limiter = record { allow = allow; is_blocked = is_blocked; reset = reset }
