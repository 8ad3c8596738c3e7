-- ===== src/RateLimit/Tests.antt =====
-- Runs of the limiters, and the theorems at such inputs.
use admirald.Shared.{ℕ, ◌*◌, ◌≤◌, ◌≡◌, refl, true, false, none, List, [], ◌∷◌, arith, length}
use admirald.RateLimit.Interface.{second}
use admirald.RateLimit.Window
use admirald.RateLimit.Memory.{
  new_rate_limiter, recent, allow, is_blocked, set_bucket, remove_expired,
}
use admirald.RateLimit.Store.{Rows}
use admirald.RateLimit.Window.{
  Call, allow_at, blocked_at, reset_at, answers, spec_answers, answers-eq-spec_answers,
}
use admirald.RateLimit.Bound.{let_through, accepted_in_window}

-- Two attempts are allowed in a window of 10: the third is refused, and the first expires at 11.
abbrev calls_1 : List Call
calls_1 = allow_at "a" 1 ∷ allow_at "a" 3 ∷ allow_at "a" 4 ∷ blocked_at "a" 5 ∷ allow_at "a" 11 ∷ []

answers_1 : answers 2 10 calls_1 new_rate_limiter ≡ true ∷ true ∷ false ∷ true ∷ true ∷ []
unfolding answers new_rate_limiter Window.step allow is_blocked set_bucket remove_expired
answers_1 = refl

answers-eq-spec_answers_example :
    answers 2 10 calls_1 new_rate_limiter ≡ spec_answers 2 10 calls_1 new_rate_limiter
answers-eq-spec_answers_example =
    answers-eq-spec_answers 2 10 0 calls_1
      (omega arith, (omega arith, (omega arith, (omega arith, (omega arith, tt)))))

accepted_in_window_example :
    length (recent 10 12 (let_through 2 10 "a" calls_1 new_rate_limiter [])) ≤ 2
accepted_in_window_example =
    accepted_in_window 2 10 0 calls_1 "a" 12
      (omega arith, (omega arith, (omega arith, (omega arith, (omega arith, tt))))) (omega arith)

abbrev no_rows : Rows
no_rows key = none

abbrev three_times : List ℕ
three_times = second ∷ 2 * second ∷ 3 * second ∷ []
