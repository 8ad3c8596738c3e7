-- ===== src/Auth/Failures.antt =====
-- `blockAuthAttempt`, `recordAuthFailure` and `resetAuthFailures` of internal/api/auth_errors.go; the
-- middleware of internal/api/middleware.go and internal/api/node_auth.go has the same steps written out.
use admirald.Shared.{
  ℕ, ◌*◌, ◌≡◌, ◌↔◌, refl, sym, ap, ◌∙◌, inl, inr, Bool-cases, true, false, Option, none, some,
  String, if◌then◌else◌,
}
use admirald.RateLimit.Interface.{Limiter, second, retry_after_seconds}
use admirald.Auth.Request.{Outcome, blocked_for, refused, passed}

abbrev pub auth_failure_limit : ℕ
auth_failure_limit = 10

abbrev pub auth_failure_window : ℕ
auth_failure_window = 300 * second

module _ {S : Type 0} (l : Limiter S) (key : String) (now : ℕ) where
  -- The seconds to wait, where the attempt is blocked.
  unfoldable pub block_auth_attempt : S → Option ℕ × S
  block_auth_attempt s =
      let (blocked, retry_after, s') =
        l.is_blocked key auth_failure_limit auth_failure_window now s in
      (if blocked then some (retry_after_seconds retry_after) else none, s')

  unfoldable pub record_auth_failure : S → S
  record_auth_failure s = (l.allow key auth_failure_limit auth_failure_window now s).1

  -- A failure with its status, which counts against the key.
  abbrev pub fail : {A : Type 0} → ℕ → S → Outcome A × S
  fail status s = (refused status, record_auth_failure s)

pub blocked-passed : {A : Type 0} {n : ℕ} {a : A} → blocked_for n ≡ passed a → ⊥
blocked-passed h = cc

-- `Limiter.IsBlocked` answers no.
abbrev pub IsOpen : {S : Type 0} → Limiter S → String → ℕ → S → Type 0
IsOpen l key now s = (l.is_blocked key auth_failure_limit auth_failure_window now s).0 ≡ false

module _ {S : Type 0} (l : Limiter S) (key : String) (now : ℕ) (s : S) where
  -- The limiter's state once it was asked.
  abbrev pub asked : S
  asked = (l.is_blocked key auth_failure_limit auth_failure_window now s).2

  pub block_auth_attempt-open : IsOpen l key now s → block_auth_attempt l key now s ≡ (none, asked)
  unfolding block_auth_attempt
  block_auth_attempt-open h = rw h refl

  pub block_auth_attempt-blocked :
      (l.is_blocked key auth_failure_limit auth_failure_window now s).0 ≡ true
      → block_auth_attempt l key now s ≡ (
        some
            (retry_after_seconds (l.is_blocked key auth_failure_limit auth_failure_window now s).1),
        asked,
      )
  unfolding block_auth_attempt
  block_auth_attempt-blocked h = rw h refl

  -- A middleware that stops on a block passes exactly where the limiter answers no and its own check
  -- passes.
  pub check_iff :
      {A : Type 0} {a : A} {P : Type 0} (check : Option ℕ × S → Outcome A × S)
      → ((n : ℕ) (s' : S) → (check (some n, s')).0 ≡ blocked_for n)
      → (((check (none, asked)).0 ≡ passed a) ↔ P)
      → ((check (block_auth_attempt l key now s)).0 ≡ passed a) ↔ (IsOpen l key now s × P)
  check_iff check stops own = (
    λ h. elim (Bool-cases (l.is_blocked key auth_failure_limit auth_failure_window now s).0) [
      | inl shut ↦ absurd (
          blocked-passed
            (sym (stops _ _) ∙ ap (λ o. (check o).0) (sym (block_auth_attempt-blocked shut)) ∙ h))
      | inr free ↦ (free, own.0 (ap (λ o. (check o).0) (sym (block_auth_attempt-open free)) ∙ h))
    ],
    λ v. ap (λ o. (check o).0) (block_auth_attempt-open v.0) ∙ own.1 v.1,
  )
