-- ===== src/Auth/Session.antt =====
-- Sessions of the administrators: the table `admin_sessions` (internal/database/sessions.go), the
-- session AdminAuthMiddleware, and where a session starts and ends (internal/api/admin_auth.go).
use text.Mathlib.Text.{starts_with}
use Prim.Native.String.{◌++◌}
use admirald.Shared.{
  ℕ, ◌+◌, ◌*◌, ltb, Bool, not, ◌&&◌, ◌||◌, Option, none, some, String, List, [], ◌∷◌, ◌++◌ as ◌+++◌,
  find, keep, any, update_where, if◌then◌else◌, ◌==◌,
}
use admirald.RateLimit.Interface.{Limiter, second}
use admirald.Auth.Request.{
  Request, session_token, Outcome, blocked_for, refused, passed, unauthorized,
}
use admirald.Auth.Failures.{block_auth_attempt, record_auth_failure}
use admirald.Auth.Admin.{Authenticated}
use admirald.Auth.Operator.{
  OperatorToken, get_operator_token, operator_token_usable, touch_operator_token,
}

pub record Session : Type 0 where
  pub token_hash : String
  pub username : String
  pub expires_at : ℕ
  pub last_activity_at : ℕ

abbrev pub inactivity : ℕ
inactivity = 1800 * second

abbrev pub has_hash : String → Session → Bool
has_hash hash s = s.token_hash == hash

-- The rows as of a query; the username is empty where no row has the hash.
unfoldable pub get_admin_session : String → List Session → String × ℕ × ℕ
get_admin_session hash sessions = elim (find (has_hash hash) sessions) [
  | none ↦ ("", 0, 0)
  | some s ↦ (s.username, s.expires_at, s.last_activity_at)
]

-- `none` where the primary key refuses the row.
unfoldable pub create_admin_session : String → String → ℕ → ℕ → List Session → Option (List Session)
create_admin_session hash username expires_at last sessions =
    if any (has_hash hash) sessions
    then none
    else some (
        sessions
        +++ record {
          token_hash = hash;
          username = username;
          expires_at = expires_at;
          last_activity_at = last;
        }
          ∷ [])

unfoldable pub update_admin_session_activity : String → ℕ → List Session → List Session
update_admin_session_activity hash last =
    update_where (has_hash hash) (λ s. record s { last_activity_at = last })

unfoldable pub delete_admin_session : String → List Session → List Session
delete_admin_session hash = keep (λ s. not (has_hash hash s))

unfoldable pub delete_other_admin_sessions : String → String → List Session → List Session
delete_other_admin_sessions username current =
    keep (λ s. not (s.username == username && not (s.token_hash == current)))

unfoldable pub delete_expired_admin_sessions : ℕ → List Session → List Session
delete_expired_admin_sessions now =
    keep (λ s. not (ltb s.expires_at now || ltb (s.last_activity_at + inactivity) now))

pub record State (S : Type 0) : Type 0 where
  pub limiter : S
  pub sessions : List Session
  pub tokens : List OperatorToken

abbrev pub session_key : Request → String
session_key r = "admin_session:" ++ r.client_ip

-- The request as the next handler sees it, for a user.
abbrev pub as_user : Request → String → Authenticated
as_user r username = record { request = record r { admin_user = username }; principal = username }

-- With the static admin token, the principal is the header that the client sent, if it sent one.
abbrev pub static_principal : Request → Authenticated
static_principal r = record {
  request = r;
  principal = if r.admin_user == "" then "admin-token" else r.admin_user;
}

module _ {S : Type 0} (l : Limiter S) (hash_token : String → String) (admin_token : String)
    (up : Bool) (now : ℕ) (r : Request) where
  -- A failure, which counts against the address.
  unfoldable pub session_fail : State S → Outcome Authenticated × State S
  session_fail st = (
    refused unauthorized,
    record st { limiter = record_auth_failure l (session_key r) now st.limiter },
  )

  -- The session of the token.
  unfoldable pub session_check : State S → Outcome Authenticated × State S
  session_check st =
      let hash = hash_token (session_token r) in
      let (username, expires_at, last) = get_admin_session hash st.sessions in
      let ended = record st { sessions = delete_admin_session hash st.sessions } in
      if not up
      then session_fail st
      else if username == ""
      then session_fail st
      else if ltb expires_at now
      then session_fail ended
      else if ltb (last + inactivity) now
      then session_fail ended
      else (
        passed (as_user r username),
        record st {
          sessions = update_admin_session_activity hash now st.sessions;
          limiter = l.reset (session_key r) st.limiter;
        },
      )

  -- Operator tokens manage their own inventory of tokens.
  unfoldable pub inventory_check : State S → Outcome Authenticated × State S
  inventory_check st =
      let t = get_operator_token (hash_token (session_token r)) st.tokens in
      let rest = session_check st in
      if starts_with r.path "/api/admin/tokens" && up && operator_token_usable now t
      then (
        passed (as_user r t.username),
        record st { tokens = touch_operator_token now t.id st.tokens },
      )
      else rest

  unfoldable pub session_gate : Option ℕ → State S → Outcome Authenticated × State S
  session_gate (some seconds) st = (blocked_for seconds, st)
  session_gate none st =
      let rest = inventory_check st in
      if session_token r == ""
      then session_fail st
      else if admin_token == "" || not (session_token r == admin_token)
      then rest
      else (passed (static_principal r), st)

  unfoldable pub session_auth : State S → Outcome Authenticated × State S
  session_auth st =
      let (blocked, s) = block_auth_attempt l (session_key r) now st.limiter in
      session_gate blocked (record st { limiter = s })
