-- ===== src/Auth/Login.antt =====
-- HandleAdminLogin and HandleAdminChangePassword (internal/api/admin_auth.go) over the table
-- `admin_users` (internal/database/users.go). The password hashes of internal/security are a
-- parameter; a body that is not JSON is `none`.
use Prim.Native.String.{◌++◌}
use admirald.Shared.{
  ℕ, ◌+◌, ◌*◌, Bool, true, false, not, ◌||◌, Option, none, some, String, List, find, update_where,
  if◌then◌else◌, ◌==◌,
}
use admirald.RateLimit.Interface.{Limiter, second}
use admirald.Auth.Request.{Request, Method, post, bearer_token}
use admirald.Auth.Failures.{block_auth_attempt, record_auth_failure}
use admirald.Auth.Session.{Session, create_admin_session, delete_other_admin_sessions}
use admirald.Auth.SessionEvents.{session_duration}

pub record AdminUser : Type 0 where
  pub username : String
  pub password_hash : String
  pub must_change_password : Bool

-- `none` is the error of VerifyPassword or of HashPassword; `acceptable` tells whether
-- ValidateInitialAdminPassword has no objection to a user's new password.
pub record Passwords : Type 0 where
  pub verify : String → String → Option Bool
  pub hash : String → Option String
  pub acceptable : String → String → Bool

pub record LoginRequest : Type 0 where
  pub username : String
  pub password : String
  pub verify_only : Bool

pub record PasswordRequest : Type 0 where
  pub current_password : String
  pub new_password : String

pub data Response : Type 0 where
  failed : ℕ → Response
  -- The user, and whether the password is to be changed.
  verified : String → Bool → Response
  -- The token, when its session ends, and whether the password is to be changed.
  logged_in : String → ℕ → Bool → Response
  password_changed : Response

-- The limiter of the server, the one of logins, and the two tables.
pub record Store (S L : Type 0) : Type 0 where
  pub failures : S
  pub logins : L
  pub users : List AdminUser
  pub sessions : List Session

abbrev pub is_user : String → AdminUser → Bool
is_user username u = u.username == username

-- The answer of GetAdminUser while the database answers; the hash is empty where there is no row.
unfoldable pub get_admin_user : String → List AdminUser → String × Bool
get_admin_user username users = elim (find (is_user username) users) [
  | none ↦ ("", false)
  | some u ↦ (u.password_hash, u.must_change_password)
]

unfoldable pub update_admin_password : String → String → List AdminUser → List AdminUser
update_admin_password username hash =
    update_where (is_user username)
      (λ u. record u { password_hash = hash; must_change_password = false })

abbrev pub is_post : Method → Bool
is_post post = true
is_post _ = false

abbrev pub minute : ℕ
minute = 60 * second

abbrev pub login_key : Request → String
login_key r = "admin_login:" ++ r.client_ip

-- The session that a change of the password keeps: of `X-Admiral-Admin-Token`, or else the bearer's.
abbrev pub current_token : Request → String
current_token r =
    if r.admin_session_token == "" then bearer_token r.authorization else r.admin_session_token

module _ {S L : Type 0} (failures : Limiter S) (logins : Limiter L) (passwords : Passwords)
    (hash_token : String → String) (up : Bool) (now : ℕ) (token : String) (r : Request) where
  -- Status 401, which counts against the address.
  unfoldable pub reject : Store S L → Response × Store S L
  reject st = (
    failed 401,
    record st { failures = record_auth_failure failures (login_key r) now st.failures },
  )

  unfoldable pub forgive : Store S L → Store S L
  forgive st = record st { failures = failures.reset (login_key r) st.failures }

  -- Once the password is right.
  unfoldable pub start_session : LoginRequest → Bool → Store S L → Response × Store S L
  start_session req must_change st =
      if req.verify_only
      then (verified req.username must_change, forgive st)
      else elim (create_admin_session (hash_token token) req.username (now + session_duration) now
          st.sessions) [
            | none ↦ (failed 500, st)
            | some sessions ↦ (
              logged_in token (now + session_duration) must_change,
              forgive (record st { sessions = sessions }),
            )
          ]

  unfoldable pub check_password : LoginRequest → Store S L → Response × Store S L
  check_password req st =
      let (stored_hash, must_change) = get_admin_user req.username st.users in
      let started = start_session req must_change st in
      if not up
      then reject st
      else if stored_hash == ""
      then reject st
      else elim (passwords.verify req.password stored_hash) [
        | none ↦ reject st
        | some ok ↦ if not ok then reject st else started
      ]

  unfoldable pub limit_login : LoginRequest → Store S L → Response × Store S L
  limit_login req st =
      let (allowed, l) = logins.allow ("login:" ++ r.client_ip) 5 minute now st.logins in
      let checked = check_password req (record st { logins = l }) in
      if not allowed then (failed 429, record st { logins = l }) else checked

  unfoldable pub gate_login : LoginRequest → Option ℕ → Store S L → Response × Store S L
  gate_login req (some seconds) st = (failed 429, st)
  gate_login req none st = limit_login req st

  unfoldable pub handle_admin_login : Option LoginRequest → Store S L → Response × Store S L
  handle_admin_login none st = if not (is_post r.method) then (failed 405, st) else (failed 400, st)
  handle_admin_login (some req) st =
      let (blocked, s) = block_auth_attempt failures (login_key r) now st.failures in
      let gated = gate_login req blocked (record st { failures = s }) in
      if not (is_post r.method) then (failed 405, st) else gated

  -- Once the current password is right. A hash that fails is status 500; the last two steps only fail
  -- where the database does.
  unfoldable pub replace_password : PasswordRequest → Store S L → Response × Store S L
  replace_password req st =
      let username = r.admin_user in
      if not (passwords.acceptable username req.new_password)
      then (failed 400, st)
      else elim (passwords.hash req.new_password) [
        | none ↦ (failed 500, st)
        | some new_hash ↦ (
          password_changed,
          record st {
            users = update_admin_password username new_hash st.users;
            sessions =
                if current_token r == ""
                then st.sessions
                else delete_other_admin_sessions username (hash_token (current_token r))
                    st.sessions;
          },
        )
      ]

  unfoldable pub check_current : PasswordRequest → Store S L → Response × Store S L
  check_current req st =
      let stored_hash = (get_admin_user r.admin_user st.users).0 in
      let replaced = replace_password req st in
      if not up
      then (failed 500, st)
      else if stored_hash == ""
      then (failed 401, st)
      else elim (passwords.verify req.current_password stored_hash) [
        | none ↦ (failed 500, st)
        | some ok ↦ if not ok then (failed 401, st) else replaced
      ]

  unfoldable pub handle_admin_change_password :
      Option PasswordRequest → Store S L → Response × Store S L
  handle_admin_change_password none st =
      if not (is_post r.method) then (failed 405, st) else (failed 400, st)
  handle_admin_change_password (some req) st =
      let key = "change-password:" ++ r.admin_user ++ ":" ++ r.client_ip in
      let (allowed, l) = logins.allow key 5 minute now st.logins in
      let checked = check_current req (record st { logins = l }) in
      if not (is_post r.method)
      then (failed 405, st)
      else if req.current_password == "" || req.new_password == ""
      then (failed 400, st)
      else if req.current_password == req.new_password
      then (failed 400, st)
      else if r.admin_user == ""
      then (failed 401, st)
      else if not allowed
      then (failed 429, record st { logins = l })
      else checked
