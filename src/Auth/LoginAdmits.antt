-- ===== src/Auth/LoginAdmits.antt =====
-- When a login starts a session.
use admirald.Shared.{
  ℕ, ◌+◌, ◌≡◌, ◌≢◌, ◌⊎◌, refl, sym, ap, ◌∙◌, inl, inr, Bool, true, false, some, String, List, [],
  ◌∷◌, ◌++◌, In, find, find-In, arith, eq_iff, Option-cases,
}
use Prim.Native.String.{◌++◌ as ◌+++◌}
use admirald.RateLimit.Interface.{Limiter}
use admirald.Auth.Request.{Request}
use admirald.Auth.Failures.{block_auth_attempt}
use admirald.Auth.Session.{Session, create_admin_session}
use admirald.Auth.SessionEvents.{session_duration}
use admirald.Auth.Login.{
  AdminUser, Passwords, LoginRequest, Response, logged_in, Store, is_user, get_admin_user,
  login_key, minute, reject, forgive, start_session, check_password, limit_login, gate_login,
  handle_admin_login,
}

-- The password belongs to a user of the table.
pub record RightPassword (passwords : Passwords) (username password : String)
    (users : List AdminUser) : Type 0 where
  pub user : AdminUser
  pub present : In user users
  pub named : user.username ≡ username
  pub right : passwords.verify password user.password_hash ≡ some true

-- A password that is right for what GetAdminUser answers is the one of a user of the table.
pub get_admin_user-RightPassword :
    (passwords : Passwords) (username password : String) (users : List AdminUser)
    → (get_admin_user username users).0 ≢ ""
    → passwords.verify password (get_admin_user username users).0 ≡ some true
    → RightPassword passwords username password users
unfolding get_admin_user
get_admin_user-RightPassword passwords username password users known right =
    elim (Option-cases (find (is_user username) users)) [
      | inl missing ↦ absurd (known (rw (get_admin_user, missing) refl))
      | inr (u, found) ↦
          let (m, same) = find-In (is_user username) users u found in
          let named = (eq_iff u.username username).0 same in
          let stored : (get_admin_user username users).0 ≡ u.password_hash =
            rw (get_admin_user, found) refl in
          record {
            user = u;
            present = m;
            named = named;
            right = ap (passwords.verify password) (sym stored) ∙ right;
          }
    ]

module _ {S L : Type 0} (failures : Limiter S) (logins : Limiter L) (passwords : Passwords)
    (hash_token : String → String) (up : Bool) (now : ℕ) (token : String) (r : Request) where
  abbrev pub new_session : LoginRequest → Session
  new_session req = record {
    token_hash = hash_token token;
    username = req.username;
    expires_at = now + session_duration;
    last_activity_at = now;
  }

  -- A login has left the sessions as they were, or has added one for a user whose password it had.
  abbrev pub Sessions : LoginRequest → Store S L → Response × Store S L → Type 0
  Sessions req st result =
      (result.1.sessions ≡ st.sessions)
      ⊎ ((result.0
            ≡ logged_in token (now + session_duration) (get_admin_user req.username st.users).1)
          × (req.verify_only ≡ false)
          × RightPassword passwords req.username req.password st.users
          × (result.1.sessions ≡ st.sessions ++ new_session req ∷ []))

  check_password-Sessions :
      (req : LoginRequest) (st : Store S L)
      → Sessions req st (check_password failures logins passwords hash_token up now token r req st)
  unfolding check_password start_session forgive reject create_admin_session
  check_password-Sessions req st =
      let blank = eq_iff (get_admin_user req.username st.users).0 "" in
      let right = get_admin_user-RightPassword passwords req.username req.password st.users in
      ground arith

  -- A login either leaves the sessions as they were, or answers with the new token and adds its
  -- session, which ends 24 hours later, after all others. It does the latter only
  -- for a user of the table whose password the request has, and not where it asks to verify only.
  pub handle_admin_login-Sessions :
      (req : LoginRequest) (st : Store S L)
      → Sessions req st
          (handle_admin_login failures logins passwords hash_token up now token r (some req) st)
  unfolding handle_admin_login gate_login limit_login
  handle_admin_login-Sessions req st =
      let (blocked, s) = block_auth_attempt failures (login_key r) now st.failures in
      let l = (logins.allow ("login:" +++ r.client_ip) 5 minute now st.logins).1 in
      let checked = check_password-Sessions req (record st { failures = s; logins = l }) in
      ground arith
