-- ===== src/Auth/SessionEvents.antt =====
-- What the server does to the table of sessions: HandleAdminLogin, HandleAdminLogout and the change of
-- a password (internal/api/admin_auth.go), `cleanExpiredSessions` (internal/api/api.go) and the requests.
use admirald.Shared.{
  ℕ, ◌+◌, ◌*◌, ◌≢◌, Bool, not, Option, none, some, String, List, [], ◌∷◌, All, All-append,
  All-update_where, All-keep, ltb, ◌&&◌, ◌||◌, arith, ◌==◌, if◌then◌else◌,
}
use admirald.RateLimit.Interface.{Limiter, second}
use admirald.Auth.Request.{Request, session_token, bearer_token}
use text.Mathlib.Text.{starts_with}
use admirald.Auth.Failures.{block_auth_attempt}
use admirald.Auth.Session.{
  Session, State, inactivity, has_hash, create_admin_session, update_admin_session_activity,
  delete_admin_session, delete_other_admin_sessions, delete_expired_admin_sessions, session_fail,
  session_check, inventory_check, session_gate, session_auth, session_key,
}

-- A session lasts 24 hours at most: `now.Add(24 * time.Hour)` of HandleAdminLogin.
abbrev pub session_duration : ℕ
session_duration = 86_400 * second

-- The token of HandleAdminLogout: the bearer's, where the header has one.
abbrev pub logout_token : Request → String
logout_token r =
    if starts_with r.authorization "Bearer "
    then bearer_token r.authorization
    else r.admin_session_token

-- What the server does to the sessions, with the time where it reads one. `login` is the end of
-- HandleAdminLogin, once the password is right, with the token that it draws; `change_password` the end of
-- the handler that changes a password; `clean` is `cleanExpiredSessions`.
pub data Event : Type 0 where
  request : ℕ → Request → Event
  login : ℕ → String → String → Event
  logout : Request → Event
  change_password : String → String → Event
  clean : ℕ → Event

module _ {S : Type 0} (l : Limiter S) (hash_token : String → String) (admin_token : String)
    (up : Bool) where
  unfoldable pub handle : Event → State S → State S
  handle (request now r) st = (session_auth l hash_token admin_token up now r st).1
  handle (login now token username) st =
      elim (create_admin_session (hash_token token) username (now + session_duration) now
        st.sessions) [
          | none ↦ st
          | some sessions ↦ if up then record st { sessions = sessions } else st
        ]
  handle (logout r) st =
      if logout_token r == ""
      then st
      else if up
      then record st { sessions = delete_admin_session (hash_token (logout_token r)) st.sessions }
      else st
  handle (change_password username token) st =
      if token == ""
      then st
      else if up
      then record st {
        sessions = delete_other_admin_sessions username (hash_token token) st.sessions;
      }
      else st
  handle (clean now) st =
      if up then record st { sessions = delete_expired_admin_sessions now st.sessions } else st

  unfoldable pub handle_all : List Event → State S → State S
  handle_all [] st = st
  handle_all (e ∷ es) st = handle_all es (handle e st)

  -- The event creates no session with the hash.
  abbrev pub Spares : String → Event → Type 0
  Spares hash (login _ token _) = hash_token token ≢ hash
  Spares hash _ = Unit

  -- A property of sessions that holds of those that the event creates, and on activity.
  abbrev pub Makes : (Session → Type 0) → Event → Type 0
  Makes P (login now token username) = P (record {
    token_hash = hash_token token;
    username = username;
    expires_at = now + session_duration;
    last_activity_at = now;
  })
  Makes P _ = Unit

  module _ (P : Session → Type 0)
      (active : (s : Session) (t : ℕ) → P s → P (record s { last_activity_at = t })) where
    session_gate-All :
        (now : ℕ) (r : Request) (blocked : Option ℕ) (st : State S)
        → All P st.sessions
        → All P (session_gate l hash_token admin_token up now r blocked st).1.sessions
    unfolding session_gate session_fail inventory_check session_check delete_admin_session
        update_admin_session_activity
    session_gate-All now r blocked st h =
        let hash = hash_token (session_token r) in
        let deleted = All-keep P (λ s. not (has_hash hash s)) st.sessions h in
        let updated =
          All-update_where P (has_hash hash) (λ s. record s { last_activity_at = now }) st.sessions
            (λ s m hit old. active s now old) h in
        ground arith

    handle-All :
        (e : Event) (st : State S) → Makes P e → All P st.sessions → All P (handle e st).sessions
    unfolding handle session_auth create_admin_session delete_admin_session
        delete_other_admin_sessions delete_expired_admin_sessions
    handle-All (request now r) st m h =
        let (blocked, s) = block_auth_attempt l (session_key r) now st.limiter in
        session_gate-All now r blocked (record st { limiter = s }) h
    handle-All (login now token username) st m h =
        let added = All-append P st.sessions (_ ∷ []) h (m, tt) in ground arith
    handle-All (logout r) st m h =
        let deleted =
          All-keep P (λ s. not (has_hash (hash_token (logout_token r)) s)) st.sessions h in
        ground arith
    handle-All (change_password username token) st m h =
        let deleted =
          All-keep P (λ s. not (s.username == username && not (s.token_hash == hash_token token)))
            st.sessions h in
        ground arith
    handle-All (clean now) st m h =
        let deleted =
          All-keep P (λ s. not (ltb s.expires_at now || ltb (s.last_activity_at + inactivity) now))
            st.sessions h in
        ground arith

    pub handle_all-All :
        (es : List Event) (st : State S)
        → All (Makes P) es
        → All P st.sessions
        → All P (handle_all es st).sessions
    unfolding handle_all
    handle_all-All [] st m h = h
    handle_all-All (e ∷ es) st m h = handle_all-All es (handle e st) m.1 (handle-All e st m.0 h)
