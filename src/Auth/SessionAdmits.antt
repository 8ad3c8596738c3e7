-- ===== src/Auth/SessionAdmits.antt =====
-- Which requests the session middleware lets through.
use text.Mathlib.Text.{starts_with}
use admirald.Shared.{
  ℕ, ◌+◌, ◌≤◌, ◌≡◌, ◌≢◌, ◌⊎◌, refl, sym, ap, ◌∙◌, inl, inr, Bool, true, Option, none, some, String,
  List, In, find, find-In, arith, eq_iff, Bool-cases, Option-cases,
}
use admirald.RateLimit.Interface.{Limiter}
use admirald.Auth.Request.{Request, session_token, Outcome, passed}
use admirald.Auth.Failures.{
  IsOpen, asked, block_auth_attempt-open, block_auth_attempt-blocked, blocked-passed,
  auth_failure_limit, auth_failure_window,
}
use admirald.Auth.Admin.{Authenticated}
use admirald.Auth.Operator.{get_operator_token, operator_token_usable}
use admirald.Auth.Session.{
  Session, State, inactivity, has_hash, get_admin_session, session_fail, session_check,
  inventory_check, session_gate, session_auth, as_user, static_principal, session_key,
}

-- A session that is live at a time.
pub record IsLive (now : ℕ) (s : Session) : Type 0 where
  pub named : s.username ≢ ""
  pub unexpired : now ≤ s.expires_at
  pub active : now ≤ s.last_activity_at + inactivity

get_admin_session-some :
    (hash : String) (sessions : List Session) (s : Session)
    → find (has_hash hash) sessions ≡ some s
    → get_admin_session hash sessions ≡ (s.username, s.expires_at, s.last_activity_at)
unfolding get_admin_session
get_admin_session-some hash sessions s found = rw (get_admin_session, found) refl

get_admin_session-none :
    (hash : String) (sessions : List Session)
    → find (has_hash hash) sessions ≡ none
    → get_admin_session hash sessions ≡ ("", 0, 0)
unfolding get_admin_session
get_admin_session-none hash sessions missing = rw (get_admin_session, missing) refl

module _ {S : Type 0} (l : Limiter S) (hash_token : String → String) (admin_token : String)
    (up : Bool) (now : ℕ) (r : Request) where
  -- A live session has the token's hash, and the request goes on as its user.
  pub record HasSession (sessions : List Session) (a : Authenticated) : Type 0 where
    pub session : Session
    pub present : In session sessions
    pub hashed : session.token_hash ≡ hash_token (session_token r)
    pub live : IsLive now session
    pub as_its_user : a ≡ as_user r session.username

  session_check_sound :
      (st : State S) (a : Authenticated)
      → (session_check l hash_token admin_token up now r st).0 ≡ passed a
      → HasSession st.sessions a
  unfolding session_check session_fail
  session_check_sound st a h =
      let hash = hash_token (session_token r) in
      let blank = eq_iff (get_admin_session hash st.sessions).0 "" in
      elim (Option-cases (find (has_hash hash) st.sessions)) [
        | inl missing ↦
            let none_found = get_admin_session-none hash st.sessions missing in
            absurd (ground (arith, ap (λ t. t.0) none_found))
        | inr (s, found) ↦
            let (m, same) = find-In (has_hash hash) st.sessions s found in
            let hashed = (eq_iff s.token_hash hash).0 same in
            let row = get_admin_session-some hash st.sessions s found in
            let as_named : a ≡ as_user r (get_admin_session hash st.sessions).0 = ground arith in
            let username = ap (λ t. t.0) row in
            let expires = ap (λ t. t.1) row in
            let last = ap (λ t. t.2) row in
            record {
              session = s;
              present = m;
              hashed = hashed;
              live = record {
                named = λ e. ground arith;
                unexpired = ground arith;
                active = ground arith;
              };
              as_its_user = as_named ∙ ap (as_user r) username;
            }
      ]

  -- What lets a request pass: the static admin token; on the paths of the inventory of tokens, an
  -- operator's token that is usable; or a live session.
  unfoldable pub SessionAdmits : State S → Authenticated → Type 0
  SessionAdmits st a =
      ((admin_token ≢ "") × (session_token r ≡ admin_token) × (a ≡ static_principal r))
      ⊎ (((starts_with r.path "/api/admin/tokens" ≡ true)
            × (operator_token_usable now
                  (get_operator_token (hash_token (session_token r)) st.tokens)
                ≡ true)
            × (a
                ≡ as_user r (get_operator_token (hash_token (session_token r)) st.tokens).username))
          ⊎ HasSession st.sessions a)

  session_gate_sound :
      (st : State S) (a : Authenticated)
      → (session_gate l hash_token admin_token up now r none st).0 ≡ passed a
      → (session_token r ≢ "") × SessionAdmits st a
  unfolding session_gate session_fail inventory_check SessionAdmits
  session_gate_sound st a h =
      let blank = eq_iff (session_token r) "" in
      let unset = eq_iff admin_token "" in
      let same = eq_iff (session_token r) admin_token in
      let session = session_check_sound st a in ground arith

  -- A request passes the session middleware only where the limiter does not block its address, with a
  -- token that is not empty and is: the static admin token; or, on the paths of the inventory
  -- of tokens, an operator's that is named, not revoked and not expired; or the token of a stored
  -- session with a user, not past its end, and last active at most 30 minutes ago, whose user the next
  -- handler sees.
  pub session_auth_sound :
      (st : State S) (a : Authenticated)
      → (session_auth l hash_token admin_token up now r st).0 ≡ passed a
      → IsOpen l (session_key r) now st.limiter × (session_token r ≢ "") × SessionAdmits st a
  unfolding session_auth session_gate SessionAdmits
  session_auth_sound st a h =
      let outcome : Option ℕ × S → Outcome Authenticated =
        λ p. (session_gate l hash_token admin_token up now r p.0 (record st { limiter = p.1 })).0 in
      elim (Bool-cases
        (l.is_blocked (session_key r) auth_failure_limit auth_failure_window now st.limiter).0) [
          | inl shut ↦
              let gate = block_auth_attempt-blocked l (session_key r) now st.limiter shut in
              absurd (blocked-passed (sym (ap outcome gate) ∙ h))
          | inr free ↦
              let gate = block_auth_attempt-open l (session_key r) now st.limiter free in
              let admitted =
                session_gate_sound (record st { limiter = asked l (session_key r) now st.limiter })
                  a (sym (ap outcome gate) ∙ h) in
              (free, admitted.0, admitted.1)
        ]
