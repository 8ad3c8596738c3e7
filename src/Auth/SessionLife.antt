-- ===== src/Auth/SessionLife.antt =====
-- How long a session lasts, over any sequence of what the server does to the table of sessions.
use admirald.Shared.{
  ℕ, ◌+◌, ◌≤◌, ◌<◌, ◌≡◌, ◌≢◌, ◌∙◌, inl, inr, Bool, true, false, not, String, List, [], ◌∷◌, All,
  All-In, All-map, All-keep_own, arith, eq_iff, ◌==◌,
}
use admirald.RateLimit.Interface.{Limiter}
use admirald.Auth.Request.{Request, session_token, passed}
use text.Mathlib.Text.{starts_with}
use admirald.Auth.Admin.{Authenticated}
use admirald.Auth.Session.{Session, State, has_hash, delete_admin_session, session_auth}
use admirald.Auth.SessionAdmits.{IsLive, SessionAdmits, session_auth_sound}
use admirald.Auth.SessionEvents.{
  session_duration, logout_token, Event, request, login, logout, change_password, clean, handle,
  handle_all, Spares, Makes, handle_all-All,
}

module _ {S : Type 0} (l : Limiter S) (hash_token : String → String) (admin_token : String)
    (up : Bool) where
  -- A property of the sessions with one hash.
  abbrev Of : String → (Session → Type 0) → Session → Type 0
  Of hash Q s = s.token_hash ≡ hash → Q s

  Spares-Makes :
      (hash : String) (Q : Session → Type 0) (es : List Event)
      → All (Spares l hash_token admin_token up hash) es
      → All (Makes l hash_token admin_token up (Of hash Q)) es
  Spares-Makes hash Q [] h = tt
  Spares-Makes hash Q (request now r ∷ es) h = (tt, Spares-Makes hash Q es h.1)
  Spares-Makes hash Q (login now token username ∷ es) h =
      (λ e. absurd (h.0 e), Spares-Makes hash Q es h.1)
  Spares-Makes hash Q (logout r ∷ es) h = (tt, Spares-Makes hash Q es h.1)
  Spares-Makes hash Q (change_password username token ∷ es) h = (tt, Spares-Makes hash Q es h.1)
  Spares-Makes hash Q (clean now ∷ es) h = (tt, Spares-Makes hash Q es h.1)

  -- The request carries a token with the hash and can pass by a session only: the token is not the
  -- admin's, and the path is not of the inventory of tokens.
  pub record BySession (hash : String) (r : Request) : Type 0 where
    pub hashed : hash_token (session_token r) ≡ hash
    pub not_admin : session_token r ≢ admin_token
    pub elsewhere : starts_with r.path "/api/admin/tokens" ≡ false

  -- Where no session with the hash is live, such a request does not pass.
  no_session-refused :
      (hash : String) (now : ℕ) (r : Request) (st : State S)
      → BySession hash r
      → All (Of hash (λ s. IsLive now s → ⊥)) st.sessions
      → (a : Authenticated) → (session_auth l hash_token admin_token up now r st).0 ≢ passed a
  unfolding SessionAdmits
  no_session-refused hash now r st by dead a h =
      let (free, present, admits) = session_auth_sound l hash_token admin_token up now r st a h in
      elim admits [
        | inl admin ↦ by.not_admin admin.1
        | inr (inl operator) ↦ ground (arith, by.elsewhere, operator.0)
        | inr (inr found) ↦
            All-In (Of hash (λ s. IsLive now s → ⊥)) found.session st.sessions dead found.present
              (found.hashed ∙ by.hashed) found.live
      ]

  -- A session ends 24 hours after its login, however active it is: from a login with a token that no
  -- session had, and after any further events that create no session with that token, a
  -- request that could pass by that session only does not pass once 24 hours have gone by.
  pub session_ends :
      (start : ℕ) (token username : String) (st : State S) (es : List Event) (now : ℕ) (r : Request)
      → All (λ s. s.token_hash ≢ hash_token token) st.sessions
      → All (Spares l hash_token admin_token up (hash_token token)) es
      → start + session_duration < now
      → BySession (hash_token token) r
      → (a : Authenticated)
      → (session_auth l hash_token admin_token up now r (
          handle_all l hash_token admin_token up es
            (handle l hash_token admin_token up (login start token username) st))).0
        ≢ passed a
  unfolding handle_all
  session_ends start token username st es now r new spared late by =
      let hash = hash_token token in
      let Dead : Session → Type 0 = λ s. s.expires_at ≤ start + session_duration in
      let before : All (Of hash Dead) st.sessions =
        All-map (λ s other e. absurd (other e)) st.sessions new in
      let after =
        handle_all-All l hash_token admin_token up (Of hash Dead) (λ s t h. h)
          (login start token username ∷ es) st
          ((λ e. omega arith), Spares-Makes hash Dead es spared) before in
      no_session-refused hash now r
        (handle_all l hash_token admin_token up es
          (handle l hash_token admin_token up (login start token username) st))
        by
        (All-map
          (λ s old e live. let expired = old e in let unexpired = live.unexpired in omega arith) _
          after)

  logout-gone :
      (r : Request) (st : State S)
      → up ≡ true
      → logout_token r ≢ ""
      → All
          (λ s. s.token_hash ≢ hash_token (logout_token r))
          (handle l hash_token admin_token up (logout r) st).sessions
  unfolding handle delete_admin_session
  logout-gone r st works token =
      let hash = hash_token (logout_token r) in
      let blank = eq_iff (logout_token r) "" in
      let dropped = All-keep_own (λ s. not (has_hash hash s)) st.sessions in
      let gone : All (λ s. s.token_hash ≢ hash) (delete_admin_session hash st.sessions) =
        All-map (λ s kept e. let same = eq_iff s.token_hash hash in ground arith) _ dropped in
      let sent : logout_token r == "" ≡ false = ground arith in rw (sent, works) gone

  -- After a logout that the database carries out, a request that could pass by the session only does
  -- not pass any more, whatever happens then, short of a login that draws the same token.
  pub logout_ends :
      (r0 : Request) (st : State S) (es : List Event) (now : ℕ) (r : Request)
      → up ≡ true
      → logout_token r0 ≢ ""
      → All (Spares l hash_token admin_token up (hash_token (logout_token r0))) es
      → BySession (hash_token (logout_token r0)) r
      → (a : Authenticated)
      → (session_auth l hash_token admin_token up now r (
          handle_all l hash_token admin_token up es
            (handle l hash_token admin_token up (logout r0) st))).0
        ≢ passed a
  logout_ends r0 st es now r works token spared by =
      let hash = hash_token (logout_token r0) in
      let gone : All (Of hash (λ s. ⊥))
          (handle l hash_token admin_token up (logout r0) st).sessions =
        logout-gone r0 st works token in
      let after =
        handle_all-All l hash_token admin_token up (Of hash (λ s. ⊥)) (λ s t h. h) es
          (handle l hash_token admin_token up (logout r0) st) (Spares-Makes hash (λ s. ⊥) es spared)
          gone in
      no_session-refused hash now r
        (handle_all l hash_token admin_token up es
          (handle l hash_token admin_token up (logout r0) st))
        by (All-map (λ s old e live. old e) _ after)
