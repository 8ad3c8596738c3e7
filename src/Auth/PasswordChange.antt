-- ===== src/Auth/PasswordChange.antt =====
-- What a change of the password needs, and what it leaves.
use admirald.Shared.{
  if◌then◌else◌, In, map, map-update_where, All-update_where_each, Bool-cases, ℕ, ◌≡◌, ◌≢◌, refl,
  sym, ap, ◌∙◌, inl, inr, Bool, true, false, some, String, List, All, All-map, All-keep_own, arith,
  eq_iff, ◌==◌, Option-cases,
}
use mathlib.Core.Path.{subst}
use Prim.Native.String.{◌++◌ as ◌+++◌}
use admirald.RateLimit.Interface.{Limiter}
use admirald.Auth.Request.{Request, bearer_token}
use admirald.Auth.Session.{Session, delete_other_admin_sessions}
use admirald.Auth.Login.{
  AdminUser, is_user, Passwords, PasswordRequest, password_changed, Store, get_admin_user,
  update_admin_password, minute, current_token, replace_password, check_current,
  handle_admin_change_password,
}
use admirald.Auth.LoginAdmits.{RightPassword, get_admin_user-RightPassword}

module _ {S L : Type 0} (failures : Limiter S) (logins : Limiter L) (passwords : Passwords)
    (hash_token : String → String) (up : Bool) (now : ℕ) (token : String) (r : Request) where
  others_gone :
      (username current : String) (sessions : List Session)
      → All
          (λ s. s.username ≡ username → s.token_hash ≡ current)
          (delete_other_admin_sessions username current sessions)
  unfolding delete_other_admin_sessions
  others_gone username current sessions =
      All-map
        (λ s kept named.
          let u = eq_iff s.username username in let t = eq_iff s.token_hash current in ground arith)
        _ (All-keep_own _ sessions)

  -- The sessions left: the user has none but the one of the token in X-Admiral-Admin-Token or, where that
  -- header is empty, in Authorization; without either all sessions stay.
  pub record Ended (st after : Store S L) : Type 0 where
    pub by_header :
        r.admin_session_token ≢ ""
        → All
            (λ s. s.username ≡ r.admin_user → s.token_hash ≡ hash_token r.admin_session_token)
            after.sessions
    pub by_bearer :
        r.admin_session_token ≡ ""
        → bearer_token r.authorization ≢ ""
        → All
            (λ s.
              s.username ≡ r.admin_user → s.token_hash ≡ hash_token (bearer_token r.authorization))
            after.sessions
    pub without_token :
        r.admin_session_token ≡ ""
        → bearer_token r.authorization ≡ ""
        → after.sessions ≡ st.sessions

  -- What a change of the password that succeeds has seen and done.
  pub record Changed (req : PasswordRequest) (st : Store S L) (after : Store S L) : Type 0 where
    pub right : RightPassword passwords r.admin_user req.current_password st.users
    pub new_hash : String
    pub hashed : passwords.hash req.new_password ≡ some new_hash
    pub same_names : map (λ u. u.username) after.users ≡ map (λ u. u.username) st.users
    pub own :
        All
          (λ u.
            u.username ≡ r.admin_user
            → (u.password_hash ≡ new_hash) × (u.must_change_password ≡ false))
          after.users
    pub others : All (λ u. u.username ≢ r.admin_user → In u st.users) after.users
    pub ended : Ended st after

  sessions_left : List Session → List Session
  sessions_left sessions =
      if current_token r == ""
      then sessions
      else delete_other_admin_sessions r.admin_user (hash_token (current_token r)) sessions

  Ended-sessions_left :
      (st after : Store S L) → after.sessions ≡ sessions_left st.sessions → Ended st after
  unfolding sessions_left
  Ended-sessions_left st after e =
      let header = eq_iff r.admin_session_token "" in
      let bearer = eq_iff (bearer_token r.authorization) "" in
      record {
        by_header = λ sent.
            let named : (r.admin_session_token == "") ≡ false = ground arith in
            subst
              (All
                (λ s. s.username ≡ r.admin_user → s.token_hash ≡ hash_token r.admin_session_token))
              (sym (e ∙ rw (named, named) refl))
              (others_gone r.admin_user (hash_token r.admin_session_token) st.sessions);
        by_bearer = λ unsent sent.
            let blank : (r.admin_session_token == "") ≡ true = header.1 unsent in
            let named : (bearer_token r.authorization == "") ≡ false = ground arith in
            subst
              (All (λ s.
                s.username ≡ r.admin_user
                → s.token_hash ≡ hash_token (bearer_token r.authorization)))
              (sym (e ∙ rw (blank, named) refl))
              (others_gone r.admin_user (hash_token (bearer_token r.authorization)) st.sessions);
        without_token = λ unsent none_sent.
            let blank : (r.admin_session_token == "") ≡ true = header.1 unsent in
            let no_bearer : (bearer_token r.authorization == "") ≡ true = bearer.1 none_sent in
            e ∙ rw (blank, no_bearer) refl;
      }

  users_own :
      (hash : String) (users : List AdminUser)
      → All
          (λ u.
            u.username ≡ r.admin_user → (u.password_hash ≡ hash) × (u.must_change_password ≡ false))
          (update_admin_password r.admin_user hash users)
  unfolding update_admin_password
  users_own hash users =
      All-update_where_each
        (λ u.
          u.username ≡ r.admin_user → (u.password_hash ≡ hash) × (u.must_change_password ≡ false))
        (is_user r.admin_user) _ users
        (λ u m. elim (Bool-cases (is_user r.admin_user u)) [
          | inl hit ↦ rw hit (λ _. (refl, refl))
          | inr miss ↦ rw miss (λ same. absurd (ground (arith, eq_iff u.username r.admin_user)))
        ])

  users_others :
      (hash : String) (users : List AdminUser)
      → All
          (λ u. u.username ≢ r.admin_user → In u users)
          (update_admin_password r.admin_user hash users)
  unfolding update_admin_password
  users_others hash users =
      All-update_where_each (λ u. u.username ≢ r.admin_user → In u users) (is_user r.admin_user) _
        users
        (λ u m. elim (Bool-cases (is_user r.admin_user u)) [
          | inl hit ↦ rw hit (λ differs. absurd (differs ((eq_iff u.username r.admin_user).0 hit)))
          | inr miss ↦ rw miss (λ differs. m)
        ])

  users_names :
      (hash : String) (users : List AdminUser)
      → map (λ u. u.username) (update_admin_password r.admin_user hash users)
        ≡ map (λ u. u.username) users
  unfolding update_admin_password
  users_names hash users =
      map-update_where (λ u. u.username) (is_user r.admin_user) _ (λ u. refl) users

  replace_password-changed :
      (req : PasswordRequest) (st : Store S L)
      → (replace_password failures logins passwords hash_token up now token r req st).0
        ≡ password_changed
      → (new_hash : String) × (passwords.hash req.new_password ≡ some new_hash)
        × ((replace_password failures logins passwords hash_token up now token r req st).1
            ≡ record st {
              users = update_admin_password r.admin_user new_hash st.users;
              sessions = sessions_left st.sessions;
            })
  unfolding replace_password sessions_left
  replace_password-changed req st h = elim (Option-cases (passwords.hash req.new_password)) [
    | inl failed_hash ↦ absurd (ground (arith, failed_hash))
    | inr (n, hashed) ↦
        let fine : passwords.acceptable r.admin_user req.new_password ≡ true =
          ground (arith, hashed) in
        (n, hashed, rw (fine, hashed) refl)
  ]

  check_current-Changed :
      (req : PasswordRequest) (st : Store S L)
      → (check_current failures logins passwords hash_token up now token r req st).0
        ≡ password_changed
      → Changed req st (check_current failures logins passwords hash_token up now token r req st).1
  unfolding check_current
  check_current-Changed req st h =
      let blank = eq_iff (get_admin_user r.admin_user st.users).0 "" in
      let same : check_current failures logins passwords hash_token up now token r req st
          ≡ replace_password failures logins passwords hash_token up now token r req st =
        ground arith in
      let (n, hashed, left) = replace_password-changed req st (sym (ap (λ p. p.0) same) ∙ h) in
      let after = ap (λ p. p.1) same ∙ left in
      record {
        right =
            get_admin_user-RightPassword passwords r.admin_user req.current_password st.users
              (λ e. ground arith) (ground arith);
        new_hash = n;
        hashed = hashed;
        same_names = rw (ap (λ t. t.users) after) (users_names n st.users);
        own = rw (ap (λ t. t.users) after) (users_own n st.users);
        others = rw (ap (λ t. t.users) after) (users_others n st.users);
        ended = Ended-sessions_left st _ (ap (λ t. t.sessions) after);
      }

  -- A change of the password that succeeds had the current password of the session's user, sets the hash of
  -- the new one for that user alone, and leaves the user no session but the one whose token is in the
  -- header X-Admiral-Admin-Token or, where that is empty, a bearer token in Authorization. Without a
  -- token in either of them, as for a session's token that came in X-Admiral-Token, all sessions stay.
  pub handle_admin_change_password-Changed :
      (req : PasswordRequest) (st : Store S L)
      → (handle_admin_change_password failures logins passwords hash_token up now token r
          (some req)
          st).0
        ≡ password_changed
      → Changed req st
          (handle_admin_change_password failures logins passwords hash_token up now token r
            (some req)
            st).1
  unfolding handle_admin_change_password
  handle_admin_change_password-Changed req st h =
      let l =
        (logins.allow ("change-password:" +++ r.admin_user +++ ":" +++ r.client_ip) 5 minute now
          st.logins).1 in
      let same : handle_admin_change_password failures logins passwords hash_token up now token r
            (some req) st
          ≡ check_current failures logins passwords hash_token up now token r req
              (record st { logins = l }) =
        ground arith in
      let changed =
        check_current-Changed req (record st { logins = l }) (sym (ap (λ p. p.0) same) ∙ h) in
      rw same (record {
        right = changed.right;
        new_hash = changed.new_hash;
        hashed = changed.hashed;
        same_names = changed.same_names;
        own = changed.own;
        others = changed.others;
        ended = record {
          by_header = changed.ended.by_header;
          by_bearer = changed.ended.by_bearer;
          without_token = changed.ended.without_token;
        };
      })
