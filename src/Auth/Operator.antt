-- ===== src/Auth/Operator.antt =====
-- Operator tokens: the table `operator_tokens` (internal/database/users.go), `operatorTokenUsable`,
-- `scopeAllows`, V1AuthMiddleware and V1HarborAuthMiddleware (internal/api/admin_auth.go).
use admirald.Shared.{
  ℕ, ◌<◌, ltb, ◌≡◌, ◌≢◌, ◌⊎◌, refl, sym, ap, ◌∙◌, inl, inr, Bool, true, false, not, ◌&&◌, ◌||◌,
  Option, none, some, String, List, find, update_where, if◌then◌else◌, ◌==◌, eq_iff, Option-cases,
  arith,
}
use mathlib.Core.Bool.{true≢false}
use admirald.Auth.Request.{
  Method, get, head, delete, Request, request_token, contains, Outcome, refused, passed,
  unauthorized, forbidden,
}
use admirald.Auth.Admin.{Authenticated}

pub record OperatorToken : Type 0 where
  pub id : String
  pub username : String
  pub token_hash : String
  pub scope : String
  pub expires_at : Option ℕ
  pub revoked_at : Option ℕ
  pub last_used_at : Option ℕ

-- The zero value, which GetOperatorToken answers where no row has the hash.
abbrev pub no_token : OperatorToken
no_token = record {
  id = "";
  username = "";
  token_hash = "";
  scope = "";
  expires_at = none;
  revoked_at = none;
  last_used_at = none;
}

-- GetOperatorToken, while the database answers.
unfoldable pub get_operator_token : String → List OperatorToken → OperatorToken
get_operator_token hash tokens = elim (find (λ t. t.token_hash == hash) tokens) [
  | none ↦ no_token
  | some t ↦ t
]

-- TouchOperatorToken.
unfoldable pub touch_operator_token : ℕ → String → List OperatorToken → List OperatorToken
touch_operator_token now id =
    update_where (λ t. t.id == id) (λ t. record t { last_used_at = some now })

abbrev is_none : {A : Type 0} → Option A → Bool
is_none none = true
is_none (some _) = false

unfoldable pub operator_token_usable : ℕ → OperatorToken → Bool
operator_token_usable now t =
    not (t.id == "")
    && is_none t.revoked_at
    && elim t.expires_at [ none ↦ true | some e ↦ ltb now e ]

abbrev pub is_read : Method → Bool
is_read get = true
is_read head = true
is_read _ = false

abbrev is_delete : Method → Bool
is_delete delete = true
is_delete _ = false

abbrev pub is_control_plane : String → Bool
is_control_plane p =
    contains p "/nodes" || contains p "/backups" || contains p "/secrets" || contains p "/restore"

unfoldable pub scope_allows : String → Request → Bool
scope_allows scope r =
    if scope == "admin"
    then true
    else if not (scope == "read") && not (scope == "write")
    then false
    else if is_read r.method
    then true
    else if scope == "read"
    then false
    else not (is_control_plane r.path) && not (is_delete r.method)

-- What a scope lets its token do: `admin` all, `read` and `write` what only reads, and `write` also
-- what is neither a deletion nor on a path of nodes, backups, secrets or restores.
pub Permits : String → Request → Type 0
Permits scope r =
    (scope ≡ "admin")
    ⊎ ((((scope ≡ "read") ⊎ (scope ≡ "write")) × (is_read r.method ≡ true))
        ⊎ ((scope ≡ "write") × (is_control_plane r.path ≡ false) × (is_delete r.method ≡ false)))

scope_allows-Permits :
    (scope : String) (r : Request) → scope_allows scope r ≡ true → Permits scope r
unfolding scope_allows Permits
scope_allows-Permits scope r h =
    let e1 = eq_iff scope "admin" in
    let e2 = eq_iff scope "read" in let e3 = eq_iff scope "write" in ground arith

abbrev as_principal : Request → String → Authenticated
as_principal r p = record { request = r; principal = p }

get_operator_token-some :
    (hash : String) (tokens : List OperatorToken) (t : OperatorToken)
    → find (λ t. t.token_hash == hash) tokens ≡ some t
    → get_operator_token hash tokens ≡ t
unfolding get_operator_token
get_operator_token-some hash tokens t found = rw (get_operator_token, found) refl

get_operator_token-none :
    (hash : String) (tokens : List OperatorToken)
    → find (λ t. t.token_hash == hash) tokens ≡ none
    → get_operator_token hash tokens ≡ no_token
unfolding get_operator_token
get_operator_token-none hash tokens missing = rw (get_operator_token, missing) refl

no_token-unusable : (now : ℕ) → operator_token_usable now no_token ≡ false
unfolding operator_token_usable
no_token-unusable now = refl

-- A usable answer of GetOperatorToken is a row with the hash.
pub get_operator_token-usable :
    (now : ℕ) (hash : String) (tokens : List OperatorToken)
    → operator_token_usable now (get_operator_token hash tokens) ≡ true
    → (t : OperatorToken) × (find (λ t. t.token_hash == hash) tokens ≡ some t)
      × (get_operator_token hash tokens ≡ t)
get_operator_token-usable now hash tokens h =
    elim (Option-cases (find (λ t. t.token_hash == hash) tokens)) [
      | inl missing ↦
          let unusable = no_token-unusable now in
          absurd (
            true≢false (
              sym h
              ∙ ap (operator_token_usable now) (get_operator_token-none hash tokens missing)
              ∙ unusable))
      | inr (t, found) ↦ (t, found, get_operator_token-some hash tokens t found)
    ]

module _ (now : ℕ) (t : OperatorToken) (h : operator_token_usable now t ≡ true) where
  operator_token_usable-named : t.id ≢ ""
  unfolding operator_token_usable
  operator_token_usable-named e = let named = eq_iff t.id "" in ground arith

  operator_token_usable-unrevoked : t.revoked_at ≡ none
  unfolding operator_token_usable
  operator_token_usable-unrevoked = ground arith

  operator_token_usable-unexpired : (e : ℕ) → t.expires_at ≡ some e → now < e
  unfolding operator_token_usable
  operator_token_usable-unexpired e l = ground arith

module _ (hash_token : String → String) (admin_token : String) (up : Bool) where
  -- The part of both middlewares that looks up an operator's token.
  unfoldable pub operator_check :
      ℕ → Request → List OperatorToken → Outcome Authenticated × List OperatorToken
  operator_check now r tokens =
      let t = get_operator_token (hash_token (request_token r)) tokens in
      if not up || not (operator_token_usable now t)
      then (refused unauthorized, tokens)
      else if not (scope_allows t.scope r)
      then (refused forbidden, tokens)
      else (passed (as_principal r t.username), touch_operator_token now t.id tokens)

  unfoldable pub v1_auth :
      ℕ → Request → List OperatorToken → Outcome Authenticated × List OperatorToken
  v1_auth now r tokens =
      if request_token r == ""
      then (refused unauthorized, tokens)
      else if not (admin_token == "") && (request_token r == admin_token)
      then (passed (as_principal r "system"), tokens)
      else operator_check now r tokens

  -- `wired` tells whether the server has its handlers and their database.
  unfoldable pub v1_harbor_auth :
      String → Bool → ℕ → Request → List OperatorToken → Outcome Authenticated × List OperatorToken
  v1_harbor_auth harbor_token wired now r tokens =
      if request_token r == ""
      then (refused unauthorized, tokens)
      else if not (admin_token == "") && (request_token r == admin_token)
      then (passed (as_principal r "system"), tokens)
      else if not (harbor_token == "") && (request_token r == harbor_token)
      then (passed (as_principal r "harbor-token"), tokens)
      else if not wired
      then (refused unauthorized, tokens)
      else operator_check now r tokens

  -- The token of an operator lets a request through, and as whom.
  pub record OperatorAdmits (now : ℕ) (r : Request) (tokens : List OperatorToken)
      (a : Authenticated) : Type 0 where
    pub token : OperatorToken
    pub found : find (λ t. t.token_hash == hash_token (request_token r)) tokens ≡ some token
    pub named : token.id ≢ ""
    pub unrevoked : token.revoked_at ≡ none
    pub unexpired : (e : ℕ) → token.expires_at ≡ some e → now < e
    pub permitted : Permits token.scope r
    pub as_user : a ≡ as_principal r token.username

  operator_check_sound :
      (now : ℕ) (r : Request) (tokens : List OperatorToken) (a : Authenticated)
      → (operator_check now r tokens).0 ≡ passed a
      → OperatorAdmits now r tokens a
  unfolding operator_check
  operator_check_sound now r tokens a h =
      let hash = hash_token (request_token r) in
      let usable : operator_token_usable now (get_operator_token hash tokens) ≡ true =
        ground arith in
      let (t, found, same) = get_operator_token-usable now hash tokens usable in
      let allowed : scope_allows (get_operator_token hash tokens).scope r ≡ true = ground arith in
      let as_token : a ≡ as_principal r (get_operator_token hash tokens).username = ground arith in
      record {
        token = t;
        found = found;
        named =
            operator_token_usable-named now t (sym (ap (operator_token_usable now) same) ∙ usable);
        unrevoked =
            operator_token_usable-unrevoked now t
              (sym (ap (operator_token_usable now) same) ∙ usable);
        unexpired =
            operator_token_usable-unexpired now t
              (sym (ap (operator_token_usable now) same) ∙ usable);
        permitted =
            scope_allows-Permits t.scope r (ap (λ u. scope_allows u.scope r) (sym same) ∙ allowed);
        as_user = as_token ∙ ap (λ u. as_principal r u.username) same;
      }

  -- What lets a request pass V1AuthMiddleware: the admin token, as `system`, or an operator's token.
  pub V1Admits : ℕ → Request → List OperatorToken → Authenticated → Type 0
  V1Admits now r tokens a =
      ((admin_token ≢ "") × (request_token r ≡ admin_token) × (a ≡ as_principal r "system"))
      ⊎ OperatorAdmits now r tokens a

  -- A request passes V1AuthMiddleware only with a token that is not empty and is the admin token
  -- of the server, as `system`, or the one of a row of the operators' tokens that is named, not revoked
  -- and not expired and whose scope allows the request, as the row's user.
  pub v1_auth_sound :
      (now : ℕ) (r : Request) (tokens : List OperatorToken) (a : Authenticated)
      → (v1_auth now r tokens).0 ≡ passed a
      → (request_token r ≢ "") × V1Admits now r tokens a
  unfolding v1_auth V1Admits
  v1_auth_sound now r tokens a h =
      let blank = eq_iff (request_token r) "" in
      let unset = eq_iff admin_token "" in
      let admin = eq_iff (request_token r) admin_token in
      let operator = operator_check_sound now r tokens a in ground arith
