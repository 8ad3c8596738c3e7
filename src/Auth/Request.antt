-- ===== src/Auth/Request.antt =====
-- The parts of an HTTP request that the authentication middleware reads, and what it answers
-- (internal/api/middleware.go, internal/api/node_auth.go, internal/api/admin_auth.go). A header that
-- is not sent reads as the empty text.
use Prim.Native.String.{len, slice}
use text.Mathlib.Text.{starts_with, find?}
use admirald.Shared.{ℕ, Bool, true, false, Option, none, some, String, if◌then◌else◌, ◌==◌}

pub data Method : Type 0 where
  get head post put patch delete : Method

pub record Request : Type 0 where
  pub method : Method
  pub path : String
  -- What `getClientIP` answers.
  pub client_ip : String
  pub admiral_token : String
  pub admin_session_token : String
  pub authorization : String
  pub admin_user : String
  pub operator : String
  -- The body, and the headers that sign it.
  -- `none` where reading the body fails.
  pub body : Option String
  pub task_timestamp : String
  pub task_signature : String

-- `strings.HasPrefix(h, "Bearer ")` and `strings.TrimPrefix(h, "Bearer ")`
abbrev pub bearer_token : String → String
bearer_token h = if starts_with h "Bearer " then slice h 7 (len h) else ""

-- The token of `X-Admiral-Token`, or of the `Authorization` header where that one is empty.
abbrev pub request_token : Request → String
request_token r = if r.admiral_token == "" then bearer_token r.authorization else r.admiral_token

-- The middleware of sessions reads `X-Admiral-Admin-Token` first.
abbrev pub session_token : Request → String
session_token r = if r.admin_session_token == "" then request_token r else r.admin_session_token

-- `strings.Contains`
abbrev pub contains : String → String → Bool
contains s t = elim (find? s t) [ none ↦ false | some at ↦ true ]

-- What a middleware does with a request: status 429 with the seconds of `Retry-After`, another status,
-- or the next handler, with the context of type `A` that it is given.
pub data Outcome (A : Type 0) : Type 0 where
  blocked_for : ℕ → Outcome A
  refused : ℕ → Outcome A
  passed : A → Outcome A

abbrev pub unauthorized : ℕ
unauthorized = 401

abbrev pub forbidden : ℕ
forbidden = 403

abbrev pub service_unavailable : ℕ
service_unavailable = 503
