-- ===== src/Auth/Admin.antt =====
-- The static tokens: AdminAuthMiddlewareWithLimiter and HarborAuthMiddleware (internal/api/middleware.go).
use admirald.Shared.{
  ℕ, ◌≡◌, ◌≢◌, ◌↔◌, ◌⊎◌, refl, not, ◌&&◌, Option, none, some, String, if◌then◌else◌, ◌==◌, eq_iff,
  arith,
}
use Prim.Native.String.{◌++◌}
use admirald.RateLimit.Interface.{Limiter}
use admirald.Auth.Request.{Request, request_token, Outcome, blocked_for, passed, unauthorized}
use admirald.Auth.Failures.{block_auth_attempt, check_iff, asked, fail, IsOpen}

-- What the next handler is given: the request, and the principal of its context.
pub record Authenticated : Type 0 where
  pub request : Request
  pub principal : String

-- The headers by which a client could name itself are removed.
abbrev pub as_service : Request → String → Authenticated
as_service r p = record { request = record r { admin_user = ""; operator = "" }; principal = p }

module _ {S : Type 0} (l : Limiter S) (now : ℕ) (key : String) where
  unfoldable pub admin_check : String → Request → Option ℕ × S → Outcome Authenticated × S
  admin_check admin_token r (some seconds, s) = (blocked_for seconds, s)
  admin_check admin_token r (none, s) =
      if request_token r == ""
      then fail l key now unauthorized s
      else if not (request_token r == admin_token)
      then fail l key now unauthorized s
      else (passed (as_service r "admin-token"), l.reset key s)

  unfoldable pub harbor_check : String → String → Request → Option ℕ × S → Outcome Authenticated × S
  harbor_check admin_token harbor_token r (some seconds, s) = (blocked_for seconds, s)
  harbor_check admin_token harbor_token r (none, s) =
      if request_token r == ""
      then fail l key now unauthorized s
      else if request_token r == admin_token
      then (passed (as_service r "system"), l.reset key s)
      else if not (harbor_token == "") && (request_token r == harbor_token)
      then (passed (as_service r "harbor-token"), l.reset key s)
      else fail l key now unauthorized s

abbrev pub admin_key : Request → String
admin_key r = "admin_token:" ++ r.client_ip

abbrev pub harbor_key : Request → String
harbor_key r = "harbor_token:" ++ r.client_ip

unfoldable pub admin_auth :
    {S : Type 0} → Limiter S → String → ℕ → Request → S → Outcome Authenticated × S
unfolding admin_check
admin_auth l admin_token now r s =
    admin_check l now (admin_key r) admin_token r (block_auth_attempt l (admin_key r) now s)

unfoldable pub harbor_auth :
    {S : Type 0} → Limiter S → String → String → ℕ → Request → S → Outcome Authenticated × S
unfolding harbor_check
harbor_auth l admin_token harbor_token now r s =
    harbor_check l now (harbor_key r) admin_token harbor_token r
      (block_auth_attempt l (harbor_key r) now s)

-- Which requests the admin token lets in, and as whom.
pub record AdminAdmits (admin_token : String) (r : Request) (a : Authenticated) : Type 0 where
  pub present : request_token r ≢ ""
  pub right : request_token r ≡ admin_token
  pub as_admin :
      a
      ≡ record { request = record r { admin_user = ""; operator = "" }; principal = "admin-token" }

-- The same for the routes that Harbor may call.
pub record HarborAdmits (admin_token harbor_token : String) (r : Request) (a : Authenticated)
    : Type 0 where
  pub present : request_token r ≢ ""
  pub who :
      ((request_token r ≡ admin_token)
        × (a ≡ record {
          request = record r { admin_user = ""; operator = "" };
          principal = "system";
        }))
      ⊎ ((request_token r ≢ admin_token)
          × (request_token r ≡ harbor_token)
          × (a ≡ record {
            request = record r { admin_user = ""; operator = "" };
            principal = "harbor-token";
          }))

module _ {S : Type 0} (l : Limiter S) (now : ℕ) (r : Request) (a : Authenticated) where
  admin_check_iff :
      (key admin_token : String) (s : S)
      → ((admin_check l now key admin_token r (none, s)).0 ≡ passed a) ↔ AdminAdmits admin_token r a
  unfolding admin_check
  admin_check_iff key admin_token s =
      let blank = eq_iff (request_token r) "" in
      let same = eq_iff (request_token r) admin_token in
      (
        λ h. record { present = ground arith; right = ground arith; as_admin = ground arith },
        λ v.
            let present = v.present in
            let right = v.right in let as_admin = v.as_admin in ground arith,
      )

  harbor_check_iff :
      (key admin_token harbor_token : String) (s : S)
      → ((harbor_check l now key admin_token harbor_token r (none, s)).0 ≡ passed a)
        ↔ HarborAdmits admin_token harbor_token r a
  unfolding harbor_check
  harbor_check_iff key admin_token harbor_token s =
      let blank = eq_iff (request_token r) "" in
      let no_harbor = eq_iff harbor_token "" in
      let admin = eq_iff (request_token r) admin_token in
      let harbor = eq_iff (request_token r) harbor_token in
      (
        λ h. record { present = ground arith; who = ground arith },
        λ v. let present = v.present in let who = v.who in ground arith,
      )

  -- A request passes the middleware of the static admin token exactly where the limiter does not
  -- block its address and its token is the admin token and not empty. The next handler then sees the
  -- principal `admin-token` and the same request with both headers by which a client could name another
  -- one emptied.
  pub admin_auth_iff :
      (admin_token : String) (s : S)
      → ((admin_auth l admin_token now r s).0 ≡ passed a)
        ↔ (IsOpen l (admin_key r) now s × AdminAdmits admin_token r a)
  unfolding admin_auth admin_check
  admin_auth_iff admin_token s =
      check_iff l (admin_key r) now s (admin_check l now (admin_key r) admin_token r) (λ n s'. refl)
        (admin_check_iff (admin_key r) admin_token (asked l (admin_key r) now s))

  -- A request passes the middleware of Harbor's routes exactly where the limiter does not block its
  -- address and its token is not empty and is the admin token, or else the Harbor token. The
  -- principal is `system` for the first and `harbor-token` for the second, and the headers by which a
  -- client could name another one are gone.
  pub harbor_auth_iff :
      (admin_token harbor_token : String) (s : S)
      → ((harbor_auth l admin_token harbor_token now r s).0 ≡ passed a)
        ↔ (IsOpen l (harbor_key r) now s × HarborAdmits admin_token harbor_token r a)
  unfolding harbor_auth harbor_check
  harbor_auth_iff admin_token harbor_token s =
      check_iff l (harbor_key r) now s
        (harbor_check l now (harbor_key r) admin_token harbor_token r) (λ n s'. refl)
        (harbor_check_iff (harbor_key r) admin_token harbor_token (asked l (harbor_key r) now s))
