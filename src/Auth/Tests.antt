-- ===== src/Auth/Tests.antt =====
-- Requests to the middleware, and the theorems at such inputs.
use Prim.Native.String.{◌++◌}
use admirald.Shared.{
  ℕ, ◌*◌, ◌≡◌, ◌≢◌, ◌↔◌, refl, Bool, true, false, none, some, String, List, [], ◌∷◌, arith, eq_iff,
  ◌==◌,
}
use admirald.RateLimit.Interface.{second}
use admirald.RateLimit.Memory
use admirald.RateLimit.Memory.{Buckets, memory_limiter, new_rate_limiter}
use admirald.RateLimit.Store
use admirald.RateLimit.Store.{
  Rows, db_limiter, check_rate_limit, check_row, set_row, reset_rate_limit,
}
use admirald.RateLimit.Budget.{true_count}
use admirald.Auth.Request.{Request, post, request_token, session_token, passed}
use admirald.Auth.Failures.{IsOpen, block_auth_attempt}
use admirald.Auth.Admin.{
  Authenticated, as_service, admin_key, admin_auth, admin_check, AdminAdmits, admin_auth_iff,
}
use admirald.Auth.Node.{
  Crypto, Setup, TokenRow, NodeContext, node_auth, node_check, row_check, callback_accepted,
  positive_int64,
}
use admirald.Auth.NodeAdmits.{NodeAdmitted, node_auth_iff}
use admirald.Auth.Operator.{
  OperatorToken, V1Admits, v1_auth, operator_check, get_operator_token, operator_token_usable,
  scope_allows, v1_auth_sound,
}
use admirald.Auth.Session.{
  Session, State, session_auth, session_gate, inventory_check, session_check, get_admin_session,
  as_user, session_key,
}
use admirald.Auth.SessionAdmits.{SessionAdmits, session_auth_sound}
use admirald.Auth.SessionEvents.{login, request, handle, handle_all}
use admirald.Auth.SessionLife.{BySession, session_ends}
use admirald.Auth.Lockout.{IsTried, outcomes, guesses_tested}
use admirald.Auth.StaticToken.{admissions, static_token_locked_out}

abbrev request_1 : Request
request_1 = record {
  method = post;
  path = "/api/v1/apps";
  client_ip = "10.0.0.7";
  admiral_token = "tok";
  admin_session_token = "";
  authorization = "";
  admin_user = "mallory";
  operator = "";
  body = some "{}";
  task_timestamp = "1000";
  task_signature = "sig";
}

admin_auth_1 :
    (admin_auth memory_limiter "tok" 5 request_1 new_rate_limiter).0
    ≡ passed (as_service request_1 "admin-token")
unfolding admin_auth admin_check block_auth_attempt Memory.is_blocked new_rate_limiter
    Memory.remove_expired Memory.set_bucket
admin_auth_1 = refl

admin_auth_iff_example :
    ((admin_auth memory_limiter "tok" 5 request_1 new_rate_limiter).0
      ≡ passed (as_service request_1 "admin-token"))
    ↔ (IsOpen memory_limiter (admin_key request_1) 5 new_rate_limiter
        × AdminAdmits "tok" request_1 (as_service request_1 "admin-token"))
admin_auth_iff_example =
    admin_auth_iff memory_limiter 5 request_1 (as_service request_1 "admin-token") "tok"
      new_rate_limiter

abbrev always : List ℕ → List ℕ → Bool
always a b = true

abbrev not_blank : String → Bool
not_blank s = s == ""

-- Hashes that leave the text as it is, and one signature for everything.
abbrev toy_crypto : Crypto
toy_crypto = record {
  sha256_hex = λ s. s;
  bcrypt_matches = λ h s. h == s;
  hmac_sha256 = λ k s. [];
  hex_decode = λ s. some [];
  bytes_beq = always;
  blank = not_blank;
}

abbrev token_row : TokenRow
token_row = record {
  node_id = "n1";
  wireguard_ip = "10.0.0.7";
  manual_disabled = false;
  token_type = "worker";
  token_identifier = "tokpepper";
  token_hash = "tok";
  token_status = "active";
  token_expires_at = none;
}

abbrev setup_1 : Setup
setup_1 = record {
  crypto = toy_crypto;
  pepper = "pepper";
  expected_token_type = "worker";
  callback_key = some "key";
  dev_bypass = false;
  up = true;
  tokens = token_row ∷ [];
}

abbrev node_1 : NodeContext
node_1 = record { node_id = "n1"; token_type = "worker" }

node_auth_1 : (node_auth setup_1 memory_limiter 5 request_1 new_rate_limiter).0 ≡ passed node_1
unfolding node_auth node_check row_check block_auth_attempt Memory.is_blocked new_rate_limiter
    Memory.remove_expired Memory.set_bucket
node_auth_1 = refl

node_auth_iff_example :
    ((node_auth setup_1 memory_limiter 5 request_1 new_rate_limiter).0 ≡ passed node_1) ↔ (
      IsOpen memory_limiter ("node_token:" ++ "10.0.0.7") 5 new_rate_limiter
      × NodeAdmitted setup_1 5 request_1 node_1)
node_auth_iff_example = node_auth_iff setup_1 memory_limiter 5 request_1 new_rate_limiter node_1

callback_1 : callback_accepted setup_1 (1100 * second) request_1 ≡ true
unfolding callback_accepted positive_int64
callback_1 = refl

abbrev same_text : String → String
same_text s = s

abbrev operator_1 : OperatorToken
operator_1 = record {
  id = "t1";
  username = "alice";
  token_hash = "tok";
  scope = "write";
  expires_at = some 100;
  revoked_at = none;
  last_used_at = none;
}

abbrev as_alice : Authenticated
as_alice = record { request = request_1; principal = "alice" }

v1_auth_1 : (v1_auth same_text "adm" true 50 request_1 (operator_1 ∷ [])).0 ≡ passed as_alice
unfolding v1_auth operator_check get_operator_token operator_token_usable scope_allows
v1_auth_1 = refl

v1_auth_sound_example :
    (request_token request_1 ≢ "")
    × V1Admits same_text "adm" true 50 request_1 (operator_1 ∷ []) as_alice
v1_auth_sound_example =
    v1_auth_sound same_text "adm" true 50 request_1 (operator_1 ∷ []) as_alice v1_auth_1

abbrev session_1 : Session
session_1 = record {
  token_hash = "tok";
  username = "alice";
  expires_at = 1000 * second;
  last_activity_at = 10 * second;
}

abbrev no_rows : Rows
no_rows key = none

abbrev state_1 : State Rows
state_1 = record { limiter = no_rows; sessions = session_1 ∷ []; tokens = [] }

session_auth_1 :
    (session_auth (db_limiter true) same_text "adm" true (20 * second) request_1 state_1).0
    ≡ passed (as_user request_1 "alice")
unfolding session_auth session_gate inventory_check session_check get_admin_session
    block_auth_attempt Store.is_blocked check_rate_limit check_row set_row
session_auth_1 = refl

session_auth_sound_example :
    IsOpen (db_limiter true) (session_key request_1) (20 * second) no_rows
    × (session_token request_1 ≢ "")
    × SessionAdmits
        (db_limiter true)
        same_text
        "adm"
        true
        (20 * second)
        request_1
        state_1
        (as_user request_1 "alice")
session_auth_sound_example =
    session_auth_sound (db_limiter true) same_text "adm" true (20 * second) request_1 state_1
      (as_user request_1 "alice") session_auth_1

by_session : BySession (db_limiter true) same_text "adm" true "tok" request_1
by_session = record {
  hashed = refl;
  not_admin = ground (arith, eq_iff "tok" "adm");
  elsewhere = refl;
}

abbrev empty_state : State Rows
empty_state = record { limiter = no_rows; sessions = []; tokens = [] }

session_ends_example :
    (session_auth (db_limiter true) same_text "adm" true (90_000 * second) request_1 (
      handle_all (db_limiter true) same_text "adm" true (request (60 * second) request_1 ∷ []) (
        handle
          (db_limiter true)
          same_text
          "adm"
          true
          (login (5 * second) "tok" "alice")
          empty_state))).0
    ≢ passed (as_user request_1 "alice")
session_ends_example =
    session_ends (db_limiter true) same_text "adm" true (5 * second) "tok" "alice" empty_state
      (request (60 * second) request_1 ∷ []) (90_000 * second) request_1 tt (tt, tt) (omega arith)
      by_session (as_user request_1 "alice")

abbrev logout_1 : Request
logout_1 = record request_1 { admin_session_token = "tok" }

wrong_1 : request_token request_1 ≢ "adm"
wrong_1 = ground (arith, eq_iff "tok" "adm")

guesses_tested_example :
    IsTried (outcomes "adm" ((5, request_1) ∷ (6, request_1) ∷ []) new_rate_limiter) 2 10
guesses_tested_example =
    guesses_tested "adm" "admin_token:10.0.0.7" 5 ((5, request_1) ∷ (6, request_1) ∷ [])
      new_rate_limiter
      ((refl, wrong_1, omega arith, omega arith), ((refl, wrong_1, omega arith, omega arith), tt))
      (unfold new_rate_limiter in refl)

static_token_locked_out_example :
    true_count
      (admissions same_text "tok" request_1 (second ∷ 2 * second ∷ 3 * second ∷ []) empty_state)
    ≡ 3
static_token_locked_out_example =
    static_token_locked_out same_text "tok" request_1 (ground (arith, eq_iff "tok" "")) refl second
      (2 * second ∷ 3 * second ∷ []) empty_state refl (omega arith, (omega arith, tt))
