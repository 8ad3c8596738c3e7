-- ===== src/Auth/LoginTests.antt =====
-- Logins and a change of the password on small tables, and the theorems at such inputs.
use admirald.Shared.{◌*◌, ◌≡◌, refl, Bool, true, false, Option, none, some, String, [], ◌∷◌, ◌==◌}
use admirald.RateLimit.Interface.{second}
use admirald.RateLimit.Memory
use admirald.RateLimit.Memory.{Buckets, memory_limiter, new_rate_limiter}
use admirald.Auth.Request.{Request, post}
use admirald.Auth.Session.{Session}
use admirald.Auth.Login.{
  Passwords, LoginRequest, PasswordRequest, Store, password_changed, get_admin_user,
  handle_admin_login, handle_admin_change_password, check_current, replace_password,
}
use admirald.Auth.LoginAdmits.{Sessions, handle_admin_login-Sessions}
use admirald.Auth.PasswordChange.{Changed, handle_admin_change_password-Changed}

abbrev login_1 : Request
login_1 = record {
  method = post;
  path = "/api/admin/auth/login";
  client_ip = "10.0.0.7";
  admiral_token = "";
  admin_session_token = "tok";
  authorization = "";
  admin_user = "alice";
  operator = "";
  body = none;
  task_timestamp = "";
  task_signature = "";
}

abbrev prefix_hash : String → Option String
prefix_hash s = some s

abbrev plain : String → String → Option Bool
plain p h = some (p == h)

abbrev any_password : String → String → Bool
any_password u p = true

-- Passwords that are their own hashes.
abbrev toy_passwords : Passwords
toy_passwords = record { verify = plain; hash = prefix_hash; acceptable = any_password }

abbrev same_text : String → String
same_text s = s

abbrev session_of : String → String → Session
session_of hash user = record {
  token_hash = hash;
  username = user;
  expires_at = 1000 * second;
  last_activity_at = second;
}

abbrev store_1 : Store Buckets Buckets
store_1 = record {
  failures = new_rate_limiter;
  logins = new_rate_limiter;
  users = record { username = "alice"; password_hash = "old"; must_change_password = true } ∷ [];
  sessions = session_of "tok" "alice" ∷ session_of "other" "alice" ∷ session_of "b" "bob" ∷ [];
}

abbrev alice : LoginRequest
alice = record { username = "alice"; password = "old"; verify_only = false }

handle_admin_login-Sessions_example :
    Sessions memory_limiter memory_limiter toy_passwords same_text true
      (5 * second)
      "new"
      login_1
      alice
      store_1
      (handle_admin_login memory_limiter memory_limiter toy_passwords same_text true
        (5 * second)
        "new"
        login_1
        (some alice)
        store_1)
handle_admin_login-Sessions_example =
    handle_admin_login-Sessions memory_limiter memory_limiter toy_passwords same_text true
      (5 * second) "new" login_1 alice store_1

abbrev change_1 : PasswordRequest
change_1 = record { current_password = "old"; new_password = "better" }

changed_1 :
    (handle_admin_change_password memory_limiter memory_limiter toy_passwords same_text true
      (5 * second)
      ""
      login_1
      (some change_1)
      store_1).0
    ≡ password_changed
unfolding handle_admin_change_password check_current replace_password get_admin_user Memory.allow
    Memory.remove_expired Memory.set_bucket new_rate_limiter
changed_1 = refl

handle_admin_change_password-Changed_example :
    Changed memory_limiter memory_limiter toy_passwords same_text true
      (5 * second)
      ""
      login_1
      change_1
      store_1
      (handle_admin_change_password memory_limiter memory_limiter toy_passwords same_text true
        (5 * second)
        ""
        login_1
        (some change_1)
        store_1).1
handle_admin_change_password-Changed_example =
    handle_admin_change_password-Changed memory_limiter memory_limiter toy_passwords same_text true
      (5 * second) "" login_1 change_1 store_1 changed_1
