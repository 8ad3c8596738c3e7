-- ===== src/Auth/Node.antt =====
-- NodeAuthMiddleware (internal/api/node_auth.go): tokens of nodes, their WireGuard address, and the
-- signature of a callback. The hashes are parameters; `bcrypt_matches hash text` is a nil error of
-- `CompareHashAndPassword`.
use Prim.Native.Nat.{◌^◌}
use Prim.Native.Char.{code}
use Prim.Native.String as Str
use Prim.Native.String.{◌++◌}
use admirald.Shared.{
  ℕ, ◌+◌, ◌-◌, ◌*◌, ltb, leb, nat_beq, Bool, false, not, ◌&&◌, ◌||◌, Option, none, some, String,
  List, find, if◌then◌else◌, ◌==◌,
}
use admirald.RateLimit.Interface.{Limiter, second}
use admirald.Auth.Request.{
  Request, request_token, Outcome, blocked_for, refused, passed, unauthorized, forbidden,
  service_unavailable,
}
use admirald.Auth.Failures.{block_auth_attempt, fail}

pub record Crypto : Type 0 where
  pub sha256_hex : String → String
  pub bcrypt_matches : String → String → Bool
  -- The key and the text, and the text of a signature header.
  pub hmac_sha256 : String → String → List ℕ
  pub hex_decode : String → Option (List ℕ)
  pub bytes_beq : List ℕ → List ℕ → Bool
  -- `strings.TrimSpace(s) == ""`
  pub blank : String → Bool

-- A row of `nodes` joined with one of `node_tokens`, with the columns that are read here.
pub record TokenRow : Type 0 where
  pub node_id : String
  pub wireguard_ip : String
  pub manual_disabled : Bool
  pub token_type : String
  pub token_identifier : String
  pub token_hash : String
  pub token_status : String
  pub token_expires_at : Option ℕ

-- What the handler is given: `node_id` and `token_type` of the context.
pub record NodeContext : Type 0 where
  pub node_id : String
  pub token_type : String

-- How the server is set up. `callback_key` is the optional last argument, `dev_bypass` whether
-- ADMIRAL_DEV_MODE or ADMIRAL_SINGLE_NODE is set, and `up` whether the database answers.
pub record Setup : Type 0 where
  pub crypto : Crypto
  pub pepper : String
  pub expected_token_type : String
  pub callback_key : Option String
  pub dev_bypass : Bool
  pub up : Bool
  pub tokens : List TokenRow

abbrev digits : ℕ → String → Option ℕ
digits n Str.[] = some n
digits n (Str.◌∷◌ ch rest) =
    let c = code ch in
    let more = digits (n * 10 + (c - 48)) rest in if leb 48 c && leb c 57 then more else none

-- `strconv.ParseInt(s, 10, 64)` where it succeeds with a positive number; a text with a minus sign
-- never does.
unfoldable pub positive_int64 : String → Option ℕ
positive_int64 Str.[] = none
positive_int64 (Str.◌∷◌ ch rest) =
    let unsigned = if nat_beq (code ch) 43 then rest else Str.◌∷◌ ch rest in
    if unsigned == "" then none else elim (digits 0 unsigned) [
      | none ↦ none
      | some n ↦ if ltb 0 n && ltb n (2 ^ 63) then some n else none
    ]

abbrev pub callback_path : String
callback_path = "/api/v1/fleet/callback"

abbrev pub callback_window : ℕ
callback_window = 900 * second

module _ (setup : Setup) where
  abbrev crypto : Crypto
  crypto = setup.crypto

  abbrev pub token_identifier_of : String → String
  token_identifier_of raw = crypto.sha256_hex (raw ++ setup.pepper)

  -- GetNodeTokenByIdentifier, while the database answers.
  abbrev pub get_node_token : String → Option TokenRow
  get_node_token identifier = find (λ t. t.token_identifier == identifier) setup.tokens

  -- The configured key of callbacks, where it is not blank.
  abbrev pub configured_key : Option String
  configured_key = elim setup.callback_key [
    | none ↦ none
    | some k ↦ if crypto.blank k then none else some k
  ]

  abbrev pub stale_timestamp : ℕ → ℕ → Bool
  stale_timestamp now signed_at =
      ltb (signed_at * second + callback_window) now
      || ltb (now + callback_window) (signed_at * second)

  abbrev pub signature_valid : String → String → String → Bool
  signature_valid key input signature = elim (crypto.hex_decode signature) [
    | none ↦ false
    | some provided ↦ crypto.bytes_beq provided (crypto.hmac_sha256 key input)
  ]

  -- The check of a callback's body: with a configured key the time is signed too, and the key is the
  -- node's token otherwise.
  unfoldable pub callback_accepted : ℕ → Request → Bool
  callback_accepted now r = elim r.body [
    | none ↦ false
    | some body ↦ elim configured_key [
      | none ↦ signature_valid (request_token r) body r.task_signature
      | some key ↦ elim (positive_int64 r.task_timestamp) [
        | none ↦ false
        | some signed_at ↦
            not (stale_timestamp now signed_at)
            && signature_valid key (r.task_timestamp ++ "." ++ body) r.task_signature
      ]
    ]
  ]

  abbrev pub is_expired : ℕ → TokenRow → Bool
  is_expired now t = elim t.token_expires_at [ none ↦ false | some e ↦ leb e now ]

  module _ {S : Type 0} (l : Limiter S) (now : ℕ) (key : String) (r : Request) where
    -- The part from the row of the token on.
    unfoldable pub row_check : TokenRow → S → Outcome NodeContext × S
    row_check t s =
        if t.manual_disabled
        then fail l key now forbidden s
        else if not (t.token_status == "active") && not (t.token_status == "consumed")
        then fail l key now unauthorized s
        else if is_expired now t
        then fail l key now unauthorized s
        else if not (setup.expected_token_type == "")
            && not (t.token_type == setup.expected_token_type)
        then fail l key now forbidden s
        else if not (crypto.bcrypt_matches t.token_hash (request_token r))
        then fail l key now unauthorized s
        else if not setup.dev_bypass && t.wireguard_ip == ""
        then fail l key now forbidden s
        else if not setup.dev_bypass && not (r.client_ip == t.wireguard_ip)
        then fail l key now forbidden s
        else if r.path == callback_path && not (callback_accepted now r)
        then (refused unauthorized, l.reset key s)
        else (passed (record { node_id = t.node_id; token_type = t.token_type }), l.reset key s)

    unfoldable pub node_check : Option ℕ × S → Outcome NodeContext × S
    node_check (some seconds, s) = (blocked_for seconds, s)
    node_check (none, s) =
        if request_token r == ""
        then fail l key now unauthorized s
        else if not setup.up
        then (refused service_unavailable, s)
        else elim (get_node_token (token_identifier_of (request_token r))) [
          | none ↦ fail l key now unauthorized s
          | some t ↦ row_check t s
        ]

  unfoldable pub node_auth : {S : Type 0} → Limiter S → ℕ → Request → S → Outcome NodeContext × S
  node_auth l now r s =
      let key = "node_token:" ++ r.client_ip in
      node_check l now key r (block_auth_attempt l key now s)
