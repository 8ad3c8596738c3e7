-- ===== src/Provision/Replay.antt =====
-- internal/api/provision_idempotency.go: the key of a request, and the answer that repeats an earlier
-- one. SHA-256 in hexadecimal and the JSON of the request are parameters.
use Prim.Native.Char.{code}
use Prim.Native.String.{[], ◌∷◌}
use admirald.Shared.{
  ◌+◌, List, ℕ, Bool, false, not, ◌&&◌, ◌||◌, Option, none, some, String, ltb, leb, if◌then◌else◌,
  ◌==◌, errorf, Result, ok, err,
}
use admirald.Shared.Text.{trim_space, any_char}
use admirald.Provision.Requests.{ProvisionRequestRecord, Tables, get_provision_request}

-- No texts are quoted.
abbrev no_args : List String
no_args = List.[]

-- `unicode.IsControl`
abbrev pub is_control : ℕ → Bool
is_control c = ltb c 32 || leb 127 c && leb c 159

-- The number of bytes of a character in UTF-8.
abbrev pub rune_len : ℕ → ℕ
rune_len c = if ltb c 128 then 1 else if ltb c 2048 then 2 else if ltb c 65536 then 3 else 4

byte_len : String → ℕ
byte_len [] = 0
byte_len (c ∷ s) = rune_len (code c) + byte_len s

-- `ProvisionRequest` (pkg/admiral/types.go)
pub record ProvisionRequest : Type 0 where
  pub app_definition_name : String
  pub tier_name : String
  pub customer_id : String
  pub node_id : String
  pub logical_instance_id : String

pub record Fingerprints : Type 0 where
  pub hex_sha256 : String → String
  pub marshal : ProvisionRequest → String

-- What is written in answer to a request that was seen before.
pub data Answer : Type 0 where
  -- The stored status and body.
  replayed : ℕ → Option String → Answer
  -- Status 202 with the instance and the operation.
  processing : String → String → Answer
  -- Status 409.
  key_conflict : Answer

abbrev pub has_body : Option String → Bool
has_body none = false
has_body (some body) = not (body == "")

unfoldable pub write_provision_replay : ProvisionRequestRecord → Answer
write_provision_replay r =
    if ltb 0 r.response_status && has_body r.response_json
    then replayed r.response_status r.response_json
    else processing r.instance_id r.operation_id

unfoldable pub replay_provision_if_present : String → String → String → Tables → Option Answer
replay_provision_if_present customer_id key_hash request_hash t =
    elim (get_provision_request customer_id key_hash t) [
      | none ↦ none
      | some r ↦
          if not (r.request_hash == request_hash)
          then some key_conflict
          else some (write_provision_replay r)
    ]

module _ (prints : Fingerprints) where
  unfoldable pub provision_idempotency_key_hash : String → Result String
  unfolding byte_len
  provision_idempotency_key_hash text =
      let key = trim_space text in
      if (key == "") || ltb 255 (byte_len key)
      then err (errorf "Idempotency-Key must contain 1 to 255 bytes" no_args)
      else if any_char is_control key
      then err (errorf "Idempotency-Key must not contain control characters" no_args)
      else ok (prints.hex_sha256 key)

  abbrev pub provision_request_hash : ProvisionRequest → String
  provision_request_hash req = prints.hex_sha256 (prints.marshal req)
