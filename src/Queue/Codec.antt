-- ===== src/Queue/Codec.antt =====
-- The stored form of a task: `signPayload`, `sealPayload` and `openPayload` of
-- internal/queue/queue.go. JSON, base64, AES-GCM and Ed25519 are parameters.
use admirald.Shared.{
  ℕ, ◌≡◌, ◌≢◌, Bool, true, Option, none, some, inl, inr, Option-cases, String, List, [], ◌++◌,
  arith, length, take, drop, ltb, if◌then◌else◌, Result, ok, err, errorf, ◌>>=◌, nat_beq, ◌==◌,
  eq_iff, take-length_append, drop-length_append, length-append,
}
use admirald.Queue.Command.{FleetTask}

-- What the standard library and the JSON encoder provide.
pub record Codec : Type 0 where
  pub marshal_task : FleetTask → List ℕ
  pub unmarshal_task : List ℕ → Option FleetTask
  -- `{"ct": base64}`, and its base64 text read back.
  pub marshal_wrapper : List ℕ → List ℕ
  pub unmarshal_wrapper : List ℕ → Option (List ℕ)
  pub base64_encode : List ℕ → List ℕ
  pub base64_decode : List ℕ → Option (List ℕ)
  -- `aes.NewCipher` and `cipher.NewGCM` accept the key.
  pub key_accepted : List ℕ → Bool
  pub nonce_size : ℕ
  -- AES-GCM under a key and a nonce, without the nonce in front.
  pub gcm_seal : List ℕ → List ℕ → List ℕ → List ℕ
  pub gcm_open : List ℕ → List ℕ → List ℕ → Option (List ℕ)
  -- The decimal text of a timestamp, and the hexadecimal Ed25519 signature of a message.
  pub decimal : ℕ → List ℕ
  pub sign : List ℕ → String

-- `signPayload`: the message is the payload followed by the decimal timestamp.
unfoldable pub sign_payload : Codec → List ℕ → ℕ → String
sign_payload c payload timestamp = c.sign (payload ++ c.decimal timestamp)

-- `sealPayload`; `nonce` is what the random reader fills in.
unfoldable pub seal_payload : Codec → List ℕ → List ℕ → List ℕ → Result (List ℕ)
seal_payload c key nonce plaintext =
    if nat_beq (length key) 0
    then ok plaintext
    else if c.key_accepted key
    then ok (c.marshal_wrapper (c.base64_encode (nonce ++ c.gcm_seal key nonce plaintext)))
    else err (errorf "create cipher: %w" [])

abbrev pub or_error {ℓ} : {A : Type ℓ} → Option A → String → Result A
or_error none f = err (errorf f [])
or_error (some a) f = ok a

-- `openPayload`
unfoldable pub open_payload : Codec → List ℕ → List ℕ → Result (List ℕ)
open_payload c key text =
    if nat_beq (length key) 0
    then err (errorf "task is encrypted but no encryption key configured" [])
    else do
      ciphertext ← or_error (c.base64_decode text) "decode base64 ciphertext: %w"
      if c.key_accepted key
          then (if ltb (length ciphertext) c.nonce_size
              then err (errorf "ciphertext too short" [])
              else or_error
                  (c.gcm_open key (take c.nonce_size ciphertext) (drop c.nonce_size ciphertext))
                  "decrypt payload: %w")
          else err (errorf "create cipher: %w" [])

-- The wrapped form of a payload, in `claimTask`.
decode_sealed : Codec → List ℕ → List ℕ → Result FleetTask
unfolding open_payload
decode_sealed c key payload = do
  text ← or_error (c.unmarshal_wrapper payload) "decode command payload: %w"
  if nat_beq (length text) 0 then err (errorf "decode command payload: %w" []) else do
    plaintext ← open_payload c key text
    or_error (c.unmarshal_task plaintext) "decode decrypted command payload: %w"

-- A plain task document is taken as it is; anything without a task ID must be wrapped.
unfoldable pub decode_payload : Codec → List ℕ → List ℕ → Result FleetTask
unfolding decode_sealed
decode_payload c key payload = elim (c.unmarshal_task payload) [
  | none ↦ decode_sealed c key payload
  | some t ↦ if t.task_id == "" then decode_sealed c key payload else ok t
]

-- What the encoders guarantee of a task: each decoder reads what its encoder wrote, a sealed text opens under
-- the same key and nonce, a wrapper is no task document, and base64 text is not empty.
pub record IsSound (c : Codec) (t : FleetTask) : Type 0 where
  pub task_back : c.unmarshal_task (c.marshal_task t) ≡ some t
  pub wrapper_back : (b : List ℕ) → c.unmarshal_wrapper (c.marshal_wrapper b) ≡ some b
  pub wrapper_no_task :
      (b : List ℕ) (u : FleetTask)
      → c.unmarshal_task (c.marshal_wrapper b) ≡ some u
      → u.task_id ≡ ""
  pub base64_back : (b : List ℕ) → c.base64_decode (c.base64_encode b) ≡ some b
  pub base64_nonempty : (b : List ℕ) → b ≢ [] → length (c.base64_encode b) ≢ 0
  pub gcm_back :
      (key nonce plain : List ℕ) → c.gcm_open key nonce (c.gcm_seal key nonce plain) ≡ some plain

module _ (c : Codec) (t : FleetTask) (sound : IsSound c t) (key : List ℕ) where
  -- A wrapper is never mistaken for a plain task document.
  decode-wrapper :
      (b : List ℕ)
      → decode_payload c key (c.marshal_wrapper b) ≡ decode_sealed c key (c.marshal_wrapper b)
  unfolding decode_payload
  decode-wrapper b = elim (Option-cases (c.unmarshal_task (c.marshal_wrapper b))) [
    | inl e ↦ rw (e, decode_payload)
    | inr (u, e) ↦ rw (e, decode_payload, (eq_iff u.task_id "").1 (sound.wrapper_no_task b u e))
  ]

  open-box :
      (nonce plain : List ℕ)
      → length nonce ≡ c.nonce_size
      → c.key_accepted key ≡ true
      → length key ≢ 0
      → open_payload c key (c.base64_encode (nonce ++ c.gcm_seal key nonce plain)) ≡ ok plain
  unfolding open_payload
  open-box nonce plain size accepted keyed =
      let ct = c.gcm_seal key nonce plain in
      ground (
        arith,
        sound.base64_back (nonce ++ ct),
        sound.gcm_back key nonce plain,
        take-length_append nonce ct,
        drop-length_append nonce ct,
        length-append nonce ct,
      )

  decode-plain : t.task_id ≢ "" → decode_payload c key (c.marshal_task t) ≡ ok t
  unfolding decode_payload
  decode-plain has_id = ground (arith, sound.task_back, eq_iff t.task_id "")

  decode-box :
      (nonce : List ℕ)
      → length nonce ≡ c.nonce_size
      → c.key_accepted key ≡ true
      → length key ≢ 0
      → nonce ≢ []
      → let box = nonce ++ c.gcm_seal key nonce (c.marshal_task t) in
        decode_payload c key (c.marshal_wrapper (c.base64_encode box)) ≡ ok t
  unfolding decode_sealed
  decode-box nonce size accepted keyed filled =
      let box = nonce ++ c.gcm_seal key nonce (c.marshal_task t) in
      let text = c.base64_encode box in
      rw (decode-wrapper text) (
        ground (
          arith,
          sound.wrapper_back text,
          sound.task_back,
          open-box nonce (c.marshal_task t) size accepted keyed,
          sound.base64_nonempty box,
        ))

  -- A task stored by `seal_payload`, in the clear or encrypted, is read back as it was.
  pub decode-seal :
      (nonce stored : List ℕ)
      → length nonce ≡ c.nonce_size
      → nonce ≢ []
      → t.task_id ≢ ""
      → seal_payload c key nonce (c.marshal_task t) ≡ ok stored
      → decode_payload c key stored ≡ ok t
  unfolding seal_payload
  decode-seal nonce stored size filled has_id sealed =
      ground (arith, decode-plain has_id, decode-box nonce size)
