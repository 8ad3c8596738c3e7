-- ===== src/Auth/NodeAdmits.antt =====
-- Which requests the middleware of nodes lets through.
use admirald.Shared.{
  ℕ, ◌+◌, ◌*◌, ◌≤◌, ◌≡◌, ◌≢◌, ◌↔◌, ◌⊎◌, refl, inl, inr, true, false, none, some, String, arith,
  eq_iff, Option-cases,
}
use Prim.Native.String.{◌++◌}
use admirald.RateLimit.Interface.{Limiter, second}
use admirald.Auth.Request.{Request, request_token, passed}
use admirald.Auth.Failures.{IsOpen, check_iff, asked}
use admirald.Auth.Node.{
  Setup, TokenRow, NodeContext, token_identifier_of, is_expired, callback_accepted, callback_path,
  callback_window, positive_int64, signature_valid, configured_key, row_check, node_check,
  node_auth, get_node_token,
}

-- The token `t` that a request carries lets it through.
pub record NodeAdmits (setup : Setup) (now : ℕ) (r : Request) (t : TokenRow) : Type 0 where
  pub enabled : t.manual_disabled ≡ false
  pub live : (t.token_status ≡ "active") ⊎ (t.token_status ≡ "consumed")
  pub unexpired : is_expired setup now t ≡ false
  pub typed : (setup.expected_token_type ≡ "") ⊎ (t.token_type ≡ setup.expected_token_type)
  pub secret : setup.crypto.bcrypt_matches t.token_hash (request_token r) ≡ true
  pub from_vpn :
      (setup.dev_bypass ≡ true) ⊎ ((t.wireguard_ip ≢ "") × (r.client_ip ≡ t.wireguard_ip))
  pub signed : r.path ≡ callback_path → callback_accepted setup now r ≡ true

-- The row of the request's token lets it through, and the handler is told that node.
pub record NodeAdmitted (setup : Setup) (now : ℕ) (r : Request) (c : NodeContext) : Type 0 where
  pub present : request_token r ≢ ""
  pub up : setup.up ≡ true
  pub row : TokenRow
  pub found : get_node_token setup (token_identifier_of setup (request_token r)) ≡ some row
  pub admits : NodeAdmits setup now r row
  pub told : c ≡ record { node_id = row.node_id; token_type = row.token_type }

module _ (setup : Setup) {S : Type 0} (l : Limiter S) (now : ℕ) (key : String) (r : Request) where
  -- What the handler is told about the node.
  abbrev context_of : TokenRow → NodeContext
  context_of t = record { node_id = t.node_id; token_type = t.token_type }

  row_check_iff :
      (t : TokenRow) (s : S) (c : NodeContext)
      → ((row_check setup l now key r t s).0 ≡ passed c)
        ↔ (NodeAdmits setup now r t × (c ≡ context_of t))
  unfolding row_check
  row_check_iff t s c =
      let e1 = eq_iff t.token_status "active" in
      let e2 = eq_iff t.token_status "consumed" in
      let e3 = eq_iff setup.expected_token_type "" in
      let e4 = eq_iff t.token_type setup.expected_token_type in
      let e5 = eq_iff t.wireguard_ip "" in
      let e6 = eq_iff r.client_ip t.wireguard_ip in
      let e7 = eq_iff r.path callback_path in
      (
        λ h. (
          record {
            enabled = ground arith;
            live = ground arith;
            unexpired = ground arith;
            typed = ground arith;
            secret = ground arith;
            from_vpn = ground arith;
            signed = λ p. ground arith;
          },
          ground arith,
        ),
        λ v.
            let a1 = v.0.enabled in
            let a2 = v.0.live in
            let a3 = v.0.unexpired in
            let a4 = v.0.typed in
            let a5 = v.0.secret in
            let a6 = v.0.from_vpn in let a7 = v.0.signed in let same = v.1 in ground arith,
      )

  node_check_iff :
      (s : S) (c : NodeContext)
      → ((node_check setup l now key r (none, s)).0 ≡ passed c) ↔ NodeAdmitted setup now r c
  unfolding node_check
  node_check_iff s c =
      let blank = eq_iff (request_token r) "" in
      let identifier = token_identifier_of setup (request_token r) in
      (
        λ h. elim (Option-cases (get_node_token setup identifier)) [
          | inl missing ↦ absurd (ground (arith, missing))
          | inr (t, found) ↦
              let row : (row_check setup l now key r t s).0 ≡ passed c = ground (arith, found) in
              let (admits, told) = (row_check_iff t s c).0 row in
              record {
                present = ground arith;
                up = ground arith;
                row = t;
                found = found;
                admits = admits;
                told = told;
              }
        ],
        λ v.
            let present = v.present in
            let up = v.up in
            let found = v.found in
            let row : (row_check setup l now key r v.row s).0 ≡ passed c =
              (row_check_iff v.row s c).1 (v.admits, v.told) in
            ground arith,
      )

-- A request passes the middleware of nodes exactly where the limiter does not block its address, the
-- database answers, and the row of its token lets it through: the node is not disabled by hand, the
-- token is active or consumed, has not expired, has the route's type and the hash of the text that
-- was sent, the request comes from the node's WireGuard address (unless in the mode for one node),
-- and a callback is signed. The handler is told that node and that type.
pub node_auth_iff :
    (setup : Setup) {S : Type 0} (l : Limiter S) (now : ℕ) (r : Request) (s : S) (c : NodeContext)
    → ((node_auth setup l now r s).0 ≡ passed c)
      ↔ (IsOpen l ("node_token:" ++ r.client_ip) now s × NodeAdmitted setup now r c)
unfolding node_auth node_check
node_auth_iff setup l now r s c =
    let key = "node_token:" ++ r.client_ip in
    check_iff l key now s (node_check setup l now key r) (λ n s'. refl)
      (node_check_iff setup l now key r (asked l key now s) c)

-- With a configured key, a callback is accepted only if its time is within 15 minutes of the server's
-- and the header is the HMAC, under that key, of the time, a dot and the body.
pub callback_accepted-fresh :
    (setup : Setup) (now : ℕ) (r : Request) (key : String)
    → configured_key setup ≡ some key
    → callback_accepted setup now r ≡ true
    → (body : String) × (signed_at : ℕ) × (r.body ≡ some body)
      × (positive_int64 r.task_timestamp ≡ some signed_at)
      × (now ≤ signed_at * second + callback_window)
      × (signed_at * second ≤ now + callback_window)
      × (signature_valid setup key (r.task_timestamp ++ "." ++ body) r.task_signature ≡ true)
unfolding callback_accepted
callback_accepted-fresh setup now r key configured h = elim (Option-cases r.body) [
  | inl unread ↦ absurd (ground (arith, unread))
  | inr (body, read) ↦ elim (Option-cases (positive_int64 r.task_timestamp)) [
    | inl untimed ↦ absurd (ground (arith, read, configured, untimed))
    | inr (signed_at, timed) ↦ (
      body,
      signed_at,
      read,
      timed,
      ground (arith, read, configured, timed),
      ground (arith, read, configured, timed),
      ground (arith, read, configured, timed),
    )
  ]
]
