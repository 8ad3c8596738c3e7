-- ===== src/Auth/Lockout.antt =====
-- How many wrong tokens an address may try at the middleware of the static admin token
-- (internal/api/middleware.go), behind the in-memory limiter.
use Prim.Native.Nat.{min}
use text.Mathlib.TextPositions.{eq_refl}
use admirald.RateLimit.Interface.{second}
use admirald.Shared.{
  ◌*◌, sym, map, ℕ, ◌+◌, ◌-◌, ◌≤◌, ◌<◌, ◌≡◌, ◌≢◌, refl, ap, ◌∙◌, inl, inr, ltb, leb, Bool, true,
  false, String, List, [], ◌∷◌, ◌++◌, arith, if◌then◌else◌, ◌==◌, eq_iff, length, length-append,
  All, All-append, Bool-cases,
}
use admirald.RateLimit.Memory
use admirald.RateLimit.Memory.{
  Buckets, memory_limiter, recent, is_recent, set_bucket, remove_expired,
}
use admirald.RateLimit.Budget.{true_count}
use admirald.Auth.Request.{Request, request_token, Outcome, refused, blocked_for}
use admirald.Auth.Failures.{
  block_auth_attempt, record_auth_failure, auth_failure_limit, auth_failure_window,
}
use admirald.Auth.Admin.{Authenticated, admin_auth, admin_check, admin_key}

abbrev pub is_refused : {A : Type 0} → Outcome A → Bool
is_refused (refused _) = true
is_refused _ = false

-- Status 429.
abbrev pub is_blocked_for : {A : Type 0} → Outcome A → Bool
is_blocked_for (blocked_for _) = true
is_blocked_for _ = false

-- The answers to requests, each at its time.
pub outcomes : String → List (ℕ × Request) → Buckets → List (Outcome Authenticated)
outcomes admin_token [] b = []
outcomes admin_token ((now, r) ∷ rest) b =
    let (outcome, b') = admin_auth memory_limiter admin_token now r b in
    outcome ∷ outcomes admin_token rest b'

recent-All :
    (window start now : ℕ) (entries : List ℕ)
    → now < start + window
    → All (λ t. start ≤ t) entries
    → recent window now entries ≡ entries
recent-All w start now [] fresh since = refl
recent-All w start now (t ∷ ts) fresh since =
    let keeps : is_recent w now t ≡ true = ground (arith, since.0) in
    rw keeps (ap (λ r. t ∷ r) (recent-All w start now ts fresh since.1))

module _ (key : String) (w start now : ℕ) (b : Buckets) (entries : List ℕ) (held : b key ≡ entries)
    (fresh : now < start + w) (since : All (λ t. start ≤ t) entries) (m : ℕ) where
  twice : recent w now (remove_expired w now b key) ≡ entries
  unfolding remove_expired
  twice = rw held (
      ap (recent w now) (recent-All w start now entries fresh since)
      ∙ recent-All w start now entries fresh since)

  blocked-full : (Memory.is_blocked key m w now b).0 ≡ leb m (length entries)
  unfolding Memory.is_blocked
  blocked-full = rw twice (ground arith)

  blocked-held : (Memory.is_blocked key m w now b).2 key ≡ entries
  unfolding Memory.is_blocked set_bucket
  blocked-held = rw twice (elim (Bool-cases (ltb (length entries) m)) [
    | inl room ↦ rw (room, eq_refl key) refl
    | inr full ↦ rw (full, eq_refl key) refl
  ])

  allow-held :
      ltb (length entries) m ≡ true → (Memory.allow key m w now b).1 key ≡ entries ++ now ∷ []
  unfolding Memory.allow set_bucket
  allow-held room =
      let open_still : leb m (length entries) ≡ false = ground arith in
      rw twice (rw (open_still, eq_refl key) refl)

-- Of `n` answers, so many are refusals of a token and all others are status 429.
abbrev pub IsTried : List (Outcome Authenticated) → ℕ → ℕ → Type 0
IsTried answers n budget =
    (true_count (map is_refused answers) ≡ min n budget)
    × (true_count (map is_blocked_for answers) ≡ n - min n budget)

module _ (admin_token : String) (key : String) (start : ℕ) where
  -- The requests come from one address, at times within one window, with wrong tokens.
  abbrev pub IsGuess : ℕ × Request → Type 0
  IsGuess (now, r) =
      (admin_key r ≡ key)
      × (request_token r ≢ admin_token)
      × (start ≤ now)
      × (now < start + 300 * second)

  -- One guess, with the entries that the limiter holds.
  admin_auth-guess :
      (now : ℕ) (r : Request) (b : Buckets) (entries : List ℕ)
      → IsGuess (now, r)
      → All (λ t. start ≤ t) entries
      → b key ≡ entries
      → (is_refused (admin_auth memory_limiter admin_token now r b).0
          ≡ ltb (length entries) auth_failure_limit)
        × (is_blocked_for (admin_auth memory_limiter admin_token now r b).0
            ≡ leb auth_failure_limit (length entries))
        × ((admin_auth memory_limiter admin_token now r b).1 key
            ≡ (if ltb (length entries) auth_failure_limit then entries ++ now ∷ [] else entries))
  unfolding admin_auth admin_check block_auth_attempt record_auth_failure
  admin_auth-guess now r b entries guess since held =
      let same = eq_iff (request_token r) admin_token in
      let full =
        blocked-full key auth_failure_window start now b entries held guess.3 since
          auth_failure_limit in
      let kept =
        blocked-held key auth_failure_window start now b entries held guess.3 since
          auth_failure_limit in
      let added =
        allow-held key auth_failure_window start now
          (Memory.is_blocked key auth_failure_limit auth_failure_window now b).2 entries kept
          guess.3 since auth_failure_limit in
      let full_not : ltb (length entries) auth_failure_limit ≡ true
          → leb auth_failure_limit (length entries) ≡ false =
        λ h. ground arith in
      let full_now : ltb (length entries) auth_failure_limit ≡ false
          → leb auth_failure_limit (length entries) ≡ true =
        λ h. ground arith in
      let wrong : (request_token r == admin_token) ≡ false = ground (arith, guess.1) in
      rw guess.0 (elim (Bool-cases (ltb (length entries) auth_failure_limit)) [
        | inl room ↦
            let none_yet : (Memory.is_blocked key auth_failure_limit auth_failure_window now b).0
                ≡ false =
              full ∙ ground arith in
            elim (Bool-cases (request_token r == "")) [
              | inl blank ↦ rw (none_yet, room, blank) (refl, sym (full_not room), added room)
              | inr sent ↦ rw (none_yet, room, sent, wrong) (refl, sym (full_not room), added room)
            ]
        | inr none_left ↦
            let shut : (Memory.is_blocked key auth_failure_limit auth_failure_window now b).0
                ≡ true =
              full ∙ ground arith in
            rw (shut, none_left) (refl, sym (full_now none_left), kept)
      ])

  guesses_from :
      (attempts : List (ℕ × Request)) (b : Buckets) (entries : List ℕ)
      → All IsGuess attempts
      → All (λ t. start ≤ t) entries
      → b key ≡ entries
      → IsTried (outcomes admin_token attempts b) (length attempts) (10 - length entries)
  unfolding outcomes
  guesses_from [] b entries guesses since held = (omega arith, omega arith)
  guesses_from ((now, r) ∷ rest) b entries guesses since held =
      let b' = (admin_auth memory_limiter admin_token now r b).1 in
      let (tried, stopped, left) = admin_auth-guess now r b entries guesses.0 since held in
      elim (Bool-cases (ltb (length entries) auth_failure_limit)) [
        | inl room ↦
            let more =
              guesses_from rest b' (entries ++ now ∷ []) guesses.1
                (All-append (λ t. start ≤ t) entries (now ∷ []) since (guesses.0.2, tt))
                (left ∙ rw room refl) in
            let grown = length-append entries (now ∷ []) in
            let more_tried = more.0 in
            let more_stopped = more.1 in
            let open_still : leb auth_failure_limit (length entries) ≡ false = ground arith in
            (
              rw (tried, room) (ground (arith, more_tried, grown)),
              rw (stopped, open_still) (ground (arith, more_stopped, grown)),
            )
        | inr none_left ↦
            let more = guesses_from rest b' entries guesses.1 since (left ∙ rw none_left refl) in
            let more_tried = more.0 in
            let more_stopped = more.1 in
            let shut : leb auth_failure_limit (length entries) ≡ true = ground arith in
            (
              rw (tried, none_left) (ground (arith, more_tried)),
              rw (stopped, shut) (ground (arith, more_stopped)),
            )
      ]

  -- Of the wrong tokens that one address sends to the middleware of the static admin token within one
  -- window of 300 seconds, from an address without failures, ten are looked at and refused, or all where
  -- they are fewer, and all others are answered by status 429.
  pub guesses_tested :
      (attempts : List (ℕ × Request)) (b : Buckets)
      → All IsGuess attempts
      → b key ≡ []
      → IsTried (outcomes admin_token attempts b) (length attempts) 10
  guesses_tested attempts b guesses clean = guesses_from attempts b [] guesses tt clean
