-- ===== src/RateLimit/Memory.antt =====
-- `RateLimiter` of internal/api/middleware.go: for each key the times of its recent attempts. A key
-- that the map lacks reads as an empty list, so the map is a function.
use admirald.Shared.{
  ℕ, ◌+◌, ◌-◌, ltb, leb, Bool, true, false, String, List, [], ◌∷◌, ◌++◌, if◌then◌else◌, ◌==◌, keep,
  length,
}
use admirald.RateLimit.Interface.{Limiter, second}

abbrev pub Buckets : Type 0
Buckets = String → List ℕ

unfoldable pub new_rate_limiter : Buckets
new_rate_limiter key = []

-- `t.After(now.Add(-window))`
abbrev pub is_recent : ℕ → ℕ → ℕ → Bool
is_recent window now t = ltb now (t + window)

abbrev pub recent : ℕ → ℕ → List ℕ → List ℕ
recent window now = keep (is_recent window now)

unfoldable pub set_bucket : String → List ℕ → Buckets → Buckets
set_bucket key entries b k = if k == key then entries else b k

-- Every bucket keeps its recent entries; deleting a key whose bucket is empty shows nowhere.
unfoldable pub remove_expired : ℕ → ℕ → Buckets → Buckets
remove_expired window now b key = recent window now (b key)

unfoldable pub allow : String → ℕ → ℕ → ℕ → Buckets → Bool × Buckets
unfolding remove_expired set_bucket
allow key max_attempts window now b =
    let b' = remove_expired window now b in
    let entries = recent window now (b' key) in
    if leb max_attempts (length entries)
    then (false, set_bucket key entries b')
    else (true, set_bucket key (entries ++ now ∷ []) b')

-- `window - now.Sub(recent[0])`, which is `recent[0] + window - now`; at least a second. The source
-- indexes `recent[0]` only where the bucket is full; with a maximum of 0 it panics on an empty one,
-- and no caller passes 0.
abbrev retry_after : ℕ → ℕ → List ℕ → ℕ
retry_after window now [] = second
retry_after window now (t ∷ ts) = let d = t + window - now in if ltb d second then second else d

unfoldable pub is_blocked : String → ℕ → ℕ → ℕ → Buckets → Bool × ℕ × Buckets
unfolding remove_expired set_bucket
is_blocked key max_attempts window now b =
    let b' = remove_expired window now b in
    let entries = recent window now (b' key) in
    let b'' = set_bucket key entries b' in
    if ltb (length entries) max_attempts
    then (false, 0, b'')
    else (true, retry_after window now entries, b'')

unfoldable pub reset : String → Buckets → Buckets
unfolding set_bucket
reset key = set_bucket key []

abbrev pub memory_limiter : Limiter Buckets
memory_limiter = record { allow = allow; is_blocked = is_blocked; reset = reset }
