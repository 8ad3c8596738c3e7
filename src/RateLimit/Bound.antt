-- ===== src/RateLimit/Bound.antt =====
-- The in-memory limiter never admits more than the allowed number of attempts in a window.
use admirald.Shared.{
  ℕ, ◌≤◌, ◌≡◌, Bool, true, false, ap, ◌∙◌, eq_iff, if◌then◌else◌, refl, inl, inr, ltb, leb, String,
  List, [], ◌∷◌, ◌++◌, arith, ◌==◌, length, length-append, length-keep, Bool-cases,
}
use admirald.RateLimit.Memory.{
  Buckets, new_rate_limiter, is_recent, recent, set_bucket, remove_expired, allow, reset,
}
use admirald.RateLimit.Window.{
  Call, allow_at, blocked_at, reset_at, time_of, IsOrdered, step, spec_step, Agree, step-agrees,
}

-- The buckets after a sequence of calls, and the full history of accepted attempts.
run : ℕ → ℕ → List Call → Buckets → Buckets
run m w [] b = b
run m w (c ∷ cs) b = run m w cs (step m w c b).1

spec_run : ℕ → ℕ → List Call → Buckets → Buckets
spec_run m w [] h = h
spec_run m w (c ∷ cs) h = spec_run m w cs (spec_step m w c h).1

abbrev IsCapped : ℕ → Buckets → Type 0
IsCapped m b = (k : String) → length (b k) ≤ m

module _ (m w t : ℕ) (b : Buckets) (capped : IsCapped m b) (key : String) where
  kept : String → List ℕ
  kept k = recent w t (recent w t (b k))

  kept-le : (k : String) → length (recent w t (b k)) ≤ m
  kept-le k = omega (arith, length-keep {0} (is_recent w t) (b k), capped k)

  kept_twice-le : (k : String) → length (recent w t (recent w t (b k))) ≤ m
  kept_twice-le k = omega (arith, length-keep {0} (is_recent w t) (recent w t (b k)), kept-le k)

  set_bucket-IsCapped :
      (entries : List ℕ)
      → length entries ≤ m
      → IsCapped m (set_bucket key entries (remove_expired w t b))
  unfolding set_bucket remove_expired
  set_bucket-IsCapped entries fits k = elim (Bool-cases (k == key)) [
    | inl hit ↦ rw hit fits
    | inr miss ↦ rw miss (kept-le k)
  ]

  allow-IsCapped : IsCapped m (allow key m w t b).1
  unfolding allow
  allow-IsCapped =
      let entries = recent w t (recent w t (b key)) in
      elim (Bool-cases (leb m (length entries))) [
        | inl full ↦ rw full (set_bucket-IsCapped entries (kept_twice-le key))
        | inr room ↦ rw room (
            set_bucket-IsCapped (entries ++ t ∷ [])
              (rw (length-append entries (t ∷ [])) (ground arith)))
      ]

  blocked-IsCapped : IsCapped m (step m w (blocked_at key t) b).1
  unfolding step
  blocked-IsCapped =
      let entries = recent w t (recent w t (b key)) in
      elim (Bool-cases (ltb (length entries) m)) [
        | inl room ↦ rw room (set_bucket-IsCapped entries (kept_twice-le key))
        | inr full ↦ rw full (set_bucket-IsCapped entries (kept_twice-le key))
      ]

  reset-IsCapped : IsCapped m (reset key b)
  unfolding reset set_bucket
  reset-IsCapped k = elim (Bool-cases (k == key)) [
    | inl hit ↦ rw hit (omega arith)
    | inr miss ↦ rw miss (capped k)
  ]

step-IsCapped : (m w : ℕ) (c : Call) (b : Buckets) → IsCapped m b → IsCapped m (step m w c b).1
unfolding step
step-IsCapped m w (allow_at key t) b capped = allow-IsCapped m w t b capped key
step-IsCapped m w (blocked_at key t) b capped = blocked-IsCapped m w t b capped key
step-IsCapped m w (reset_at key t) b capped = reset-IsCapped m w t b capped key

-- The time of the last call.
abbrev pub last_time : ℕ → List Call → ℕ
last_time start [] = start
last_time start (c ∷ cs) = last_time (time_of c) cs

run_bound :
    (m w now : ℕ) (cs : List Call) (b h : Buckets) (key : String) (later : ℕ)
    → IsOrdered now cs
    → last_time now cs ≤ later
    → Agree w now b h
    → IsCapped m b
    → length (recent w later (spec_run m w cs h key)) ≤ m
unfolding run spec_run
run_bound m w now [] b h key later ordered last agree capped =
    rw (← agree.at key later last)
      (omega (arith, length-keep {0} (is_recent w later) (b key), capped key))
run_bound m w now (c ∷ cs) b h key later ordered last agree capped =
    let (_, next) = step-agrees m w now b h c ordered.0 agree in
    run_bound m w (time_of c) cs (step m w c b).1 (spec_step m w c h).1 key later ordered.1 last
      next (step-IsCapped m w c b capped)

-- A call's effect on the list of accepted attempts of a key: an attempt that the limiter let through is
-- added with its time, and a reset of the key empties the list.
noted : String → Call → Bool → List ℕ → List ℕ
noted key (allow_at k t) true times = if key == k then times ++ t ∷ [] else times
noted key (allow_at k t) false times = times
noted key (blocked_at k t) answer times = times
noted key (reset_at k t) answer times = if key == k then [] else times

-- The times of the attempts of a key that the limiter's own answers let through, since the last reset of
-- the key, over a sequence of calls.
pub let_through : ℕ → ℕ → String → List Call → Buckets → List ℕ → List ℕ
let_through m w key [] b times = times
let_through m w key (c ∷ cs) b times =
    let (answer, b') = step m w c b in let_through m w key cs b' (noted key c answer times)

noted-spec_step :
    (m w : ℕ) (key : String) (c : Call) (h : Buckets)
    → noted key c (spec_step m w c h).0 (h key) ≡ (spec_step m w c h).1 key
unfolding noted spec_step set_bucket
noted-spec_step m w key (allow_at k t) h = elim (Bool-cases (leb m (length (recent w t (h k))))) [
  | inl full ↦ rw full refl
  | inr room ↦ elim (Bool-cases (key == k)) [
    | inl same ↦
        let e : key ≡ k = (eq_iff key k).0 same in rw (room, same) (ap (λ x. h x ++ t ∷ []) e)
    | inr other ↦ rw (room, other) refl
  ]
]
noted-spec_step m w key (blocked_at k t) h = refl
noted-spec_step m w key (reset_at k t) h = refl

let_through-spec_run :
    (m w now : ℕ) (key : String) (cs : List Call) (b h : Buckets) (times : List ℕ)
    → IsOrdered now cs
    → Agree w now b h
    → times ≡ h key
    → let_through m w key cs b times ≡ spec_run m w cs h key
unfolding let_through spec_run
let_through-spec_run m w now key [] b h times ordered agree same = same
let_through-spec_run m w now key (c ∷ cs) b h times ordered agree same =
    let (answers, next) = step-agrees m w now b h c ordered.0 agree in
    let_through-spec_run m w (time_of c) key cs (step m w c b).1 (spec_step m w c h).1
      (noted key c (step m w c b).0 times) ordered.1 next
      (ap (λ a. noted key c a times) answers
        ∙ ap (noted key c (spec_step m w c h).0) same
        ∙ noted-spec_step m w key c h)

-- Over any calls of a new limiter at times that do not go back, the attempts of a key that `Allow` let
-- through since the key's last reset and that lie within one window, reckoned at any time from the last
-- call on, are at most the allowed number.
pub accepted_in_window :
    (max_attempts window start : ℕ) (cs : List Call) (key : String) (later : ℕ)
    → IsOrdered start cs
    → last_time start cs ≤ later
    → length (recent window later (let_through max_attempts window key cs new_rate_limiter []))
      ≤ max_attempts
unfolding new_rate_limiter
accepted_in_window m w start cs key later ordered last =
    rw
      (let_through-spec_run m w start key cs new_rate_limiter new_rate_limiter [] ordered
        (record { at = λ k l h. refl }) refl)
      (run_bound m w start cs new_rate_limiter new_rate_limiter key later ordered last
        (record { at = λ k l h. refl }) (λ k. omega arith))
