-- ===== src/RateLimit/Window.antt =====
-- The in-memory limiter is a sliding window: it answers as if it kept every accepted attempt, and
-- admits at most the allowed number in any window.
use mathlib.Core.Path.{ap₂}
use admirald.Shared.{
  ℕ, ◌≤◌, ◌≡◌, refl, sym, ap, ◌∙◌, inl, inr, leb, Bool, true, false, String, List, [], ◌∷◌, ◌++◌,
  arith, if◌then◌else◌, ◌==◌, eq_iff, keep-append, length, Bool-cases,
}
use admirald.RateLimit.Memory.{
  Buckets, new_rate_limiter, is_recent, recent, set_bucket, remove_expired, allow, is_blocked,
  reset,
}

-- A call of the limiter, with its time.
pub data Call : Type 0 where
  allow_at : String → ℕ → Call
  blocked_at : String → ℕ → Call
  reset_at : String → ℕ → Call

abbrev pub time_of : Call → ℕ
time_of (allow_at k t) = t
time_of (blocked_at k t) = t
time_of (reset_at k t) = t

-- The times of the calls do not go back, from `start` on.
abbrev pub IsOrdered : ℕ → List Call → Type 0
IsOrdered start [] = Unit
IsOrdered start (c ∷ cs) = (start ≤ time_of c) × IsOrdered (time_of c) cs

module _ (max_attempts window : ℕ) where
  -- One call, and its answer; a reset answers nothing, shown here as `true`.
  unfoldable pub step : Call → Buckets → Bool × Buckets
  unfolding allow is_blocked reset
  step (allow_at k t) b = allow k max_attempts window t b
  step (blocked_at k t) b =
      let (blocked, _, b') = is_blocked k max_attempts window t b in (blocked, b')
  step (reset_at k t) b = (true, reset k b)

  -- The specification: `h k` holds every accepted attempt of the key since its last reset.
  unfoldable pub spec_step : Call → Buckets → Bool × Buckets
  unfolding set_bucket
  spec_step (allow_at k t) h =
      if leb max_attempts (length (recent window t (h k)))
      then (false, h)
      else (true, set_bucket k (h k ++ t ∷ []) h)
  spec_step (blocked_at k t) h = (leb max_attempts (length (recent window t (h k))), h)
  spec_step (reset_at k t) h = (true, set_bucket k [] h)

  unfoldable pub answers : List Call → Buckets → List Bool
  answers [] b = []
  answers (c ∷ cs) b = let (a, b') = step c b in a ∷ answers cs b'

  pub spec_answers : List Call → Buckets → List Bool
  spec_answers [] h = []
  spec_answers (c ∷ cs) h = let (a, h') = spec_step c h in a ∷ spec_answers cs h'

-- Dropping what has expired earlier does not change what is recent later.
recent-recent :
    (window now later : ℕ) (xs : List ℕ)
    → now ≤ later
    → recent window later (recent window now xs) ≡ recent window later xs
recent-recent window now later [] h = refl
recent-recent window now later (x ∷ xs) h =
    let rest = recent-recent window now later xs h in
    elim (Bool-cases (is_recent window now x)) [
      | inl fresh ↦ rw fresh (cc rest)
      | inr stale ↦
          let stale' : is_recent window later x ≡ false = ground arith in rw (stale, stale') rest
    ]

-- What the limiter holds and the full history look alike from `now` on.
pub record Agree (window now : ℕ) (b h : Buckets) : Type 0 where
  pub at :
      (k : String) (later : ℕ) → now ≤ later → recent window later (b k) ≡ recent window later (h k)

module _ (max_attempts window now t : ℕ) (b h : Buckets) (since : now ≤ t)
    (agree : Agree window now b h) (key : String) where
  -- The entries that a call at `t` finds under its key.
  entries : List ℕ
  unfolding remove_expired
  entries = recent window t (remove_expired window t b key)

  entries-recent : entries ≡ recent window t (h key)
  unfolding entries
  entries-recent = recent-recent window t t (b key) (omega arith) ∙ agree.at key t since

  -- The buckets after the call, if it leaves `e` under its key, and the history has `g` there.
  bucket-agrees :
      (e g : List ℕ)
      → ((later : ℕ) → t ≤ later → recent window later e ≡ recent window later g)
      → Agree window t (set_bucket key e (remove_expired window t b)) (set_bucket key g h)
  unfolding set_bucket remove_expired
  bucket-agrees e g same = record {
    at = λ k later l. elim (Bool-cases (k == key)) [
      | inl hit ↦ rw hit (same later l)
      | inr miss ↦ rw miss (recent-recent window t later (b k) l ∙ agree.at k later (omega arith))
    ];
  }

  -- The same where the history is left alone.
  bucket-agrees_same : Agree window t (set_bucket key entries (remove_expired window t b)) h
  unfolding set_bucket remove_expired entries
  bucket-agrees_same = record {
    at = λ k later l.
        let pruned = recent-recent window t later (b k) l ∙ agree.at k later (omega arith) in
        elim (Bool-cases (k == key)) [
          | inl hit ↦
              let same : k ≡ key = (eq_iff k key).0 hit in
              rw hit (rw (← same) (recent-recent window t later (recent window t (b k)) l ∙ pruned))
          | inr miss ↦ rw miss pruned
        ];
  }

  abbrev pruned : Buckets
  pruned = remove_expired window t b

  allow-eq : allow key max_attempts window t b ≡ (
      if leb max_attempts (length entries)
      then (false, set_bucket key entries pruned)
      else (true, set_bucket key (entries ++ t ∷ []) pruned))
  unfolding allow entries
  allow-eq = refl

  spec_allow-eq : spec_step max_attempts window (allow_at key t) h ≡ (
      if leb max_attempts (length entries)
      then (false, h)
      else (true, set_bucket key (h key ++ t ∷ []) h))
  unfolding spec_step
  spec_allow-eq = rw entries-recent

  -- An accepted attempt is added to both.
  entry-agrees :
      (later : ℕ)
      → t ≤ later
      → recent window later (entries ++ t ∷ []) ≡ recent window later (h key ++ t ∷ [])
  entry-agrees later l =
      keep-append (is_recent window later) entries (t ∷ [])
      ∙ ap (λ r. r ++ recent window later (t ∷ []))
          (ap (recent window later) entries-recent ∙ recent-recent window t later (h key) l)
      ∙ sym (keep-append (is_recent window later) (h key) (t ∷ []))

  allow-agrees :
      ((allow key max_attempts window t b).0 ≡ (spec_step max_attempts window (allow_at key t) h).0)
      × Agree window t
          (allow key max_attempts window t b).1
          (spec_step max_attempts window (allow_at key t) h).1
  allow-agrees =
      rw (allow-eq, spec_allow-eq)
        (elim (Bool-cases (leb max_attempts (length entries))) [
          | inl full ↦ rw full (refl, bucket-agrees_same)
          | inr room ↦
              rw room (refl, bucket-agrees (entries ++ t ∷ []) (h key ++ t ∷ []) entry-agrees)
        ])

  blocked-eq :
      step max_attempts window (blocked_at key t) b
      ≡ (leb max_attempts (length entries), set_bucket key entries pruned)
  unfolding step entries
  blocked-eq = ground arith

  blocked-agrees :
      ((step max_attempts window (blocked_at key t) b).0
        ≡ (spec_step max_attempts window (blocked_at key t) h).0)
      × Agree window t
          (step max_attempts window (blocked_at key t) b).1
          (spec_step max_attempts window (blocked_at key t) h).1
  unfolding spec_step
  blocked-agrees = rw blocked-eq (rw entries-recent refl, bucket-agrees_same)

reset-agrees :
    (window now t : ℕ) (b h : Buckets) (key : String)
    → now ≤ t
    → Agree window now b h
    → Agree window t (reset key b) (set_bucket key [] h)
unfolding reset set_bucket
reset-agrees window now t b h key since agree = record {
  at = λ k later l. elim (Bool-cases (k == key)) [
    | inl hit ↦ rw hit refl
    | inr miss ↦ rw miss (agree.at k later (omega arith))
  ];
}

pub step-agrees :
    (max_attempts window now : ℕ) (b h : Buckets) (c : Call)
    → now ≤ time_of c
    → Agree window now b h
    → ((step max_attempts window c b).0 ≡ (spec_step max_attempts window c h).0)
      × Agree window
          (time_of c)
          (step max_attempts window c b).1
          (spec_step max_attempts window c h).1
unfolding step spec_step
step-agrees m w now b h (allow_at k t) since agree = allow-agrees m w now t b h since agree k
step-agrees m w now b h (blocked_at k t) since agree = blocked-agrees m w now t b h since agree k
step-agrees m w now b h (reset_at k t) since agree = (refl, reset-agrees w now t b h k since agree)

answers-Agree :
    (max_attempts window now : ℕ) (b h : Buckets) (cs : List Call)
    → IsOrdered now cs
    → Agree window now b h
    → answers max_attempts window cs b ≡ spec_answers max_attempts window cs h
unfolding answers spec_answers
answers-Agree m w now b h [] ordered agree = refl
answers-Agree m w now b h (c ∷ cs) ordered agree =
    let (same, next) = step-agrees m w now b h c ordered.0 agree in
    ap₂ ◌∷◌ same
      (answers-Agree m w (time_of c) (step m w c b).1 (spec_step m w c h).1 cs ordered.1 next)

-- From a new limiter, any calls at times that do not go back are answered as if every accepted
-- attempt since a key's last reset had been kept: dropping expired entries, also those of other keys,
-- shows in no answer.
pub answers-eq-spec_answers :
    (max_attempts window start : ℕ) (cs : List Call)
    → IsOrdered start cs
    → answers max_attempts window cs new_rate_limiter
      ≡ spec_answers max_attempts window cs new_rate_limiter
answers-eq-spec_answers m w start cs ordered =
    answers-Agree m w start new_rate_limiter new_rate_limiter cs ordered
      (record { at = λ k later l. refl })
