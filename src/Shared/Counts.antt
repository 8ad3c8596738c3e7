-- ===== src/Shared/Counts.antt =====
-- How many rows of a table pass a test, before and after an update.
use Prim.Native.Nat.{ℕ, ◌≤◌, ◌<◌}
use mathlib.Core.Path.{◌≡◌, refl}
use mathlib.Core.Logic.{inl, inr}
use mathlib.Core.Bool.{Bool, true, false}
use mathlib.Core.List.{List, [], ◌∷◌}
use native.Mathlib.Omega.{arith}
use admirald.Shared.Tests.{Bool-cases}
use admirald.Shared.Lists.{In, keep, length}
use admirald.Shared.Rows.{update_where}

abbrev pub count_where : {A : Type 0} → (A → Bool) → List A → ℕ
count_where v xs = length (keep v xs)

-- An update that makes no row pass does not raise the count.
pub count_where-update_where :
    {A : Type 0} (v p : A → Bool) (f : A → A) (xs : List A)
    → ((x : A) → In x xs → p x ≡ true → v (f x) ≡ true → v x ≡ true)
    → count_where v (update_where p f xs) ≤ count_where v xs
unfolding update_where
count_where-update_where v p f [] h = omega arith
count_where-update_where v p f (x ∷ xs) h =
    let rest = count_where-update_where v p f xs (λ y m. h y (inr m)) in
    let here = h x (inl refl) in
    elim (Bool-cases (p x)) [
      | inl hit ↦ elim (Bool-cases (v (f x))) [
        | inl passes ↦ rw (hit, passes, here hit passes) (omega (arith, rest))
        | inr fails ↦ elim (Bool-cases (v x)) [
          | inl passed ↦ rw (hit, fails, passed) (omega (arith, rest))
          | inr failed ↦ rw (hit, fails, failed) rest
        ]
      ]
      | inr miss ↦ elim (Bool-cases (v x)) [
        | inl passed ↦ rw (miss, passed) (omega (arith, rest))
        | inr failed ↦ rw (miss, failed) rest
      ]
    ]

-- It lowers the count if a row that passed fails after it.
pub count_where-update_where_one :
    {A : Type 0} (v p : A → Bool) (f : A → A) (xs : List A) (c : A)
    → ((x : A) → In x xs → p x ≡ true → v (f x) ≡ true → v x ≡ true)
    → In c xs
    → p c ≡ true
    → v c ≡ true
    → v (f c) ≡ false
    → count_where v (update_where p f xs) < count_where v xs
unfolding update_where
count_where-update_where_one v p f [] c h m hit passed fails = absurd m
count_where-update_where_one v p f (x ∷ xs) c h (inl e) hit passed fails =
    let rest = count_where-update_where v p f xs (λ y m. h y (inr m)) in
    rw (← e, hit, fails, passed) (omega (arith, rest))
count_where-update_where_one v p f (x ∷ xs) c h (inr m) hit passed fails =
    let rest = count_where-update_where_one v p f xs c (λ y n. h y (inr n)) m hit passed fails in
    let here = h x (inl refl) in
    elim (Bool-cases (p x)) [
      | inl change ↦ elim (Bool-cases (v (f x))) [
        | inl passes ↦ rw (change, passes, here change passes) (omega (arith, rest))
        | inr stops ↦ elim (Bool-cases (v x)) [
          | inl before ↦ rw (change, stops, before) (omega (arith, rest))
          | inr after ↦ rw (change, stops, after) rest
        ]
      ]
      | inr miss ↦ elim (Bool-cases (v x)) [
        | inl before ↦ rw (miss, before) (omega (arith, rest))
        | inr after ↦ rw (miss, after) rest
      ]
    ]

-- A row that an update misses is still there.
pub In-update_where_miss :
    {A : Type 0} (p : A → Bool) (f : A → A) (x : A) (xs : List A)
    → In x xs
    → p x ≡ false
    → In x (update_where p f xs)
unfolding update_where
In-update_where_miss p f x [] m miss = absurd m
In-update_where_miss p f x (y ∷ ys) (inl e) miss = inl (rw (← e, miss) refl)
In-update_where_miss p f x (y ∷ ys) (inr m) miss = inr (In-update_where_miss p f x ys m miss)
