-- ===== src/Apps/Reaches.antt =====
-- The graph of services, and what membership tests of names decide.
use mathlib.Core.Path.{subst}
use admirald.Shared.{
  ◌≡◌, ◌⊎◌, refl, sym, inl, inr, true, false, not, String, List, [], ◌∷◌, keep, arith, In, ◌==◌,
  eq_iff, Bool-cases,
}
use admirald.Apps.Cycles.{Service, depends_on_of, requires_of, marked, names_of}

module _ (services : List Service) where
  abbrev pub IsEdge : String → String → Type 0
  IsEdge a b = In b (depends_on_of a services) ⊎ In b (requires_of a services)

  -- A path of at least one edge.
  pub data Reaches (a : String) : String → Type 0 where
    one : {b : String} → IsEdge a b → Reaches a b
    onward : {b c : String} → Reaches a b → IsEdge b c → Reaches a c

  -- No endless walk starts here.
  pub data IsSafe : String → Type 0 where
    safe : (a : String) → ((b : String) → IsEdge a b → IsSafe b) → IsSafe a

  -- The first edge of a cycle, turned to a cycle through its end.
  data Turned (a c : String) : Type 0 where
    turned : (b : String) → IsEdge a b → ((b ≡ c) ⊎ Reaches b c) → Turned a c

  first_edge : (a c : String) → Reaches a c → Turned a c
  first_edge a c (one e) = turned c e (inl refl)
  first_edge a c (onward {b = m} p f) = elim (first_edge a m p) [
    | turned b e (inl same) ↦ turned b e (inr (one (rw same f)))
    | turned b e (inr q) ↦ turned b e (inr (onward q f))
  ]

  pub safe_no_cycle : (a : String) → IsSafe a → Reaches a a → ⊥
  safe_no_cycle a (safe _ next) p = elim (first_edge a a p) [
    | turned b e (inl same) ↦ safe_no_cycle b (next b e) (subst (λ x. Reaches x x) (sym same) p)
    | turned b e (inr q) ↦ safe_no_cycle b (next b e) (onward q e)
  ]

pub marked-In : (name : String) (names : List String) → marked name names ≡ true → In name names
marked-In name [] h = cc
marked-In name (n ∷ ns) h =
    let rest = marked-In name ns in
    let same = eq_iff n name in
    elim (Bool-cases (n == name)) [
      | inl hit ↦ inl (sym (same.0 hit))
      | inr miss ↦ inr (rest (ground arith))
    ]

pub In-marked : (name : String) (names : List String) → In name names → marked name names ≡ true
In-marked name [] m = absurd m
In-marked name (n ∷ ns) (inl e) = rw ((eq_iff n name).1 (sym e)) refl
In-marked name (n ∷ ns) (inr m) = let rest = In-marked name ns m in ground arith

-- Removing a name that is not there.
pub keep_others :
    (name : String) (names : List String)
    → marked name names ≡ false
    → keep (λ n. not (n == name)) names ≡ names
keep_others name [] h = refl
keep_others name (n ∷ ns) h =
    let miss : n == name ≡ false = ground arith in
    let rest = keep_others name ns (ground arith) in rw (miss, rest) refl

-- A name without a service has no edges.
pub depends_on_of-missing :
    (name : String) (services : List Service)
    → marked name (names_of services) ≡ false
    → depends_on_of name services ≡ []
depends_on_of-missing name [] h = refl
depends_on_of-missing name (s ∷ ss) h =
    let miss : s.name == name ≡ false = ground arith in
    rw miss (depends_on_of-missing name ss (ground arith))

pub requires_of-missing :
    (name : String) (services : List Service)
    → marked name (names_of services) ≡ false
    → requires_of name services ≡ []
requires_of-missing name [] h = refl
requires_of-missing name (s ∷ ss) h =
    let miss : s.name == name ≡ false = ground arith in
    rw miss (requires_of-missing name ss (ground arith))
