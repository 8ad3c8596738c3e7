-- ===== src/Apps/Terminates.antt =====
-- The search has enough fuel.
use mathlib.Core.Path.{subst}
use admirald.Shared.{
  ℕ, zero, suc, ◌≤◌, ◌<◌, ◌≡◌, refl, sym, ap, inl, inr, true, false, not, String, List, [], ◌∷◌,
  keep, length, length-keep, arith, ◌==◌, eq_iff, Bool-cases,
}
use admirald.Apps.Cycles.{
  Service, depends_on_of, requires_of, Marks, Search, done, cycle, out_of_fuel, marked, enter,
  leave, each_of, and_then, visit, names_of,
}
use admirald.Apps.Reaches.{depends_on_of-missing, requires_of-missing}

-- How many of the names are not visited yet.
abbrev pub left_over : List String → List String → ℕ
left_over visited names = length (keep (λ n. not (marked n visited)) names)

-- With more names visited, no more are left.
left_over_mono :
    (old new names : List String)
    → ((n : String) → marked n old ≡ true → marked n new ≡ true)
    → left_over new names ≤ left_over old names
left_over_mono old new [] h = omega arith
left_over_mono old new (n ∷ ns) h =
    let rest = left_over_mono old new ns h in let here = h n in ground arith

not_same : (a b : String) → a == b ≡ false → b == a ≡ false
not_same a b h = elim (Bool-cases (b == a)) [
  | inl hit ↦ let e = (eq_iff a b).1 (sym ((eq_iff b a).0 hit)) in cc
  | inr miss ↦ miss
]

left_over_enter :
    (name : String) (visited names : List String)
    → marked name names ≡ true
    → marked name visited ≡ false
    → left_over (name ∷ visited) names < left_over visited names
left_over_enter name visited [] h k = cc
left_over_enter name visited (n ∷ ns) h k =
    let rest = left_over_enter name visited ns in
    let mono = left_over_mono visited (name ∷ visited) ns (λ x m. ground arith) in
    elim (Bool-cases (n == name)) [
      | inl hit ↦
          let same = (eq_iff n name).0 hit in
          let back = (eq_iff name n).1 (sym same) in
          let new : marked n visited ≡ false = subst (λ x. marked x visited ≡ false) (sym same) k in
          ground arith
      | inr miss ↦
          let one = eq_iff n name in
          let other = eq_iff name n in
          let later = rest (ground arith) k in
          let apart : name == n ≡ false = not_same n name miss in ground arith
    ]

-- The search from these marks ends, with no fewer names visited.
pub data Ends (m : Marks) : Search → Type 0 where
  ends :
      (next : Marks)
      → ((n : String) → marked n m.visited ≡ true → marked n next.visited ≡ true)
      → Ends m (done next)
  stops : (at : String) → Ends m (cycle at)

-- Running out of fuel is no end.
abbrev InTime : Search → Type 0
InTime (done _) = Unit
InTime (cycle _) = Unit
InTime out_of_fuel = ⊥

in_time : (m : Marks) (s : Search) → Ends m s → InTime s
in_time m _ (ends next grown) = tt
in_time m _ (stops at) = tt

pub no_end : (m : Marks) → Ends m out_of_fuel → ⊥
no_end m e = in_time m out_of_fuel e

length-map_name : (services : List Service) → length (names_of services) ≡ length services
length-map_name [] = refl
length-map_name (s ∷ ss) = ap (λ n. suc n) (length-map_name ss)

Ends-more :
    (m next : Marks) (last : Search)
    → ((n : String) → marked n m.visited ≡ true → marked n next.visited ≡ true)
    → Ends next last
    → Ends m last
Ends-more m next _ grown (ends final more) = ends final (λ n h. more n (grown n h))
Ends-more m next _ grown (stops at) = stops at

module _ (services : List Service) where
  abbrev left : Marks → ℕ
  left m = left_over m.visited (names_of services)

  module _ (go : String → Marks → Search) (fuel : ℕ)
      (go_ends : (n : String) (m : Marks) → left m < fuel → Ends m (go n m)) where
    and_then-Ends :
        (m : Marks) (first : Search) (rest : Marks → Search)
        → left m < fuel
        → Ends m first
        → ((next : Marks) → left next < fuel → Ends next (rest next))
        → Ends m (and_then first rest)
    and_then-Ends m _ rest room (ends next grown) then_ends =
        let fewer = left_over_mono m.visited next.visited (names_of services) grown in
        Ends-more m next (rest next) grown (then_ends next (omega arith))
    and_then-Ends m _ rest room (stops at) then_ends = stops at

    each_of-Ends : (ns : List String) (m : Marks) → left m < fuel → Ends m (each_of go ns m)
    unfolding each_of
    each_of-Ends [] m room = ends m (λ n h. h)
    each_of-Ends (n ∷ ns) m room =
        and_then-Ends m (go n m) (each_of go ns) room (go_ends n m room)
          (λ next more. each_of-Ends ns next more)

  Ends-leave :
      (name : String) (m : Marks) (first : Search)
      → Ends m first
      → Ends m (and_then first (λ after. done (leave name after)))
  Ends-leave name m _ (ends next grown) = ends (leave name next) grown
  Ends-leave name m _ (stops at) = stops at

  -- A name that is not visited: with a service, one name less is left; without one, nothing is called.
  visit-Ends_new :
      (fuel : ℕ) (name : String) (m : Marks)
      → left m < suc fuel
      → marked name m.visited ≡ false
      → ((n : String) (k : Marks) → left k < fuel → Ends k (visit services fuel n k))
      → Ends m (
          and_then
            (and_then
              (each_of (visit services fuel) (depends_on_of name services) (enter name m))
              (each_of (visit services fuel) (requires_of name services)))
            (λ after. done (leave name after)))
  unfolding each_of
  visit-Ends_new fuel name m room new go_ends =
      let grown : (n : String) → marked n m.visited ≡ true → marked n (name ∷ m.visited) ≡ true =
        λ n h. ground arith in
      Ends-leave name m _ (
        Ends-more m (enter name m) _ grown (elim (Bool-cases (marked name (names_of services))) [
          | inl listed ↦
              let fewer = left_over_enter name m.visited (names_of services) listed new in
              and_then-Ends (visit services fuel) fuel go_ends (enter name m) _
                (each_of (visit services fuel) (requires_of name services)) (omega arith)
                (each_of-Ends (visit services fuel) fuel go_ends (depends_on_of name services)
                  (enter name m) (omega arith))
                (λ next more.
                  each_of-Ends (visit services fuel) fuel go_ends (requires_of name services) next
                    more)
          | inr missing ↦
              rw
                (
                  depends_on_of-missing name services missing,
                  requires_of-missing name services missing,
                )
                (ends (enter name m) (λ n h. h))
        ]))

  visit-Ends :
      (fuel : ℕ) (name : String) (m : Marks) → left m < fuel → Ends m (visit services fuel name m)
  unfolding visit
  visit-Ends zero name m room = absurd (omega arith)
  visit-Ends (suc fuel) name m room = elim (Bool-cases (marked name m.in_stack)) [
    | inl on_stack ↦ rw (visit, on_stack) (stops name)
    | inr off_stack ↦ elim (Bool-cases (marked name m.visited)) [
      | inl old ↦ rw (visit, off_stack, old) (ends m (λ n h. h))
      | inr new ↦
          rw (visit, off_stack, new)
            (visit-Ends_new fuel name m room new (λ n k more. visit-Ends fuel n k more))
    ]
  ]

  -- With one more than the number of services as fuel, the search of all services ends.
  pub each_of-visit-Ends :
      (m : Marks) → Ends m (each_of (visit services (suc (length services))) (names_of services) m)
  each_of-visit-Ends m =
      let bound = length-keep (λ n. not (marked n m.visited)) (names_of services) in
      let same = length-map_name services in
      each_of-Ends (visit services (suc (length services))) (suc (length services))
        (λ n k more. visit-Ends (suc (length services)) n k more) (names_of services) m
        (omega arith)
