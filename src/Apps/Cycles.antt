-- ===== src/Apps/Cycles.antt =====
-- validateDependencyCycles of pkg/admiral/validation.go: the search for a cycle among the services of an
-- application. The depth of the calls is bounded by fuel; without it there is no answer. The map of
-- services is a list of its entries, in the order in which it is walked.
use admirald.Shared.{
  ℕ, zero, suc, Bool, true, false, not, Option, none, some, String, List, [], ◌∷◌, map, length, any,
  keep, if◌then◌else◌, ◌==◌, errorf, Result, ok, err,
}

-- The fields of `YAMLService` that the search reads.
pub record Service : Type 0 where
  pub name : String
  pub depends_on : List String
  pub requires : List String

-- `services[name].DependsOn`, where a name that is missing has none.
abbrev pub depends_on_of : String → List Service → List String
depends_on_of name [] = []
depends_on_of name (s ∷ ss) =
    let rest = depends_on_of name ss in if s.name == name then s.depends_on else rest

abbrev pub requires_of : String → List Service → List String
requires_of name [] = []
requires_of name (s ∷ ss) =
    let rest = requires_of name ss in if s.name == name then s.requires else rest

-- The maps `visited` and `inStack`, as the lists of the names that they hold true for.
pub record Marks : Type 0 where
  pub visited : List String
  pub in_stack : List String

pub data Search : Type 0 where
  done : Marks → Search
  cycle : String → Search
  out_of_fuel : Search

abbrev pub marked : String → List String → Bool
marked name names = any (λ n. n == name) names

abbrev pub enter : String → Marks → Marks
enter name m = record { visited = name ∷ m.visited; in_stack = name ∷ m.in_stack }

abbrev pub leave : String → Marks → Marks
leave name m = record m { in_stack = keep (λ n. not (n == name)) m.in_stack }

abbrev pub and_then : Search → (Marks → Search) → Search
and_then (done m) next = next m
and_then (cycle at) next = cycle at
and_then out_of_fuel next = out_of_fuel

-- One call after another, up to the first that fails.
unfoldable pub each_of : (String → Marks → Search) → List String → Marks → Search
each_of go [] m = done m
each_of go (n ∷ ns) m = let rest = each_of go ns in and_then (go n m) rest

unfoldable pub visit : List Service → ℕ → String → Marks → Search
visit services zero name m = out_of_fuel
visit services (suc fuel) name m =
    let go : String → Marks → Search = visit services fuel in
    elim (marked name m.in_stack) [
      | true ↦ cycle name
      | false ↦ elim (marked name m.visited) [
        | true ↦ done m
        | false ↦
            and_then
              (and_then (each_of go (depends_on_of name services) (enter name m))
                (each_of go (requires_of name services)))
              (λ after. done (leave name after))
      ]
    ]

abbrev pub names_of : List Service → List String
names_of services = map (λ s. s.name) services

-- The result of a search; `none` is one that ran out of fuel.
abbrev pub verdict : Search → Option (Result (Unit {0}))
verdict (done m) = some (ok tt)
verdict (cycle at) = some (err (errorf "service dependency cycle detected involving %q" (at ∷ [])))
verdict out_of_fuel = none

abbrev pub unmarked : Marks
unmarked = record { visited = []; in_stack = [] }

unfoldable pub validate_dependency_cycles : List Service → Option (Result (Unit {0}))
validate_dependency_cycles services =
    verdict (each_of (visit services (suc (length services))) (names_of services) unmarked)
