-- ===== src/Apps/Tests.antt =====
-- Runs of the check of dependencies.
use admirald.Shared.{◌≡◌, refl, some, List, [], ◌∷◌, ok, err, errorf}
use admirald.Apps.Cycles.{Service, each_of, visit, validate_dependency_cycles}
use admirald.Apps.Acyclic.{IsChecked, validate_dependency_cycles-IsChecked}

-- A diamond, which has no cycle although `db` is visited twice.
abbrev diamond : List Service
diamond =
    record { name = "web"; depends_on = "api" ∷ []; requires = "auth" ∷ [] }
    ∷ record { name = "api"; depends_on = "db" ∷ []; requires = [] }
    ∷ record { name = "auth"; depends_on = []; requires = "db" ∷ [] }
    ∷ record { name = "db"; depends_on = []; requires = [] }
    ∷ []

diamond_accepted : validate_dependency_cycles diamond ≡ some (ok tt)
unfolding validate_dependency_cycles each_of visit
diamond_accepted = refl

-- A cycle through both kinds of dependency.
abbrev loop : List Service
loop =
    record { name = "web"; depends_on = "api" ∷ []; requires = [] }
    ∷ record { name = "api"; depends_on = []; requires = "web" ∷ [] }
    ∷ []

loop_rejected :
    validate_dependency_cycles loop
    ≡ some (err (errorf "service dependency cycle detected involving %q" ("web" ∷ [])))
unfolding validate_dependency_cycles each_of visit
loop_rejected = refl

validate_dependency_cycles-IsChecked_example : IsChecked loop (validate_dependency_cycles loop)
validate_dependency_cycles-IsChecked_example = validate_dependency_cycles-IsChecked loop
