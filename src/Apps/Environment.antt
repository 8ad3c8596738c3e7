-- ===== src/Apps/Environment.antt =====
-- validateEnvironmentMap and ValidateTierEnvironment of pkg/admiral/validation.go. A map is the list of
-- its entries, in the order in which it is walked; a nil map has none.
use mathlib.Core.Path.{subst}
use text.Mathlib.Text.{starts_with}
use admirald.Shared.{
  ℕ, ◌≡◌, ◌↔◌, refl, sym, ◌∙◌, inl, inr, Bool, true, false, not, ◌||◌, String, List, [], ◌∷◌, All,
  ◌==◌, eq_iff, nat_beq, Bool-cases, Result, ok, ◌>>◌, fail_if, fail_if-ok, not-false,
}
use admirald.Shared.Text.{is_upper, is_digit, named_like, named_like-empty}

-- `[A-Z_]` and `[A-Z0-9_]`
abbrev env_first : ℕ → Bool
env_first c = is_upper c || nat_beq c 95

abbrev env_rest : ℕ → Bool
env_rest c = is_upper c || is_digit c || nat_beq c 95

-- `envNamePattern`
abbrev pub env_name_matches : String → Bool
env_name_matches = named_like env_first env_rest

unfoldable pub validate_environment_map : String → List (String × String) → Result (Unit {0})
validate_environment_map scope [] = ok tt
validate_environment_map scope (entry ∷ rest) =
    let others = validate_environment_map scope rest in
    fail_if (entry.0 == "") "%s environment variable name is required" (scope ∷ [])
    >> (fail_if (not (env_name_matches entry.0))
          "%s environment variable %q is invalid, must match %s"
          (scope ∷ entry.0 ∷ "^[A-Z_][A-Z0-9_]*$" ∷ [])
        >> (fail_if (starts_with entry.0 "ADMIRAL_")
              "%s environment variable %q uses reserved ADMIRAL_ prefix" (scope ∷ entry.0 ∷ [])
            >> others))

-- `fmt.Sprintf("tier %q", tierName)` is a parameter.
abbrev pub validate_tier_environment :
    (String → String) → String → List (String × String) → Result (Unit {0})
validate_tier_environment quoted tier_name = validate_environment_map (quoted tier_name)

-- A name that may be set: it matches the pattern and has no reserved prefix.
abbrev pub IsSettable : String → Type 0
IsSettable name = (env_name_matches name ≡ true) × (starts_with name "ADMIRAL_" ≡ false)

true-false : true ≡ false → ⊥
true-false h = cc

-- An environment is accepted exactly if all of its names may be set.
pub validate_environment_map-All :
    (scope : String) (entries : List (String × String))
    → (validate_environment_map scope entries ≡ ok tt) ↔ All (λ e. IsSettable e.0) entries
unfolding validate_environment_map
validate_environment_map-All scope [] = ((λ h. tt), (λ h. refl))
validate_environment_map-All scope (entry ∷ rest) =
    let others = validate_environment_map-All scope rest in
    let name = entry.0 in
    let a = fail_if-ok (name == "") "%s environment variable name is required" (scope ∷ []) in
    let b =
      fail_if-ok (not (env_name_matches name))
        "%s environment variable %q is invalid, must match %s"
        (scope ∷ name ∷ "^[A-Z_][A-Z0-9_]*$" ∷ []) in
    let c =
      fail_if-ok (starts_with name "ADMIRAL_")
        "%s environment variable %q uses reserved ADMIRAL_ prefix" (scope ∷ name ∷ []) in
    (
      λ h.
          let (filled, h1) = (a _).0 h in
          let (matches, h2) = (b _).0 h1 in
          let (free, h3) = (c _).0 h2 in (((not-false matches), free), others.0 h3),
      λ h.
          let ((matches, free), all) = h in
          let filled : name == "" ≡ false = elim (Bool-cases (name == "")) [
            | inl empty ↦ absurd (
                true-false (
                  sym matches
                  ∙ subst (λ n. env_name_matches n ≡ false) (sym ((eq_iff name "").0 empty))
                      (named_like-empty env_first env_rest)))
            | inr filled ↦ filled
          ] in
          (a _).1 (filled, (b _).1 (rw matches refl, (c _).1 (free, others.1 all))),
    )
