-- ===== src/Nodes/Chosen.antt =====
-- The node that the selection chooses for an application.
use mathlib.Core.Path.{subst}
use admirald.Shared.{
  ℕ, ◌≡◌, refl, ◌⊎◌, In-append_one, In-append_old, In-append_new, inl, inr, ℤ, ◌≤ℤ◌, ◌<ℤ◌, true,
  false, some, String, List, [], ◌∷◌, ◌++◌, map, arith, ◌==◌, eq_iff, In, All, find, Bool-cases,
  All-map,
}
use admirald.Nodes.Node.{Node}
use admirald.Nodes.Capacity.{Floats}
use admirald.Nodes.Policy.{Evaluation, evaluate_node_for_tier}
use admirald.Nodes.Select.{is_better, is_wanted}
use admirald.Nodes.Fits.{Fits}
use admirald.Nodes.Sorted.{find-append_miss}

-- Not more memory left, and with the same memory not more storage.
abbrev pub IsBelow : Evaluation → Evaluation → Type 0
IsBelow e b =
    (e.remaining_ram <ℤ b.remaining_ram)
    ⊎ ((e.remaining_ram ≤ℤ b.remaining_ram)
        × (b.remaining_ram ≤ℤ e.remaining_ram)
        × (e.remaining_disk ≤ℤ b.remaining_disk))

IsBelow-refl : (e : Evaluation) → IsBelow e e
IsBelow-refl e = ground arith

pub IsBelow-trans : (a b c : Evaluation) → IsBelow a b → IsBelow b c → IsBelow a c
IsBelow-trans a b c h k = ground arith

pub is_better-true :
    (chosen : String) (e b : Evaluation) → is_better chosen e b ≡ true → IsBelow b e
unfolding is_better
is_better-true chosen e b h = ground arith

pub is_better-false :
    (chosen : String) (e b : Evaluation) → is_better chosen e b ≡ false → IsBelow e b
unfolding is_better
is_better-false chosen e b h = ground arith

module _ {F : Type 0} (fl : Floats F) (now : ℕ) (requested : String) (ram disk : ℤ) where
  -- A node that was asked for and can take the application.
  abbrev pub IsCandidate : Node → Type 0
  IsCandidate n = (is_wanted fl now requested ram disk n ≡ true) × Fits fl now n ram disk

  abbrev pub eval : Node → Evaluation
  eval n = evaluate_node_for_tier fl now n ram disk

  -- The best of the candidates in a list.
  pub record IsBest (nodes : List Node) (n : Node) : Type 0 where
    pub listed : In n nodes
    pub candidate : IsCandidate n
    pub best : (m : Node) → In m nodes → IsCandidate m → IsBelow (eval m) (eval n)

  -- Either no node is chosen and there is no candidate, or it is the best candidate.
  pub data IsChoice (nodes : List Node) (chosen : String) : Type 0 where
    nobody : chosen ≡ "" → ((m : Node) → In m nodes → IsCandidate m → ⊥) → IsChoice nodes chosen
    somebody : (n : Node) → n.id ≡ chosen → IsBest nodes n → IsChoice nodes chosen

  -- The same of the loop's state after the nodes `seen`, where the chosen evaluation is on record.
  pub data Loop (seen : List Node) (chosen : String) (evaluations : List Evaluation) : Type 0 where
    idle : chosen ≡ "" → ((m : Node) → In m seen → IsCandidate m → ⊥) → Loop seen chosen evaluations
    busy :
        (n : Node)
        → n.id ≡ chosen
        → IsBest seen n
        → find (λ e. e.node_id == chosen) evaluations ≡ some (eval n)
        → Loop seen chosen evaluations

  pub eval_id : (n : Node) → (eval n).node_id ≡ n.id
  unfolding evaluate_node_for_tier
  eval_id n = refl

  -- A node that is no candidate changes nothing.
  pub Loop-skip :
      (seen : List Node) (chosen : String) (evaluations longer : List Evaluation) (x : Node)
      → ((a : Evaluation)
          → find (λ e. e.node_id == chosen) evaluations ≡ some a
          → find (λ e. e.node_id == chosen) longer ≡ some a)
      → (IsCandidate x → ⊥)
      → Loop seen chosen evaluations
      → Loop (seen ++ x ∷ []) chosen longer
  Loop-skip seen chosen evaluations longer x kept no_candidate (idle e h) = idle e (λ m mem c.
      elim (In-append_one m x seen mem) [
        | inl old ↦ h m old c
        | inr same ↦ no_candidate (subst IsCandidate same c)
      ])
  Loop-skip seen chosen evaluations longer x kept no_candidate (busy n e b f) =
      busy n e
        (record {
          listed = In-append_old n seen (x ∷ []) b.listed;
          candidate = b.candidate;
          best = λ m mem c. elim (In-append_one m x seen mem) [
            | inl old ↦ b.best m old c
            | inr same ↦ absurd (no_candidate (subst IsCandidate same c))
          ];
        })
        (kept (eval n) f)

  -- A candidate with a new identifier that nothing seen before beats is the new choice.
  pub Loop-take :
      (seen : List Node) (evaluations : List Evaluation) (x : Node)
      → (In x.id (map (λ m. m.id) seen) → ⊥)
      → All (λ e. In e.node_id (map (λ m. m.id) seen)) evaluations
      → IsCandidate x
      → ((m : Node) → In m seen → IsCandidate m → IsBelow (eval m) (eval x))
      → Loop (seen ++ x ∷ []) x.id (evaluations ++ eval x ∷ [])
  Loop-take seen evaluations x new known c above =
      busy x refl
        (record {
          listed = In-append_new x seen;
          candidate = c;
          best = λ m mem cm. elim (In-append_one m x seen mem) [
            | inl old ↦ above m old cm
            | inr same ↦ subst (λ y. IsBelow (eval m) (eval y)) same (IsBelow-refl (eval m))
          ];
        })
        (find-append_miss (λ e. e.node_id == x.id) evaluations (eval x)
          (All-map
            (λ e mem. elim (Bool-cases (e.node_id == x.id)) [
              | inl same ↦ absurd (
                  new
                    (subst (λ k. In k (map (λ m. m.id) seen)) ((eq_iff e.node_id x.id).0 same) mem))
              | inr other ↦ other
            ])
            evaluations known)
          ((eq_iff (eval x).node_id x.id).1 (eval_id x)))
