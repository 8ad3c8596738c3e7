-- ===== src/Nodes/Selected.antt =====
-- What the selection for a tier answers.
use admirald.Shared.{ℕ, ◌⊎◌, pos, ◌≤ℤ◌, ◌<ℤ◌, String, List, [], ◌∷◌, errorf, Result, ok, err}
use admirald.Nodes.Node.{Node}
use admirald.Nodes.Capacity.{Floats, parse_size_bytes}
use admirald.Nodes.Select.{Selection, Tier}
use admirald.Nodes.Chosen.{IsChoice}

-- The answers: a tier without memory or storage is refused, else the best candidate is named, or none.
pub data IsSelected {F : Type 0} (fl : Floats F) (now : ℕ) (tier : Tier) (requested : String)
    (nodes : List Node) : Result Selection → Type 0 where
  refused :
      (parse_size_bytes fl tier.memory ≤ℤ pos 0) ⊎ (parse_size_bytes fl tier.storage ≤ℤ pos 0)
      → IsSelected fl now tier requested nodes
          (err (errorf "tier %q has invalid resource definition" (tier.name ∷ [])))
  selected :
      (r : Selection)
      → pos 0 <ℤ parse_size_bytes fl tier.memory
      → pos 0 <ℤ parse_size_bytes fl tier.storage
      → IsChoice fl now requested
          (parse_size_bytes fl tier.memory)
          (parse_size_bytes fl tier.storage)
          nodes
          r.node_id
      → IsSelected fl now tier requested nodes (ok r)
