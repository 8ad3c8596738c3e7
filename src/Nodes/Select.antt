-- ===== src/Nodes/Select.antt =====
-- `selectNodeForTier` (internal/api/handlers_policy.go): every candidate is evaluated, in the order of
-- the identifiers, and the eligible one with the most memory left is chosen, then with the most storage.
use Prim.Native.Nat.{Ordering}
use Prim.Native.String as Str
use admirald.Shared.{
  ℕ, ℤ, pos, leb_ℤ, ltb_ℤ, Bool, true, false, not, ◌&&◌, ◌||◌, none, some, String, List, [], ◌∷◌,
  ◌++◌, find, if◌then◌else◌, ◌==◌, errorf, Result, ok, err,
}
use admirald.Nodes.Node.{Node}
use admirald.Nodes.Capacity.{Floats, parse_size_bytes}
use admirald.Nodes.Policy.{Evaluation, evaluate_node_for_tier}

-- `nodeSelectionResult`; the identifier is empty where no node fits.
pub record Selection : Type 0 where
  pub node_id : String
  pub evaluations : List Evaluation

pub record Tier : Type 0 where
  pub name : String
  pub cpu : String
  pub memory : String
  pub storage : String
  pub environment : List (String × String)
  pub other : String

-- `a < b` of texts.
abbrev pub text_lt : String → String → Bool
text_lt a b = elim (Str.compare a b) [ Ordering.lt ↦ true | _ ↦ false ]

unfoldable pub insert_node : Node → List Node → List Node
insert_node n [] = n ∷ []
insert_node n (m ∷ ms) =
    let rest = insert_node n ms in if text_lt m.id n.id then m ∷ rest else n ∷ m ∷ ms

-- `sort.Slice` by the identifiers, which the primary key keeps apart.
unfoldable pub sort_nodes : List Node → List Node
sort_nodes [] = []
sort_nodes (n ∷ ns) = insert_node n (sort_nodes ns)

abbrev ℤ_eq : ℤ → ℤ → Bool
ℤ_eq x y = leb_ℤ x y && leb_ℤ y x

-- Whether an evaluation replaces that of the chosen node.
unfoldable pub is_better : String → Evaluation → Evaluation → Bool
is_better chosen e best =
    ltb_ℤ best.remaining_ram e.remaining_ram
    || ℤ_eq e.remaining_ram best.remaining_ram && ltb_ℤ best.remaining_disk e.remaining_disk
    || ℤ_eq e.remaining_ram best.remaining_ram
      && ℤ_eq e.remaining_disk best.remaining_disk
      && text_lt e.node_id chosen

-- The evaluation of the chosen node; the code starts from the first one in case none is found.
unfoldable pub best_of : String → Evaluation → List Evaluation → Evaluation
best_of chosen head evaluations = elim (find (λ e. e.node_id == chosen) evaluations) [
  | none ↦ head
  | some e ↦ e
]

-- `result.Evaluations[0]`, after an evaluation was appended.
abbrev pub first_or : Evaluation → List Evaluation → Evaluation
first_or e [] = e
first_or e (x ∷ _) = x

module _ {F : Type 0} (fl : Floats F) (now : ℕ) (requested : String) (ram disk : ℤ) where
  -- Whether the node is a candidate.
  abbrev pub is_wanted : Node → Bool
  is_wanted n = requested == "" || n.id == requested

  abbrev pub evaluate : Node → Evaluation
  evaluate n = evaluate_node_for_tier fl now n ram disk

  -- The chosen identifier once a candidate was evaluated.
  unfoldable pub choose : String → Evaluation → List Evaluation → String
  choose chosen e evaluations =
      if not e.eligible
      then chosen
      else if chosen == ""
      then e.node_id
      else if is_better chosen e (best_of chosen (first_or e evaluations) evaluations)
      then e.node_id
      else chosen

  unfoldable pub select_loop : List Node → Selection → Selection
  unfolding choose
  select_loop [] result = result
  select_loop (n ∷ ns) result =
      let e = evaluate n in
      let evaluations = result.evaluations ++ e ∷ [] in
      let next =
        if is_wanted n
        then record { node_id = choose result.node_id e evaluations; evaluations = evaluations }
        else result in
      select_loop ns next

-- `selectNodeForTier`, while the database answers.
unfoldable pub select_node_for_tier :
    {F : Type 0} → Floats F → ℕ → Tier → String → List Node → Result Selection
unfolding sort_nodes insert_node
select_node_for_tier fl now tier requested nodes =
    let ram = parse_size_bytes fl tier.memory in
    let disk = parse_size_bytes fl tier.storage in
    if leb_ℤ ram (pos 0) || leb_ℤ disk (pos 0)
    then err (errorf "tier %q has invalid resource definition" (tier.name ∷ []))
    else ok (
        select_loop fl now requested ram disk (sort_nodes nodes)
          (record { node_id = ""; evaluations = [] }))
