-- ===== src/Fleet/Capacity.antt =====
-- What callbacks release of a node's committed capacity: releaseCapacityAndFailRoutes,
-- handleResizeCallback and the helpers on tiers, internal/api/handlers_fleet.go. Public routes and audit
-- events are left out.
use admirald.Shared.{
  ℕ, ℤ, pos, ◌-ℤ◌, ltb_ℤ, Bool, not, ◌&&◌, ◌||◌, Option, none, some, String, List, [], find,
  if◌then◌else◌, ◌==◌, Result, ok, err,
}
use admirald.Shared.Text.{trim_space}
use admirald.Nodes.Node.{Node, release_node_commitment}
use admirald.Nodes.Select.{Tier}
use admirald.Nodes.Capacity.{Floats, parse_size_bytes}
use admirald.Nodes.Policy.{recompute_node_policy}
use admirald.Instances.Instance.{CustomerApp, get_customer_app, update_customer_app_tier}
use admirald.Operations.Operation.{Operation, OperationMetadata}
use admirald.Fleet.State.{TaskResult, Control, Decoders, Catalog}

abbrev pub empty_tier : Tier
empty_tier = record { name = ""; cpu = ""; memory = ""; storage = ""; environment = []; other = "" }

abbrev pub or_empty : Option Tier → Tier
or_empty none = empty_tier
or_empty (some t) = t

-- `parseResizeTargetTier`; the result has only the fields of a TierInfo.
abbrev pub target_of : Option (String × Tier) → Option Tier
target_of none = none
target_of (some p) =
    if not (p.0 == "resize_app") || (p.1.name == "")
    then none
    else some (record (p.1) { other = "" })

unfoldable pub parse_resize_target_tier : Decoders → String → Option Tier
parse_resize_target_tier dec metadata =
    if trim_space metadata == "" then none else target_of (dec.resize_of metadata)

-- `resolvedResizeTargetTier`
abbrev pub wanted_tier : Option OperationMetadata → Option Tier
wanted_tier none = none
wanted_tier (some m) = m.resize_target_tier

-- The current tier of that name, with the resources that the node reports.
abbrev pub with_resources : Tier → Option Tier → Option Tier
with_resources reported none = none
with_resources reported (some t) = some (record t {
  cpu = reported.cpu;
  memory = reported.memory;
  storage = reported.storage;
  environment = reported.environment;
})

unfoldable pub resolved_resize_target_tier : Operation → Tier → List Tier → Option Tier
resolved_resize_target_tier op reported tiers = elim (wanted_tier op.metadata) [
  | some target ↦ if not (target.name == reported.name) then none else some target
  | none ↦ with_resources reported (find (λ t. t.name == reported.name) tiers)
]

-- `currentTierFromInstance`
unfoldable pub current_tier_from_instance : Decoders → CustomerApp → Tier
current_tier_from_instance dec app =
    if trim_space app.tier_snapshot_json == ""
    then empty_tier
    else or_empty (dec.tier_of app.tier_snapshot_json)

abbrev pub max_int64 : ℤ → ℤ → ℤ
max_int64 v floor = if ltb_ℤ v floor then floor else v

-- A recomputation that fails is only logged.
abbrev pub or_unchanged {ℓ} : {A : Type ℓ} → Result A → A → A
or_unchanged (ok a) old = a
or_unchanged (err e) old = old

module _ {F : Type 0} (fl : Floats F) (dec : Decoders) (now : ℕ) where
  -- A release, and the policy of the node after it.
  unfoldable pub release_and_recompute : String → ℤ → ℤ → List Node → List Node
  release_and_recompute node ram disk nodes =
      let released = release_node_commitment node ram disk nodes in
      or_unchanged (recompute_node_policy fl now node released) released

  -- The release of what an instance has committed, by its tier snapshot.
  unfoldable pub release_tier : String → Option Tier → List Node → List Node
  unfolding release_and_recompute
  release_tier node none nodes = nodes
  release_tier node (some tier) nodes =
      let ram = parse_size_bytes fl tier.memory in
      let disk = parse_size_bytes fl tier.storage in
      if ltb_ℤ (pos 0) ram && ltb_ℤ (pos 0) disk
      then release_and_recompute node ram disk nodes
      else nodes

  unfoldable pub release_on : CustomerApp → Option String → List Node → List Node
  unfolding release_tier
  release_on app none nodes = nodes
  release_on app (some node) nodes = release_tier node (dec.tier_of app.tier_snapshot_json) nodes

  unfoldable pub release_capacity : Option CustomerApp → List Node → List Node
  unfolding release_on
  release_capacity none nodes = nodes
  release_capacity (some app) nodes = release_on app app.node_id nodes

  -- The difference between two tiers is released where it is positive.
  unfoldable pub release_difference : String → Tier → Tier → List Node → List Node
  unfolding release_and_recompute
  release_difference node larger smaller nodes =
      let ram = parse_size_bytes fl larger.memory -ℤ parse_size_bytes fl smaller.memory in
      let disk = parse_size_bytes fl larger.storage -ℤ parse_size_bytes fl smaller.storage in
      if ltb_ℤ (pos 0) ram || ltb_ℤ (pos 0) disk
      then release_and_recompute node (max_int64 ram (pos 0)) (max_int64 disk (pos 0)) nodes
      else nodes

  unfoldable pub resize_to : Operation → String → CustomerApp → Option Tier → Control → Control
  unfolding release_difference current_tier_from_instance
  resize_to op node app none s = s
  resize_to op node app (some target) s = record s {
    apps = update_customer_app_tier op.instance_id target.name (dec.tier_json target) s.apps;
    nodes = release_difference node (current_tier_from_instance dec app) target s.nodes;
  }

  unfoldable pub resize_on :
      Catalog → Operation → Bool → Tier → CustomerApp → Option String → Control → Control
  unfolding resize_to release_difference current_tier_from_instance resolved_resize_target_tier
  resize_on catalog op success target app none s = s
  resize_on catalog op success target app (some node) s =
      if success
      then resize_to op node app
          (resolved_resize_target_tier op target (catalog.tiers_of app.app_definition_name)) s
      else record s {
        nodes = release_difference node target (current_tier_from_instance dec app) s.nodes;
      }

  unfoldable pub resize_with :
      Catalog → Operation → Bool → Option Tier → Option CustomerApp → Control → Control
  unfolding resize_on
  resize_with catalog op success (some target) (some app) s =
      resize_on catalog op success target app app.node_id s
  resize_with catalog op success _ _ s = s

  unfoldable pub handle_resize_callback :
      Catalog → Operation → TaskResult → Bool → Control → Control
  unfolding resize_with parse_resize_target_tier
  handle_resize_callback catalog op res success s =
      resize_with catalog op success (parse_resize_target_tier dec res.metadata)
        (get_customer_app op.instance_id s.apps) s
