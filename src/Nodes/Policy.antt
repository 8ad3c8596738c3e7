-- ===== src/Nodes/Policy.antt =====
-- isMetricsFresh, hasValidNodeMetrics, recomputeNodePolicy, recomputePortalNodePolicy,
-- evaluateNodeForTier and selectNodeForTier of internal/api/handlers_policy.go. Times are in
-- nanoseconds.
use admirald.Shared.{
  ℕ, ◌+◌, ◌*◌, leb, ℤ, pos, ◌+ℤ◌, ◌-ℤ◌, leb_ℤ, ltb_ℤ, Bool, true, false, not, ◌&&◌, ◌||◌, Option,
  none, some, String, List, [], ◌∷◌, find, if◌then◌else◌, ◌==◌, errorf, Result, ok, err,
}
use admirald.RateLimit.Interface.{second}
use admirald.Nodes.Node.{Node, is_node, update_node_health, update_node_commit_limits}
use admirald.Nodes.Reasons.{add_if, is_empty, normalize_reasons, join_reasons}
use admirald.Nodes.Capacity.{Floats, calculate_ram_commit_limit, calculate_disk_commit_limit}

abbrev pub metrics_stale_after : ℕ
metrics_stale_after = 180 * second

abbrev pub is_metrics_fresh : ℕ → Option ℕ → Bool
is_metrics_fresh now none = false
is_metrics_fresh now (some t) = leb now (t + metrics_stale_after)

unfoldable pub has_valid_node_metrics : Node → Bool
has_valid_node_metrics n =
    if leb_ℤ n.ram_total (pos 0) || leb_ℤ n.disk_total (pos 0)
    then false
    else if ltb_ℤ n.ram_used (pos 0) || ltb_ℤ n.disk_used (pos 0)
    then false
    else if ltb_ℤ n.ram_total n.ram_used || ltb_ℤ n.disk_total n.disk_used
    then false
    else true

-- `NodeProvisioningEvaluation`
pub record Evaluation : Type 0 where
  pub node_id : String
  pub rejection_reasons : List String
  pub eligible : Bool
  pub remaining_ram : ℤ
  pub remaining_disk : ℤ

module _ {F : Type 0} (fl : Floats F) (now : ℕ) where
  -- `float64(used)/float64(total) >= 0.90`
  abbrev pub is_critical : ℤ → ℤ → Bool
  is_critical used total = fl.le (fl.hundredths 90) (fl.div (fl.of_int64 used) (fl.of_int64 total))

  -- The reasons why a worker is unhealthy. `ram` and `disk` are its new limits.
  unfoldable pub health_reasons : Node → ℤ → ℤ → List String
  health_reasons n ram disk =
      let valid = has_valid_node_metrics n && ltb_ℤ (pos 0) ram && ltb_ℤ (pos 0) disk in
      let r1 = add_if (not (n.status == "active")) "fleet_offline" [] in
      let r2 = add_if n.manual_disabled "manual_disabled" r1 in
      let r3 = add_if (not (is_metrics_fresh now n.last_metrics_at)) "metrics_stale" r2 in
      let r4 = add_if (not valid) "invalid_metrics" r3 in
      let r5 = add_if (valid && is_critical n.ram_used n.ram_total) "ram_usage_critical" r4 in
      add_if (valid && is_critical n.disk_used n.disk_total) "disk_usage_critical" r5

  -- The reasons why it takes no more applications: the same, and the committed capacity.
  unfoldable pub availability_reasons : Node → ℤ → ℤ → List String
  unfolding health_reasons
  availability_reasons n ram disk =
      let r = health_reasons n ram disk in
      let r1 =
        add_if (leb_ℤ ram (pos 0) || leb_ℤ ram n.committed_ram) "insufficient_ram_commit_capacity"
          r in
      add_if (leb_ℤ disk (pos 0) || leb_ℤ disk n.committed_disk) "insufficient_disk_commit_capacity"
        r1

  abbrev pub health_status_of : List String → String
  health_status_of reasons = if is_empty reasons then "healthy" else "unhealthy"

  unfoldable pub portal_health_reasons : Node → List String
  portal_health_reasons n =
      add_if n.manual_disabled "manual_disabled"
        (add_if (not (n.status == "active")) "portal_offline" [])

  unfoldable pub recompute_portal_node_policy : Node → List Node → List Node
  recompute_portal_node_policy n nodes =
      let health = portal_health_reasons n in
      let availability = add_if n.manual_disabled "manual_disabled" [] in
      update_node_health n.id (health_status_of health) (join_reasons health)
        (is_empty availability) (join_reasons availability) nodes

  -- `recomputeNodePolicy`, while the database answers; the audit events are left out.
  unfoldable pub recompute_node_policy : String → List Node → Result (List Node)
  recompute_node_policy id nodes = elim (find (is_node id) nodes) [
    | none ↦ err (errorf "node %q not found for policy recompute" (id ∷ []))
    | some n ↦
        if n.node_role == "portal"
        then ok (recompute_portal_node_policy n nodes)
        else (let ram = calculate_ram_commit_limit fl n.ram_total in
            let disk = calculate_disk_commit_limit fl n.disk_total in
            let health = health_reasons n ram disk in
            let availability = availability_reasons n ram disk in
            ok (
              update_node_health id (health_status_of health) (join_reasons health)
                (is_empty availability) (join_reasons availability)
                (update_node_commit_limits id ram disk nodes)))
  ]

  -- The limit that the node has, or the one of its total where it has none.
  abbrev pub ram_limit_of : Node → ℤ
  ram_limit_of n =
      if leb_ℤ n.ram_commit_limit (pos 0)
      then calculate_ram_commit_limit fl n.ram_total
      else n.ram_commit_limit

  abbrev pub disk_limit_of : Node → ℤ
  disk_limit_of n =
      if leb_ℤ n.disk_commit_limit (pos 0)
      then calculate_disk_commit_limit fl n.disk_total
      else n.disk_commit_limit

  unfoldable pub tier_rejections : Node → ℤ → ℤ → List String
  tier_rejections n ram disk =
      let r1 = add_if (n.node_role == "admin" || n.node_role == "portal") "not_a_worker_node" [] in
      let r2 =
        add_if (not (n.status == "active") || not (n.health_status == "healthy")) "node_unhealthy"
          r1 in
      let r3 = add_if n.manual_disabled "manual_disabled" r2 in
      let r4 = add_if (not (is_metrics_fresh now n.last_metrics_at)) "metrics_stale" r3 in
      let r5 = add_if (not (has_valid_node_metrics n)) "invalid_metrics" r4 in
      let r6 =
        add_if (leb_ℤ (ram_limit_of n) (pos 0) || ltb_ℤ (ram_limit_of n) (n.committed_ram +ℤ ram))
          "insufficient_ram_commit_capacity" r5 in
      add_if (leb_ℤ (disk_limit_of n) (pos 0) || ltb_ℤ (disk_limit_of n) (n.committed_disk +ℤ disk))
        "insufficient_disk_commit_capacity" r6

  unfoldable pub evaluate_node_for_tier : Node → ℤ → ℤ → Evaluation
  evaluate_node_for_tier n ram disk =
      let reasons = normalize_reasons (tier_rejections n ram disk) in
      record {
        node_id = n.id;
        rejection_reasons = reasons;
        eligible = is_empty reasons;
        remaining_ram =
            if is_empty reasons then ram_limit_of n -ℤ (n.committed_ram +ℤ ram) else pos 0;
        remaining_disk =
            if is_empty reasons then disk_limit_of n -ℤ (n.committed_disk +ℤ disk) else pos 0;
      }
