-- ===== src/Nodes/Fits.antt =====
-- Which nodes are eligible for a tier.
use admirald.Shared.{
  ℕ, ◌≡◌, ◌≢◌, ◌↔◌, refl, ℤ, pos, ◌+ℤ◌, ◌-ℤ◌, ◌≤ℤ◌, ◌<ℤ◌, leb_ℤ, ltb_ℤ, Bool, true, false, [], ◌∷◌,
  String, List, any, arith, eq_iff, ◌==◌, ◌||◌, ◌∙◌, not,
}
use admirald.Nodes.Node.{Node}
use admirald.Nodes.Reasons.{
  is_empty, normalize_reasons, is_empty-add_all, is_empty-normalize_reasons,
}
use admirald.Nodes.Capacity.{Floats}
use admirald.Nodes.Policy.{
  is_metrics_fresh, has_valid_node_metrics, ram_limit_of, disk_limit_of, tier_rejections,
  evaluate_node_for_tier,
}

-- What the agent of a node reports makes sense.
pub record HasMetrics (n : Node) : Type 0 where
  pub ram_some : pos 0 <ℤ n.ram_total
  pub disk_some : pos 0 <ℤ n.disk_total
  pub ram_counted : pos 0 ≤ℤ n.ram_used
  pub disk_counted : pos 0 ≤ℤ n.disk_used
  pub ram_within : n.ram_used ≤ℤ n.ram_total
  pub disk_within : n.disk_used ≤ℤ n.disk_total

pub has_valid_node_metrics-HasMetrics :
    (n : Node) → (has_valid_node_metrics n ≡ true) ↔ HasMetrics n
unfolding has_valid_node_metrics
has_valid_node_metrics-HasMetrics n = (
  λ h. record {
    ram_some = ground arith;
    disk_some = ground arith;
    ram_counted = ground arith;
    disk_counted = ground arith;
    ram_within = ground arith;
    disk_within = ground arith;
  },
  λ v.
      let a = v.ram_some in
      let b = v.disk_some in
      let c = v.ram_counted in
      let d = v.disk_counted in let e = v.ram_within in let f = v.disk_within in ground arith,
)

-- A node that can take an application of a size.
pub record Fits {F : Type 0} (fl : Floats F) (now : ℕ) (n : Node) (ram disk : ℤ) : Type 0 where
  pub not_admin : n.node_role ≢ "admin"
  pub not_portal : n.node_role ≢ "portal"
  pub active : n.status ≡ "active"
  pub healthy : n.health_status ≡ "healthy"
  pub enabled : n.manual_disabled ≡ false
  pub fresh : is_metrics_fresh now n.last_metrics_at ≡ true
  pub metrics : HasMetrics n
  pub ram_limited : pos 0 <ℤ ram_limit_of fl now n
  pub ram_left : n.committed_ram +ℤ ram ≤ℤ ram_limit_of fl now n
  pub disk_limited : pos 0 <ℤ disk_limit_of fl now n
  pub disk_left : n.committed_disk +ℤ disk ≤ℤ disk_limit_of fl now n

-- The bounds on one resource, as the tests of the code.
room_left :
    (limit committed asked : ℤ)
    → (leb_ℤ limit (pos 0) || ltb_ℤ limit (committed +ℤ asked) ≡ false)
      ↔ ((pos 0 <ℤ limit) × (committed +ℤ asked ≤ℤ limit))
room_left limit committed asked = ground arith

module _ {F : Type 0} (fl : Floats F) (now : ℕ) (n : Node) (ram disk : ℤ) where
  abbrev wrong_role : Bool
  wrong_role = n.node_role == "admin" || n.node_role == "portal"

  abbrev unhealthy : Bool
  unhealthy = not (n.status == "active") || not (n.health_status == "healthy")

  abbrev stale : Bool
  stale = not (is_metrics_fresh now n.last_metrics_at)

  abbrev broken : Bool
  broken = not (has_valid_node_metrics n)

  abbrev no_ram : Bool
  no_ram =
      leb_ℤ (ram_limit_of fl now n) (pos 0)
      || ltb_ℤ (ram_limit_of fl now n) (n.committed_ram +ℤ ram)

  abbrev no_disk : Bool
  no_disk =
      leb_ℤ (disk_limit_of fl now n) (pos 0)
      || ltb_ℤ (disk_limit_of fl now n) (n.committed_disk +ℤ disk)

  abbrev tests : List (Bool × String)
  tests =
      (no_disk, "insufficient_disk_commit_capacity")
      ∷ (no_ram, "insufficient_ram_commit_capacity")
      ∷ (broken, "invalid_metrics")
      ∷ (stale, "metrics_stale")
      ∷ (n.manual_disabled, "manual_disabled")
      ∷ (unhealthy, "node_unhealthy")
      ∷ (wrong_role, "not_a_worker_node")
      ∷ []

  abbrev rejected : Bool
  rejected = any (λ t. t.0) tests

  rejected-Fits : rejected ≡ false → Fits fl now n ram disk
  rejected-Fits h =
      let admin = eq_iff n.node_role "admin" in
      let portal = eq_iff n.node_role "portal" in
      let active = eq_iff n.status "active" in
      let healthy = eq_iff n.health_status "healthy" in
      let metrics = has_valid_node_metrics-HasMetrics n in
      let ram_room = room_left (ram_limit_of fl now n) n.committed_ram ram in
      let disk_room = room_left (disk_limit_of fl now n) n.committed_disk disk in
      let not_wrong_role : wrong_role ≡ false = ground arith in
      let not_unhealthy : unhealthy ≡ false = ground arith in
      let no_ram_false : no_ram ≡ false = ground arith in
      let no_disk_false : no_disk ≡ false = ground arith in
      record {
        not_admin = ground arith;
        not_portal = ground arith;
        active = ground arith;
        healthy = ground arith;
        enabled = ground arith;
        fresh = ground arith;
        metrics = (metrics).0 (ground arith);
        ram_limited = ((ram_room).0 no_ram_false).0;
        ram_left = ((ram_room).0 no_ram_false).1;
        disk_limited = ((disk_room).0 no_disk_false).0;
        disk_left = ((disk_room).0 no_disk_false).1;
      }

  Fits-rejected : Fits fl now n ram disk → rejected ≡ false
  Fits-rejected h =
      let admin = eq_iff n.node_role "admin" in
      let portal = eq_iff n.node_role "portal" in
      let not_wrong_role : wrong_role ≡ false =
        let a = h.not_admin in let b = h.not_portal in ground arith in
      let not_unhealthy : unhealthy ≡ false = rw (h.active, h.healthy) refl in
      let enabled = h.enabled in
      let not_stale : stale ≡ false = rw (h.fresh) refl in
      let not_broken : broken ≡ false =
        rw ((has_valid_node_metrics-HasMetrics n).1 h.metrics) refl in
      let no_ram_false =
        (room_left (ram_limit_of fl now n) n.committed_ram ram).1 (h.ram_limited, h.ram_left) in
      let no_disk_false =
        (room_left (disk_limit_of fl now n) n.committed_disk disk).1
          (h.disk_limited, h.disk_left) in
      rw
        (not_wrong_role, not_unhealthy, not_stale, not_broken, enabled, no_ram_false, no_disk_false)
        refl

  -- No reason to reject a node is found exactly if the node fits.
  pub tier_rejections-Fits :
      (is_empty (tier_rejections fl now n ram disk) ≡ true) ↔ Fits fl now n ram disk
  unfolding tier_rejections
  tier_rejections-Fits =
      let silent = is_empty-add_all tests refl in
      (λ h. rejected-Fits (silent.0 h), λ f. silent.1 (Fits-rejected f))

  pub evaluate_node_for_tier-Fits :
      ((evaluate_node_for_tier fl now n ram disk).eligible ≡ true) ↔ Fits fl now n ram disk
  unfolding evaluate_node_for_tier
  evaluate_node_for_tier-Fits =
      rw (is_empty-normalize_reasons (tier_rejections fl now n ram disk)) tier_rejections-Fits

  -- What is left on an eligible node.
  pub evaluate_node_for_tier-remaining :
      Fits fl now n ram disk
      → ((evaluate_node_for_tier fl now n ram disk).remaining_ram
          ≡ ram_limit_of fl now n -ℤ (n.committed_ram +ℤ ram))
        × ((evaluate_node_for_tier fl now n ram disk).remaining_disk
            ≡ disk_limit_of fl now n -ℤ (n.committed_disk +ℤ disk))
  unfolding evaluate_node_for_tier
  evaluate_node_for_tier-remaining f =
      let none_found : is_empty (normalize_reasons (tier_rejections fl now n ram disk)) ≡ true =
        is_empty-normalize_reasons _ ∙ (tier_rejections-Fits).1 f in
      (rw (none_found) refl, rw (none_found) refl)
