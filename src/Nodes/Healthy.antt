-- ===== src/Nodes/Healthy.antt =====
-- When a worker is healthy and when it takes applications, as facts on its row.
use mathlib.Core.Path.{subst}
use admirald.Shared.{
  ℕ, ◌≡◌, ◌≢◌, ◌↔◌, refl, inl, inr, ℤ, pos, ◌<ℤ◌, leb_ℤ, ltb_ℤ, Bool, true, false, not, ◌&&◌, ◌||◌,
  String, List, [], ◌∷◌, arith, ◌==◌, eq_iff, any, if◌then◌else◌, Bool-cases,
}
use admirald.Nodes.Node.{Node}
use admirald.Nodes.Reasons.{is_empty, is_empty-add_all}
use admirald.Nodes.Capacity.{Floats, calculate_ram_commit_limit, calculate_disk_commit_limit}
use admirald.Nodes.Policy.{
  is_metrics_fresh, has_valid_node_metrics, is_critical, health_reasons, availability_reasons,
  health_status_of,
}
use admirald.Nodes.Fits.{HasMetrics, has_valid_node_metrics-HasMetrics}

unhealthy_text : ◌≢◌ {A = String} "unhealthy" "healthy"
unhealthy_text h = let same = (eq_iff "unhealthy" "healthy").1 h in cc

module _ {F : Type 0} (fl : Floats F) (now : ℕ) where
  -- A worker that is in order, with the limits that its totals give.
  pub record IsHealthy (n : Node) : Type 0 where
    pub active : n.status ≡ "active"
    pub enabled : n.manual_disabled ≡ false
    pub fresh : is_metrics_fresh now n.last_metrics_at ≡ true
    pub metrics : HasMetrics n
    pub ram_limited : pos 0 <ℤ calculate_ram_commit_limit fl n.ram_total
    pub disk_limited : pos 0 <ℤ calculate_disk_commit_limit fl n.disk_total
    pub ram_calm : is_critical fl now n.ram_used n.ram_total ≡ false
    pub disk_calm : is_critical fl now n.disk_used n.disk_total ≡ false

  -- A healthy worker with some of both limits left.
  pub record IsAvailable (n : Node) : Type 0 where
    pub healthy : IsHealthy n
    pub ram_left : n.committed_ram <ℤ calculate_ram_commit_limit fl n.ram_total
    pub disk_left : n.committed_disk <ℤ calculate_disk_commit_limit fl n.disk_total

  module _ (n : Node) where
    abbrev pub ram_limit : ℤ
    ram_limit = calculate_ram_commit_limit fl n.ram_total

    abbrev pub disk_limit : ℤ
    disk_limit = calculate_disk_commit_limit fl n.disk_total

    abbrev valid : Bool
    valid = has_valid_node_metrics n && ltb_ℤ (pos 0) ram_limit && ltb_ℤ (pos 0) disk_limit

    abbrev health_tests : List (Bool × String)
    health_tests =
        (valid && is_critical fl now n.disk_used n.disk_total, "disk_usage_critical")
        ∷ (valid && is_critical fl now n.ram_used n.ram_total, "ram_usage_critical")
        ∷ (not valid, "invalid_metrics")
        ∷ (not (is_metrics_fresh now n.last_metrics_at), "metrics_stale")
        ∷ (n.manual_disabled, "manual_disabled")
        ∷ (not (n.status == "active"), "fleet_offline")
        ∷ []

    abbrev availability_tests : List (Bool × String)
    availability_tests =
        (
          leb_ℤ disk_limit (pos 0) || leb_ℤ disk_limit n.committed_disk,
          "insufficient_disk_commit_capacity",
        )
        ∷ (
          leb_ℤ ram_limit (pos 0) || leb_ℤ ram_limit n.committed_ram,
          "insufficient_ram_commit_capacity",
        )
        ∷ health_tests

    health_tests-IsHealthy : (any (λ t. t.0) health_tests ≡ false) ↔ IsHealthy n
    health_tests-IsHealthy =
        let active = eq_iff n.status "active" in
        let metrics = has_valid_node_metrics-HasMetrics n in
        (
          λ h.
              let is_valid : has_valid_node_metrics n ≡ true = ground arith in
              record {
                active = ground arith;
                enabled = ground arith;
                fresh = ground arith;
                metrics = metrics.0 is_valid;
                ram_limited = ground arith;
                disk_limited = ground arith;
                ram_calm = ground arith;
                disk_calm = ground arith;
              },
          λ h.
              let is_valid : has_valid_node_metrics n ≡ true = metrics.1 h.metrics in
              let a = active.1 h.active in
              let b = h.enabled in
              let c = h.fresh in
              let d = h.ram_limited in
              let e = h.disk_limited in let f = h.ram_calm in let g = h.disk_calm in ground arith,
        )

    availability_tests-IsAvailable : (any (λ t. t.0) availability_tests ≡ false) ↔ IsAvailable n
    availability_tests-IsAvailable =
        let health = health_tests-IsHealthy in
        (
          λ h. record {
            healthy = health.0 (ground arith);
            ram_left = ground arith;
            disk_left = ground arith;
          },
          λ h.
              let a = health.1 h.healthy in
              let b = h.healthy.ram_limited in
              let c = h.healthy.disk_limited in
              let d = h.ram_left in let e = h.disk_left in ground arith,
        )

    health_reasons-IsHealthy :
        (is_empty (health_reasons fl now n ram_limit disk_limit) ≡ true) ↔ IsHealthy n
    unfolding health_reasons
    health_reasons-IsHealthy =
        let silent = is_empty-add_all health_tests refl in
        (λ h. health_tests-IsHealthy.0 (silent.0 h), λ h. silent.1 (health_tests-IsHealthy.1 h))

    pub availability_reasons-IsAvailable :
        (is_empty (availability_reasons fl now n ram_limit disk_limit) ≡ true) ↔ IsAvailable n
    unfolding availability_reasons health_reasons
    availability_reasons-IsAvailable =
        let silent = is_empty-add_all availability_tests refl in
        (
          λ h. availability_tests-IsAvailable.0 (silent.0 h),
          λ h. silent.1 (availability_tests-IsAvailable.1 h),
        )

    pub health_status_of-IsHealthy :
        (health_status_of fl now (health_reasons fl now n ram_limit disk_limit) ≡ "healthy")
        ↔ IsHealthy n
    health_status_of-IsHealthy =
        let reasons = health_reasons fl now n ram_limit disk_limit in
        (
          λ h. elim (Bool-cases (is_empty reasons)) [
            | inl nothing ↦ health_reasons-IsHealthy.0 nothing
            | inr something ↦ absurd (
                unhealthy_text (
                  subst (λ b. ◌≡◌ {A = String} (if b then "healthy" else "unhealthy") "healthy")
                    something h))
          ],
          λ h. rw (health_reasons-IsHealthy.1 h) refl,
        )
