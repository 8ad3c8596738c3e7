-- ===== src/Nodes/Tests.antt =====
-- Runs of the node policy: two workers and the portal, with sizes in small units.
use Prim.Native.Nat.{◌/◌}
use admirald.Shared.{
  ℕ, ◌*◌, ◌≡◌, ◌≢◌, refl, inl, inr, ℤ, pos, negsuc, ◌+ℤ◌, ◌-ℤ◌, true, false, none, some, String,
  List, [], ◌∷◌, map, leb, ◌≤◌, update_where, if◌then◌else◌, ◌==◌, eq_iff, ok, arith, All, Distinct,
}
use admirald.Shared.Text.{trim_space, to_lower}
use admirald.Nodes.Reasons.{normalize_reasons, join_reasons}
use admirald.Nodes.Node.{
  Node, can_reserve, reserve_node_capacity, add_node_commitment, update_node_health,
  update_node_commit_limits,
}
use admirald.Nodes.Capacity.{
  Floats, calculate_ram_commit_limit, calculate_disk_commit_limit, parse_size_bytes, scaled,
}
use admirald.Nodes.Policy.{
  evaluate_node_for_tier, recompute_node_policy, tier_rejections, has_valid_node_metrics,
  health_reasons, availability_reasons,
}
use admirald.Nodes.Select.{Tier, select_node_for_tier, select_loop, choose, is_better, best_of}
use admirald.Nodes.Fits.{Fits}
use admirald.Nodes.Reserve.{IsWithin, reserve_node_capacity-IsWithin}
use admirald.Nodes.Promise.{
  IsRecomputed, recompute_node_policy-IsRecomputed, reserve_node_capacity-recompute_node_policy,
}

-- Numbers in hundredths, for the runs only.
abbrev to_hundredths : ℤ → ℕ
to_hundredths (pos k) = k * 100
to_hundredths (negsuc k) = 0

abbrev pub hundredths : Floats ℕ
hundredths = record {
  of_int64 = to_hundredths;
  to_int64 = λ x. pos (x / 100);
  hundredths = λ x. x;
  mul = λ x y. x * y / 100;
  div = λ x y. x * 100 / y;
  le = leb;
  parse = λ s. if s == "20" then some 2000 else none;
}

abbrev pub worker : String → ℕ → Node
worker id committed = record {
  id = id;
  node_role = "worker";
  status = "active";
  manual_disabled = false;
  health_status = "healthy";
  health_reason_codes = "";
  available_for_provisioning = true;
  unavailable_reason_codes = "";
  ram_total = pos 100;
  ram_used = pos 40;
  disk_total = pos 300;
  disk_used = pos 40;
  ram_commit_limit = pos 80;
  disk_commit_limit = pos 200;
  committed_ram = pos committed;
  committed_disk = pos 10;
  last_metrics_at = some 5;
  wireguard_ip = "";
}

abbrev workers : List Node
workers = worker "n2" 30 ∷ worker "n1" 50 ∷ []

abbrev pub small : Tier
small = record {
  name = "small";
  cpu = "1";
  memory = "20";
  storage = "20";
  environment = [];
  other = "";
}

differ : ◌≢◌ {A = String} "n2" "n1"
differ e = let same = (eq_iff "n2" "n1").1 e in cc

distinct : Distinct (map (λ n. n.id) workers)
distinct = ((λ m. elim m [ inl e ↦ differ e | inr r ↦ absurd r ]), ((λ m. m), tt))

-- The less committed worker is chosen, also when it stands later in the order.
choice :
    select_node_for_tier hundredths 10 small "" workers
    ≡ ok (record {
      node_id = "n2";
      evaluations =
          record {
            node_id = "n1";
            rejection_reasons = [];
            eligible = true;
            remaining_ram = pos 10;
            remaining_disk = pos 170;
          }
          ∷ record {
            node_id = "n2";
            rejection_reasons = [];
            eligible = true;
            remaining_ram = pos 30;
            remaining_disk = pos 170;
          }
          ∷ [];
    })
unfolding select_node_for_tier select_loop choose evaluate_node_for_tier tier_rejections
    parse_size_bytes scaled has_valid_node_metrics trim_space to_lower normalize_reasons ◌+ℤ◌
    is_better ◌-ℤ◌ best_of
choice = refl

-- Recomputing leaves a healthy worker as it is.
unchanged : recompute_node_policy hundredths 10 "n2" workers ≡ ok workers
unfolding recompute_node_policy update_node_health update_where update_node_commit_limits
    health_reasons join_reasons availability_reasons calculate_ram_commit_limit
    calculate_disk_commit_limit has_valid_node_metrics
unchanged = refl

free : can_reserve "n2" (pos 20) (pos 20) (worker "n2" 30) ≡ true
unfolding ◌+ℤ◌
free = refl

reserved :
    reserve_node_capacity "n2" (pos 20) (pos 20) workers
    ≡ some (
        record (worker "n2" 30) { committed_ram = pos 50; committed_disk = pos 30 }
        ∷ worker "n1" 50
        ∷ [])
unfolding reserve_node_capacity ◌+ℤ◌ update_where
reserved = refl

is_worker : ◌≢◌ {A = String} "worker" "portal"
is_worker e = let same = (eq_iff "worker" "portal").1 e in cc

recompute_node_policy-IsRecomputed_example :
    IsRecomputed hundredths 10 workers
      (worker "n1" 50)
      (recompute_node_policy hundredths 10 "n1" workers)
recompute_node_policy-IsRecomputed_example =
    recompute_node_policy-IsRecomputed hundredths 10 workers (worker "n1" 50) distinct
      (inr (inl refl)) is_worker

fitting : Fits hundredths 10 (worker "n2" 30) (pos 20) (pos 20)
unfolding ◌+ℤ◌
fitting = record {
  not_admin = λ e. let same = (eq_iff "worker" "admin").1 e in cc;
  not_portal = is_worker;
  active = refl;
  healthy = refl;
  enabled = refl;
  fresh = refl;
  metrics = record {
    ram_some = omega arith;
    disk_some = omega arith;
    ram_counted = omega arith;
    disk_counted = omega arith;
    ram_within = omega arith;
    disk_within = omega arith;
  };
  ram_limited = omega arith;
  ram_left = omega arith;
  disk_limited = omega arith;
  disk_left = omega arith;
}

reserve_node_capacity-recompute_node_policy_example :
    reserve_node_capacity "n2" (pos 20) (pos 20) workers
    ≡ some (add_node_commitment "n2" (pos 20) (pos 20) workers)
reserve_node_capacity-recompute_node_policy_example =
    reserve_node_capacity-recompute_node_policy hundredths 10 workers workers (worker "n2" 30)
      (worker "n2" 30) (pos 20) (pos 20) distinct (inl refl) is_worker unchanged refl fitting
      (omega arith) (omega arith)

within : (id : String) (c : ℕ) → c ≤ 80 → IsWithin (worker id c)
within id c h = record {
  ram_counted = omega arith;
  disk_counted = omega arith;
  ram_within = omega arith;
  disk_within = omega arith;
}

reserve_node_capacity-IsWithin_example : All IsWithin (
    record (worker "n2" 30) { committed_ram = pos 50; committed_disk = pos 30 }
    ∷ worker "n1" 50
    ∷ [])
reserve_node_capacity-IsWithin_example =
    reserve_node_capacity-IsWithin "n2" (pos 20) (pos 20) workers _ (omega arith) (omega arith)
      reserved (within "n2" 30 (omega arith), (within "n1" 50 (omega arith), tt))
