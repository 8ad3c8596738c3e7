-- ===== src/Nodes/Node.antt =====
-- Rows of the table `nodes` (internal/database/nodes.go), with the columns that the policy of nodes
-- reads and writes, and the statements of internal/database/health.go on them.
use admirald.Shared.{
  ℕ, ℤ, pos, ◌+ℤ◌, ◌-ℤ◌, ltb_ℤ, leb_ℤ, Bool, ◌&&◌, Option, none, some, String, List, if◌then◌else◌,
  ◌==◌, update_where, affected,
}

pub record Node : Type 0 where
  pub id : String
  pub node_role : String
  pub status : String
  pub manual_disabled : Bool
  pub health_status : String
  pub health_reason_codes : String
  pub available_for_provisioning : Bool
  pub unavailable_reason_codes : String
  pub ram_total : ℤ
  pub ram_used : ℤ
  pub disk_total : ℤ
  pub disk_used : ℤ
  pub ram_commit_limit : ℤ
  pub disk_commit_limit : ℤ
  pub committed_ram : ℤ
  pub committed_disk : ℤ
  pub last_metrics_at : Option ℕ
  pub wireguard_ip : String

abbrev pub is_node : String → Node → Bool
is_node id n = n.id == id

unfoldable pub update_node_health : String → String → String → Bool → String → List Node → List Node
update_node_health id health reasons available unavailable_reasons = update_where (is_node id) (λ n.
    record n {
      health_status = health;
      health_reason_codes = reasons;
      available_for_provisioning = available;
      unavailable_reason_codes = unavailable_reasons;
    })

unfoldable pub update_node_commit_limits : String → ℤ → ℤ → List Node → List Node
update_node_commit_limits id ram disk =
    update_where (is_node id) (λ n. record n { ram_commit_limit = ram; disk_commit_limit = disk })

unfoldable pub add_node_commitment : String → ℤ → ℤ → List Node → List Node
add_node_commitment id ram disk = update_where (is_node id) (λ n. record n {
  committed_ram = n.committed_ram +ℤ ram;
  committed_disk = n.committed_disk +ℤ disk;
})

-- `GREATEST(x, 0)`
abbrev pub at_least_zero : ℤ → ℤ
at_least_zero x = if ltb_ℤ x (pos 0) then pos 0 else x

unfoldable pub release_node_commitment : String → ℤ → ℤ → List Node → List Node
release_node_commitment id ram disk = update_where (is_node id) (λ n. record n {
  committed_ram = at_least_zero (n.committed_ram -ℤ ram);
  committed_disk = at_least_zero (n.committed_disk -ℤ disk);
})

-- The WHERE clause of `reserveNodeCapacityTx` (internal/database/database.go).
abbrev pub can_reserve : String → ℤ → ℤ → Node → Bool
can_reserve id ram disk n =
    is_node id n
    && n.status == "active"
    && n.health_status == "healthy"
    && n.available_for_provisioning
    && ltb_ℤ (pos 0) n.ram_commit_limit
    && ltb_ℤ (pos 0) n.disk_commit_limit
    && leb_ℤ (n.committed_ram +ℤ ram) n.ram_commit_limit
    && leb_ℤ (n.committed_disk +ℤ disk) n.disk_commit_limit

-- `reserveNodeCapacityTx`: `none` is `ErrNodeCapacityPolicyBlocked`, where no row was changed.
unfoldable pub reserve_node_capacity : String → ℤ → ℤ → List Node → Option (List Node)
reserve_node_capacity id ram disk nodes =
    if affected (can_reserve id ram disk) nodes
    then some (
        update_where (can_reserve id ram disk)
          (λ n. record n {
            committed_ram = n.committed_ram +ℤ ram;
            committed_disk = n.committed_disk +ℤ disk;
          })
          nodes)
    else none
