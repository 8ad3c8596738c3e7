-- ===== src/Nodes/Promise.antt =====
-- What recomputing the policy of a worker records, and what the record promises to a reservation.
use mathlib.Core.Path.{subst}
use admirald.Shared.{
  ℕ, ◌≡◌, ◌≢◌, ◌↔◌, refl, sym, ap, ◌∙◌, ℤ, pos, ◌+ℤ◌, ◌≤ℤ◌, ◌<ℤ◌, leb_ℤ, +ℤ_parts, true, false,
  some, List, map, arith, ◌==◌, eq_iff, find, if◌then◌else◌, In, Distinct, update_where,
  update_where-update_where, update_where_one, find_by_key, map-update_where_one, In-update_where,
  some_injective, ok_injective, Result, ok,
}
use admirald.Nodes.Node.{
  Node, is_node, can_reserve, add_node_commitment, reserve_node_capacity, update_node_health,
  update_node_commit_limits,
}
use admirald.Nodes.Reasons.{is_empty, join_reasons}
use admirald.Nodes.Capacity.{Floats}
use admirald.Nodes.Policy.{
  health_reasons, availability_reasons, health_status_of, recompute_node_policy,
}
use admirald.Nodes.Fits.{Fits}
use admirald.Nodes.Reserve.{reserve_node_capacity_row}
use admirald.Nodes.Healthy.{
  IsHealthy, IsAvailable, ram_limit, disk_limit, health_status_of-IsHealthy,
  availability_reasons-IsAvailable,
}

-- A limit of its own counts where it is positive.
own_limit : (c t : ℤ) → pos 0 <ℤ c → (if leb_ℤ c (pos 0) then t else c) ≡ c
own_limit c t h = ground arith

below_limit : (c asked limit : ℤ) → pos 0 <ℤ asked → c +ℤ asked ≤ℤ limit → c <ℤ limit
below_limit c asked limit h k = let sum = +ℤ_parts c asked in ground arith

module _ {F : Type 0} (fl : Floats F) (now : ℕ) where
  module _ (n : Node) where
    -- The row that is recorded.
    abbrev recorded : Node
    recorded = record n {
      ram_commit_limit = (ram_limit fl now n);
      disk_commit_limit = (disk_limit fl now n);
      health_status =
          health_status_of fl now
            (health_reasons fl now n (ram_limit fl now n) (disk_limit fl now n));
      health_reason_codes =
          join_reasons (health_reasons fl now n (ram_limit fl now n) (disk_limit fl now n));
      available_for_provisioning =
          is_empty (availability_reasons fl now n (ram_limit fl now n) (disk_limit fl now n));
      unavailable_reason_codes =
          join_reasons (availability_reasons fl now n (ram_limit fl now n) (disk_limit fl now n));
    }

    -- A row with the limits of the node's totals that is healthy and available exactly if the node is.
    pub record IsRecorded (m : Node) : Type 0 where
      pub same_id : m.id ≡ n.id
      pub same_status : m.status ≡ n.status
      pub same_ram : m.committed_ram ≡ n.committed_ram
      pub same_disk : m.committed_disk ≡ n.committed_disk
      pub ram_limit_now : m.ram_commit_limit ≡ (ram_limit fl now n)
      pub disk_limit_now : m.disk_commit_limit ≡ (disk_limit fl now n)
      pub health : (m.health_status ≡ "healthy") ↔ IsHealthy fl now n
      pub availability : (m.available_for_provisioning ≡ true) ↔ IsAvailable fl now n

    recorded-IsRecorded : IsRecorded recorded
    recorded-IsRecorded = record {
      same_id = refl;
      same_status = refl;
      same_ram = refl;
      same_disk = refl;
      ram_limit_now = refl;
      disk_limit_now = refl;
      health = health_status_of-IsHealthy fl now n;
      availability = availability_reasons-IsAvailable fl now n;
    }

  -- A table where the row of the node is replaced by what is recorded for it.
  pub data IsRecomputed (nodes : List Node) (n : Node) : Result (List Node) → Type 0 where
    recomputed :
        (m : Node)
        → IsRecorded n m
        → IsRecomputed nodes n (ok (update_where (is_node n.id) (λ _. m) nodes))

  -- Over a table with distinct identifiers, recomputing the policy of a node of the table that is no
  -- portal succeeds and replaces its row by one with the limits of its totals, the same commitments, and
  -- marks that say healthy and available exactly if the node is so by its metrics and limits.
  pub recompute_node_policy-IsRecomputed :
      (nodes : List Node) (n : Node)
      → Distinct (map (λ m. m.id) nodes)
      → In n nodes
      → n.node_role ≢ "portal"
      → IsRecomputed nodes n (recompute_node_policy fl now n.id nodes)
  unfolding recompute_node_policy update_node_health update_node_commit_limits
  recompute_node_policy-IsRecomputed nodes n distinct listed worker =
      let found = find_by_key (λ m. m.id) n nodes distinct listed in
      let no_portal : n.node_role == "portal" ≡ false =
        let portal = eq_iff n.node_role "portal" in ground arith in
      let change : Node → Node = λ m. record m {
        ram_commit_limit = (ram_limit fl now n);
        disk_commit_limit = (disk_limit fl now n);
        health_status =
            health_status_of fl now
              (health_reasons fl now n (ram_limit fl now n) (disk_limit fl now n));
        health_reason_codes =
            join_reasons (health_reasons fl now n (ram_limit fl now n) (disk_limit fl now n));
        available_for_provisioning =
            is_empty (availability_reasons fl now n (ram_limit fl now n) (disk_limit fl now n));
        unavailable_reason_codes =
            join_reasons (availability_reasons fl now n (ram_limit fl now n) (disk_limit fl now n));
      } in
      let fused = update_where-update_where (is_node n.id) _ _ nodes (λ m hit. hit) in
      let once =
        fused
        ∙ update_where_one (λ m. m.id) change (λ _. recorded n) n nodes distinct listed refl in
      subst (IsRecomputed nodes n)
        (sym (rw (recompute_node_policy, found, no_portal) (ap (λ l. ok l) once)))
        (recomputed (recorded n) (recorded-IsRecorded n))

  -- A node that fits an application by its recorded row can be reserved for it.
  pub Fits-can_reserve :
      (n m : Node) (ram disk : ℤ)
      → IsRecorded n m
      → Fits fl now m ram disk
      → pos 0 <ℤ ram
      → pos 0 <ℤ disk
      → can_reserve m.id ram disk m ≡ true
  Fits-can_reserve n m ram disk r f hr hd =
      let healthy = r.health.0 f.healthy in
      let ram_limited : pos 0 <ℤ m.ram_commit_limit = rw r.ram_limit_now healthy.ram_limited in
      let disk_limited : pos 0 <ℤ m.disk_commit_limit = rw r.disk_limit_now healthy.disk_limited in
      let ram_fits =
        subst (λ l. m.committed_ram +ℤ ram ≤ℤ l) (own_limit m.ram_commit_limit _ ram_limited)
          f.ram_left in
      let disk_fits =
        subst (λ l. m.committed_disk +ℤ disk ≤ℤ l) (own_limit m.disk_commit_limit _ disk_limited)
          f.disk_left in
      let ram_left = below_limit m.committed_ram ram m.ram_commit_limit hr ram_fits in
      let disk_left = below_limit m.committed_disk disk m.disk_commit_limit hd disk_fits in
      let available = r.availability.1 (record {
        healthy = healthy;
        ram_left =
            subst (λ c. c <ℤ (ram_limit fl now n)) r.same_ram
              (subst (λ l. m.committed_ram <ℤ l) r.ram_limit_now ram_left);
        disk_left =
            subst (λ c. c <ℤ (disk_limit fl now n)) r.same_disk
              (subst (λ l. m.committed_disk <ℤ l) r.disk_limit_now disk_left);
      }) in
      let id = (eq_iff m.id m.id).1 refl in
      let active = (eq_iff m.status "active").1 f.active in
      let is_healthy = (eq_iff m.health_status "healthy").1 f.healthy in ground arith

  reserve_recomputed :
      (nodes later : List Node) (n m : Node) (ram disk : ℤ) (answer : Result (List Node))
      → Distinct (map (λ x. x.id) nodes)
      → In n nodes
      → IsRecomputed nodes n answer
      → answer ≡ ok later
      → find (is_node n.id) later ≡ some m
      → Fits fl now m ram disk
      → pos 0 <ℤ ram
      → pos 0 <ℤ disk
      → reserve_node_capacity n.id ram disk later ≡ some (add_node_commitment n.id ram disk later)
  reserve_recomputed nodes later n m ram disk _ distinct listed (recomputed r rec) e found f hr hd =
      let is_later = ok_injective _ later e in
      let ids = map-update_where_one (λ x. x.id) n r nodes rec.same_id in
      let distinct_later =
        subst (λ xs. Distinct xs) (sym ids ∙ ap (map (λ x. x.id)) is_later) distinct in
      let in_later =
        subst (In r) is_later
          (In-update_where (is_node n.id) (λ _. r) n nodes listed ((eq_iff n.id n.id).1 refl)) in
      let by_key =
        subst (λ k. find (λ y. y.id == k) later ≡ some r) rec.same_id
          (find_by_key (λ x. x.id) r later distinct_later in_later) in
      let same = some_injective m r (sym found ∙ by_key) in
      let rec_m = subst (IsRecorded n) (sym same) rec in
      let free = Fits-can_reserve n m ram disk rec_m f hr hd in
      let in_m = subst (λ x. In x later) (sym same) in_later in
      let row = reserve_node_capacity_row n.id ram disk later distinct_later m in_m rec_m.same_id in
      row ∙ rw (← rec_m.same_id, free) refl

  -- After its policy was recomputed, a worker of a table with distinct identifiers whose row fits an
  -- application of a positive size at the same time is reserved for it, and only its row is charged.
  pub reserve_node_capacity-recompute_node_policy :
      (nodes later : List Node) (n m : Node) (ram disk : ℤ)
      → Distinct (map (λ x. x.id) nodes)
      → In n nodes
      → n.node_role ≢ "portal"
      → recompute_node_policy fl now n.id nodes ≡ ok later
      → find (is_node n.id) later ≡ some m
      → Fits fl now m ram disk
      → pos 0 <ℤ ram
      → pos 0 <ℤ disk
      → reserve_node_capacity n.id ram disk later ≡ some (add_node_commitment n.id ram disk later)
  reserve_node_capacity-recompute_node_policy nodes later n m ram disk distinct listed worker e =
      reserve_recomputed nodes later n m ram disk _ distinct listed
        (recompute_node_policy-IsRecomputed nodes n distinct listed worker) e
