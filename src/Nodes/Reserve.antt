-- ===== src/Nodes/Reserve.antt =====
-- Reserving and releasing capacity, and what the policy of a node promises to a reservation.
use mathlib.Core.Path.{subst}
use admirald.Shared.{
  ◌≡◌, refl, sym, ap, ◌∙◌, inl, inr, ℤ, pos, negsuc, ◌+ℤ◌, ◌-ℤ◌, ◌≤ℤ◌, +ℤ_parts, true, false, ◌&&◌,
  none, some, String, List, map, arith, eq_iff, if◌then◌else◌, In, All, Distinct, Bool-cases,
  affected, All-update_where, All-each, any-hit, any-miss, row_of_key, update_where-same, if_some,
  and_true, and_false, update_where-update_where, update_where-idle, All-In,
}
use mathlib.Core.Option as Option
use admirald.Nodes.Node.{
  Node, is_node, at_least_zero, can_reserve, add_node_commitment, release_node_commitment,
  reserve_node_capacity,
}

-- No more is committed than the limits allow, and nothing less than zero.
pub record IsWithin (n : Node) : Type 0 where
  pub ram_counted : pos 0 ≤ℤ n.committed_ram
  pub disk_counted : pos 0 ≤ℤ n.committed_disk
  pub ram_within : n.committed_ram ≤ℤ n.ram_commit_limit
  pub disk_within : n.committed_disk ≤ℤ n.disk_commit_limit

module _ (id : String) (ram disk : ℤ) where
  abbrev taken : Node → Node
  taken n = record n {
    committed_ram = n.committed_ram +ℤ ram;
    committed_disk = n.committed_disk +ℤ disk;
  }

  taken-IsWithin :
      (n : Node)
      → pos 0 ≤ℤ ram
      → pos 0 ≤ℤ disk
      → can_reserve id ram disk n ≡ true
      → IsWithin n
      → IsWithin (taken n)
  taken-IsWithin n r d h w =
      let a = +ℤ_parts n.committed_ram ram in
      let b = +ℤ_parts n.committed_disk disk in
      let c = w.ram_counted in
      let e = w.disk_counted in
      record {
        ram_counted = ground arith;
        disk_counted = ground arith;
        ram_within = ground arith;
        disk_within = ground arith;
      }

  module _ (nodes : List Node) (distinct : Distinct (map (λ n. n.id) nodes)) (n : Node)
      (listed : In n nodes) (e : n.id ≡ id) where
    can_reserve_row :
        (x : Node)
        → In x nodes
        → can_reserve id ram disk x ≡ (is_node id x && can_reserve id ram disk n)
    can_reserve_row x mem = elim (Bool-cases (is_node id x)) [
      | inl hit ↦
          let same =
            row_of_key (λ m. m.id) x n nodes distinct mem listed ((eq_iff x.id id).0 hit ∙ sym e) in
          ap (λ y. can_reserve id ram disk y) same
          ∙ sym (ap (λ t. t && can_reserve id ram disk n) hit)
      | inr miss ↦ rw (miss) refl
    ]

    -- The row that is reserved is the one of the node, and is changed once.
    pub reserve_node_capacity_row :
        reserve_node_capacity id ram disk nodes
        ≡ (if can_reserve id ram disk n then some (add_node_commitment id ram disk nodes) else none)
    unfolding reserve_node_capacity add_node_commitment
    reserve_node_capacity_row = elim (Bool-cases (can_reserve id ram disk n)) [
      | inl free ↦
          let same =
            update_where-same (can_reserve id ram disk) (is_node id) taken nodes
              (λ x mem. can_reserve_row x mem ∙ rw free (and_true (is_node id x))) in
          rw (free, any-hit (can_reserve id ram disk) n nodes listed free) (ap (λ l. some l) same)
      | inr full ↦
          rw
            (
              full,
              any-miss (can_reserve id ram disk) nodes (
                  All-each (λ x. can_reserve id ram disk x ≡ false) nodes
                    (λ x mem. can_reserve_row x mem ∙ rw full (and_false (is_node id x)))),
            )
            refl
    ]

  -- A reservation keeps every node within its limits.
  pub reserve_node_capacity-IsWithin :
      (nodes later : List Node)
      → pos 0 ≤ℤ ram
      → pos 0 ≤ℤ disk
      → reserve_node_capacity id ram disk nodes ≡ some later
      → All IsWithin nodes
      → All IsWithin later
  unfolding reserve_node_capacity
  reserve_node_capacity-IsWithin nodes later r d h w =
      let kept =
        All-update_where IsWithin (can_reserve id ram disk) taken nodes
          (λ x mem hit within. taken-IsWithin x r d hit within) w in
      subst (All IsWithin) (if_some (affected (can_reserve id ram disk) nodes) _ later h) kept

  abbrev freed : Node → Node
  freed n = record n {
    committed_ram = at_least_zero (n.committed_ram -ℤ ram);
    committed_disk = at_least_zero (n.committed_disk -ℤ disk);
  }

  released_taken : (c a : ℤ) → pos 0 ≤ℤ c → pos 0 ≤ℤ a → at_least_zero ((c +ℤ a) -ℤ a) ≡ c
  unfolding ◌+ℤ◌ ◌-ℤ◌
  released_taken (pos c) (pos a) h k = ground arith
  released_taken (pos c) (negsuc a) h k = ground arith
  released_taken (negsuc c) a h k = ground arith

  -- Releasing what was reserved on a node within its limits restores the table.
  pub release_node_commitment-reserve_node_capacity :
      (nodes : List Node)
      → Distinct (map (λ n. n.id) nodes)
      → (n : Node) → In n nodes
      → n.id ≡ id
      → pos 0 ≤ℤ ram
      → pos 0 ≤ℤ disk
      → All IsWithin nodes
      → can_reserve id ram disk n ≡ true
      → Option.map (release_node_commitment id ram disk) (reserve_node_capacity id ram disk nodes)
        ≡ some nodes
  unfolding release_node_commitment add_node_commitment
  release_node_commitment-reserve_node_capacity nodes distinct n listed e r d w free =
      let restored : release_node_commitment id ram disk (add_node_commitment id ram disk nodes)
          ≡ nodes =
        update_where-update_where (is_node id) taken freed nodes (λ x hit. hit)
        ∙ update_where-idle (is_node id) (λ x. freed (taken x)) nodes
            (λ x mem hit.
              let within = All-In IsWithin x nodes w mem in
              rw
                (
                  released_taken x.committed_ram ram within.ram_counted r,
                  released_taken x.committed_disk disk within.disk_counted d,
                )
                refl) in
      rw (reserve_node_capacity_row nodes distinct n listed e, free) (ap (λ l. some l) restored)
