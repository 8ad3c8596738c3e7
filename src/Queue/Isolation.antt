-- ===== src/Queue/Isolation.antt =====
-- A call made for one node leaves the commands of every other node as they were.
use admirald.Shared.{
  ℕ, ◌≡◌, refl, ◌∙◌, inl, inr, Bool, true, false, not, String, [], ◌∷◌, arith, In, keep, eq_iff,
  ◌==◌, row_of_key, update_where, Bool-cases,
}
use admirald.Queue.Command.{FleetCommand}
use admirald.Queue.Claim.{reset_expired, end_lease, is_expired, lease_command, lease, is_ready}
use admirald.Queue.Settle.{
  Table, mark_running_for_node, renew_lease_for_node, discard_command_for_node,
  cancel_command_for_node, cancel_task_for_node, acknowledge_task_for_node,
  restore_cancelled_tasks_for_node, finalize_cancelled_tasks_for_node, discard_tasks_for_node,
}
use admirald.Queue.Rows.{IsValid}
use admirald.Queue.Order.{next_command-first}
use admirald.Queue.History.{
  NodeStep, claim, Claims, idle, broken, taken, claim_task-Claims, IsValid-reset_expired,
}

abbrev pub is_other : String → FleetCommand → Bool
is_other node c = not (c.node_id == node)

-- The commands of the other nodes, in order.
abbrev pub others : String → Table → Table
others node = keep (is_other node)

-- An update of rows that all belong to the node is not seen in the view of the others.
keep-update_where-In :
    (v p : FleetCommand → Bool) (f : FleetCommand → FleetCommand) (t : Table)
    → ((c : FleetCommand) → In c t → p c ≡ true → v c ≡ false)
    → ((c : FleetCommand) → v (f c) ≡ v c)
    → keep v (update_where p f t) ≡ keep v t
unfolding update_where
keep-update_where-In v p f [] out same = refl
keep-update_where-In v p f (c ∷ cs) out same =
    let rest = keep-update_where-In v p f cs (λ x m. out x (inr m)) same in
    elim (Bool-cases (p c)) [
      | inl hit ↦ rw (hit, same c, out c (inl refl) hit) rest
      | inr miss ↦ rw (miss, rest)
    ]

module _ (locked : String → Bool) (now : ℕ) (consumer node : String) (t : Table)
    (v : IsValid t) where
  others-reset_expired : others node (reset_expired now node t) ≡ others node t
  unfolding reset_expired
  others-reset_expired =
      keep-update_where-In (is_other node) (is_expired now node) end_lease t
        (λ c m hit. ground arith) λ c. refl

  others-lease_command :
      (c : FleetCommand) (r : Table)
      → IsValid r
      → In c r
      → is_ready locked now node c ≡ true
      → others node (lease_command now consumer c.id r) ≡ others node r
  unfolding lease_command
  others-lease_command c r valid m ready =
      keep-update_where-In (is_other node) (λ x. x.id == c.id) (lease now consumer) r
        (λ x mx hit.
          let same : x ≡ c =
            row_of_key (λ y. y.id) x c r valid.ids_distinct mx m ((eq_iff x.id c.id).0 hit) in
          rw same (ground arith))
        λ x. refl

-- In a valid table, a claim, whatever its outcome, and every other call for a node changes no command
-- of another node.
pub NodeStep-others :
    {node : String} {t u : Table} → NodeStep node t u → IsValid t → others node u ≡ others node t
unfolding mark_running_for_node renew_lease_for_node discard_command_for_node
    cancel_command_for_node cancel_task_for_node acknowledge_task_for_node discard_tasks_for_node
    restore_cancelled_tasks_for_node finalize_cancelled_tasks_for_node
NodeStep-others {node} {t} (claim codec key locked now consumer) v =
    go (claim_task-Claims codec key locked now consumer node t)
  where
    go :
        {r : _ × Table}
        → Claims codec key locked now consumer node t r
        → others node r.1 ≡ others node t
    go (idle _) = others-reset_expired locked now consumer node t v
    go (broken c e _ _) = refl
    go (taken c task found _) =
        let reset = reset_expired now node t in
        let (m, ready, _) = next_command-first locked now node reset c found in
        others-lease_command locked now consumer node t v c reset
          (IsValid-reset_expired now node t v) m ready
        ∙ others-reset_expired locked now consumer node t v
NodeStep-others {node} {t} _ v =
    keep-update_where-In (is_other node) _ _ t (λ c m hit. ground arith) λ c. refl
