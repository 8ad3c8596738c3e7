-- ===== src/Queue/Removal.antt =====
-- Removal of a node: its commands are cancelled under a marker, and then either restored or finalized
-- (`CancelTasksForNode`, `RestoreCancelledTasksForNode`, `FinalizeCancelledTasksForNode`).
use admirald.Shared.{
  ℕ, ◌≡◌, ◌≢◌, refl, inl, inr, false, String, [], ◌∷◌, arith, All, eq_iff, update_where, Bool-cases,
  if◌then◌else◌,
}
use admirald.Queue.Command.{FleetCommand}
use admirald.Queue.Settle.{
  Table, is_active_of, is_marked, cancel_with, restore, cancel_tasks_for_node,
  has_active_tasks_for_node, restore_cancelled_tasks_for_node, finalize_cancelled_tasks_for_node,
}

-- No command of the node carries the marker of an earlier removal.
abbrev pub IsFresh : String → String → Table → Type 0
IsFresh node marker = All (λ c. is_marked node marker c ≡ false)

restore-cancel_row :
    (now later : ℕ) (node marker : String) (c : FleetCommand)
    → is_marked node marker c ≡ false
    → let cancelled_row = if is_active_of node c then cancel_with now marker c else c in
      (if is_marked node marker cancelled_row then restore later cancelled_row else cancelled_row)
      ≡ (if is_active_of node c then restore later c else c)
restore-cancel_row now later node marker c fresh = elim (Bool-cases (is_active_of node c)) [
  | inl active ↦ rw active (ground (arith, eq_iff marker marker))
  | inr idle ↦ rw (idle, fresh)
]

-- Restoring after a cancellation with a fresh marker makes every command of the node that was
-- pending, leased or running pending again, without a lease, and leaves all others as they were.
pub restore-cancel_tasks :
    (now later : ℕ) (node marker : String) (t : Table)
    → IsFresh node marker t
    → restore_cancelled_tasks_for_node later node marker (cancel_tasks_for_node now node marker t)
      ≡ update_where (is_active_of node) (restore later) t
unfolding restore_cancelled_tasks_for_node cancel_tasks_for_node update_where
restore-cancel_tasks now later node marker [] fresh = refl
restore-cancel_tasks now later node marker (c ∷ cs) fresh = cc (
  restore-cancel_row now later node marker c fresh.0,
  restore-cancel_tasks now later node marker cs fresh.1,
)

-- After the cancellation the node has no active command left.
pub has_active-cancel_tasks :
    (now : ℕ) (node marker : String) (t : Table)
    → has_active_tasks_for_node node (cancel_tasks_for_node now node marker t) ≡ false
unfolding has_active_tasks_for_node cancel_tasks_for_node update_where
has_active-cancel_tasks now node marker [] = refl
has_active-cancel_tasks now node marker (c ∷ cs) =
    let rest = has_active-cancel_tasks now node marker cs in
    elim (Bool-cases (is_active_of node c)) [
      | inl active ↦ rw active (ground arith)
      | inr idle ↦ rw (idle, idle) rest
    ]

-- Once finalized, the commands stay cancelled: a restore with the same marker finds none of them.
pub restore-finalize_tasks :
    (later : ℕ) (node marker : String) (t : Table)
    → marker ≢ "node removed"
    → let done = finalize_cancelled_tasks_for_node node marker t in
      restore_cancelled_tasks_for_node later node marker done ≡ done
unfolding restore_cancelled_tasks_for_node finalize_cancelled_tasks_for_node update_where
restore-finalize_tasks later node marker [] h = refl
restore-finalize_tasks later node marker (c ∷ cs) h =
    let rest = restore-finalize_tasks later node marker cs h in
    elim (Bool-cases (is_marked node marker c)) [
      | inl marked ↦ rw marked (ground (arith, eq_iff "node removed" marker))
      | inr other ↦ rw (other, other) (cc rest)
    ]
