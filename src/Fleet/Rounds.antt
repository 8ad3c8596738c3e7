-- ===== src/Fleet/Rounds.antt =====
-- The rounds of HandleTaskClaim (internal/api/handlers_fleet.go), by what the queue gives in each.
use admirald.Shared.{
  ℕ, suc, ◌+◌, ◌≡◌, inl, inr, Bool, none, some, String, List, ◌==◌, Bool-cases, Error, ok, err,
}
use admirald.Queue.Command.{FleetTask, FleetCommand}
use admirald.Queue.Codec.{Codec, decode_payload}
use admirald.Queue.Claim.{
  Claim, reset_expired, next_command, lease_command, set_signature, set_signed_at,
}
use admirald.Queue.Settle.{Table, cancel_command_for_node}
use admirald.Queue.History.{Claims, idle, broken, taken, claim_task-Claims}
use admirald.Instances.Instance.{CustomerApp}
use admirald.Operations.Operation.{Operation}
use admirald.Fleet.Stale.{discard_reason}
use admirald.Fleet.Eligible.{IsEligible, discard_reason-IsEligible}
use admirald.Fleet.TaskClaim.{
  ClaimAnswer, no_content, internal_error, handed_out, after_claim, hand_out_or_discard,
  claim_rounds,
}

module _ (codec : Codec) (key : List ℕ) (locked : ℕ → String → Bool) (now : ℕ → ℕ)
    (consumer : ℕ → String) (operations : List Operation) (apps : List CustomerApp)
    (node : String) where
  -- The task that a row carries, with the signature of the row.
  abbrev pub signed : FleetCommand → FleetTask → FleetTask
  signed c task = set_signed_at c.signed_at (set_signature c.task_signature task)

  -- The table after the claim of a command in the round.
  abbrev pub held : ℕ → FleetCommand → Table → Table
  held n c t = lease_command (now n) (consumer n) c.id (reset_expired (now n) node t)

  -- The table after the command was cancelled again.
  abbrev pub dropped : ℕ → FleetCommand → FleetTask → Table → Table
  dropped n c task t =
      cancel_command_for_node (now n) c.id node
        (discard_reason operations apps node (signed c task)) (held n c t)

  -- The outcomes of one round.
  pub data Round (n : ℕ) (t : Table) : ClaimAnswer × Table → Type 0 where
    quiet :
        next_command (locked n) (now n) node (reset_expired (now n) node t) ≡ none
        → Round n t (no_content, reset_expired (now n) node t)
    unreadable :
        (c : FleetCommand) (e : Error)
        → next_command (locked n) (now n) node (reset_expired (now n) node t) ≡ some c
        → decode_payload codec key c.payload ≡ err e
        → Round n t (internal_error e, t)
    given :
        (c : FleetCommand) (task : FleetTask)
        → next_command (locked n) (now n) node (reset_expired (now n) node t) ≡ some c
        → decode_payload codec key c.payload ≡ ok task
        → IsEligible operations apps node (signed c task)
        → Round n t
            (handed_out (signed c task) c.id (c.attempt_count + 1) c.max_attempts, held n c t)
    discarded :
        (c : FleetCommand) (task : FleetTask)
        → next_command (locked n) (now n) node (reset_expired (now n) node t) ≡ some c
        → decode_payload codec key c.payload ≡ ok task
        → (IsEligible operations apps node (signed c task) → ⊥)
        → Round n t
            (claim_rounds codec key locked now consumer operations apps node n (dropped n c task t))

  abbrev discard : ℕ → String → String → Table → ClaimAnswer × Table
  discard n id reason after =
      claim_rounds codec key locked now consumer operations apps node n
        (cancel_command_for_node (now n) id node reason after)

  after_claim-Round :
      (n : ℕ) (t : Table) {r : Claim × Table}
      → Claims codec key (locked n) (now n) (consumer n) node t r
      → Round n t (after_claim codec key locked now consumer operations apps node (discard n) r)
  unfolding after_claim hand_out_or_discard
  after_claim-Round n t (idle none_left) = quiet none_left
  after_claim-Round n t (broken c e found bad) = unreadable c e found bad
  after_claim-Round n t (taken c task found good) =
      let wanted = discard_reason-IsEligible operations apps node (signed c task) in
      elim (Bool-cases (discard_reason operations apps node (signed c task) == "")) [
        | inl h ↦ rw (hand_out_or_discard, h) (given c task found good (wanted.0 h))
        | inr h ↦
            rw (hand_out_or_discard, h)
              (discarded c task found good (λ v. let h2 = wanted.1 v in cc))
      ]

  pub claim_rounds-Round :
      (n : ℕ) (t : Table)
      → Round n t (claim_rounds codec key locked now consumer operations apps node (suc n) t)
  unfolding claim_rounds
  claim_rounds-Round n t =
      after_claim-Round n t (claim_task-Claims codec key (locked n) (now n) (consumer n) node t)
