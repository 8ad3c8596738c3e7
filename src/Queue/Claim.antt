-- ===== src/Queue/Claim.antt =====
-- `claimTask` of internal/queue/queue.go: expired leases are reset, the next command of the node is
-- leased, and its payload decoded, all in one transaction.
use admirald.Shared.{
  ℕ, ◌+◌, ltb, leb, nat_beq, Bool, false, not, ◌&&◌, ◌||◌, Option, none, some, String, List, [],
  ◌∷◌, if◌then◌else◌, ◌==◌, keep, update_where, Error, ok, err,
}
use admirald.Queue.Command.{
  pending, leased, dead_letter, FleetTask, FleetCommand, is_held, is_pending, default_lease_seconds,
}
use admirald.Queue.Codec.{Codec, decode_payload}

-- `leased_until IS NOT NULL AND leased_until < CURRENT_TIMESTAMP`
abbrev pub lease_over : ℕ → Option ℕ → Bool
lease_over now none = false
lease_over now (some t) = ltb t now

abbrev pub is_expired : ℕ → String → FleetCommand → Bool
is_expired now node c = c.node_id == node && is_held c.status && lease_over now c.leased_until

unfoldable pub end_lease : FleetCommand → FleetCommand
end_lease c = record c {
  status = if leb c.max_attempts c.attempt_count then dead_letter else pending;
  leased_until = none;
  leased_by = none;
}

unfoldable pub reset_expired : ℕ → String → List FleetCommand → List FleetCommand
unfolding end_lease
reset_expired now node table = update_where (is_expired now node) end_lease table

-- The WHERE clause of `next_command`; `locked` holds of the rows that other transactions lock,
-- which SKIP LOCKED leaves out.
abbrev pub is_ready : (String → Bool) → ℕ → String → FleetCommand → Bool
is_ready locked now node c =
    c.node_id == node
    && is_pending c.status
    && ltb c.attempt_count c.max_attempts
    && leb c.available_at now
    && not (locked c.id)

-- `ORDER BY priority ASC, created_at ASC`
abbrev pub comes_before : FleetCommand → FleetCommand → Bool
comes_before a b =
    ltb a.priority b.priority || nat_beq a.priority b.priority && ltb a.created_at b.created_at

-- `LIMIT 1`: of rows that tie, the first in storage order.
unfoldable pub first_in_order : FleetCommand → List FleetCommand → FleetCommand
first_in_order best [] = best
first_in_order best (c ∷ cs) = first_in_order (if comes_before c best then c else best) cs

unfoldable pub next_command : (String → Bool) → ℕ → String → List FleetCommand → Option FleetCommand
unfolding first_in_order
next_command locked now node table = elim (keep (is_ready locked now node) table) [
  | [] ↦ none
  | c ∷ cs ↦ some (first_in_order c cs)
]

unfoldable pub lease : ℕ → String → FleetCommand → FleetCommand
lease now consumer c = record c {
  status = leased;
  leased_by = some consumer;
  leased_until = some (now + default_lease_seconds);
  attempt_count = c.attempt_count + 1;
}

unfoldable pub lease_command : ℕ → String → String → List FleetCommand → List FleetCommand
unfolding lease
lease_command now consumer id table = update_where (λ c. c.id == id) (lease now consumer) table

-- What a claim returns.
pub data Claim : Type 0 where
  -- task, command ID, attempt count, maximum of attempts
  claimed : FleetTask → String → ℕ → ℕ → Claim
  no_command_available : Claim
  claim_failed : Error → Claim

-- The signature columns override what the payload holds.
abbrev pub set_signature : Option String → FleetTask → FleetTask
set_signature none t = t
set_signature (some s) t = record t { task_signature = s }

abbrev pub set_signed_at : Option ℕ → FleetTask → FleetTask
set_signed_at none t = t
set_signed_at (some n) t = record t { signed_at = n }

-- After the row is leased: an undecodable payload rolls the transaction back to `before`.
unfoldable pub deliver :
    Codec
    → List ℕ
    → FleetCommand
    → List FleetCommand
    → List FleetCommand
    → Claim × List FleetCommand
deliver codec key c before after = elim (decode_payload codec key c.payload) [
  | err e ↦ (claim_failed e, before)
  | ok t ↦ (
    claimed (set_signed_at c.signed_at (set_signature c.task_signature t)) c.id
        (c.attempt_count + 1) c.max_attempts,
    after,
  )
]

-- `consumer` is `nodeID-nanoseconds`.
unfoldable pub claim_task :
    Codec
    → List ℕ
    → (String → Bool)
    → ℕ
    → String
    → String
    → List FleetCommand
    → Claim × List FleetCommand
unfolding deliver
claim_task codec key locked now consumer node table =
    let reset = reset_expired now node table in
    elim (next_command locked now node reset) [
      | none ↦ (no_command_available, reset)
      | some c ↦ deliver codec key c table (lease_command now consumer c.id reset)
    ]
