-- ===== src/Queue/Next.antt =====
-- Which command a claim takes (claimTask of internal/queue/queue.go).
use admirald.Shared.{
  ℕ, ◌+◌, ◌≤◌, ◌<◌, ◌≡◌, ◌↔◌, ◌⊎◌, refl, ap, ◌∙◌, Bool, true, false, some, String, List, arith, In,
  eq_iff, ◌==◌, update_where,
}
use admirald.Queue.Command.{FleetCommand, pending, leased}
use admirald.Queue.Codec.{Codec}
use admirald.Queue.Claim.{
  Claim, claimed, claim_task, reset_expired, lease_command, lease, is_ready, comes_before,
}
use admirald.Queue.Settle.{Table}
use admirald.Queue.Order.{next_command-first}
use admirald.Queue.History.{Claims, idle, broken, taken, claim_task-Claims}

-- `id` is the command that a claim reports.
abbrev pub Reports : String → Claim → Type 0
Reports id (claimed _ i _ _) = i ≡ id
Reports id _ = ⊥

-- A command that may be handed out to a node now.
pub record IsReady (locked : String → Bool) (now : ℕ) (node : String) (c : FleetCommand)
    : Type 0 where
  pub for_node : c.node_id ≡ node
  pub waiting : c.status ≡ pending
  pub left : c.attempt_count < c.max_attempts
  pub due : c.available_at ≤ now
  pub free : locked c.id ≡ false

is_ready-IsReady :
    (locked : String → Bool) (now : ℕ) (node : String) (c : FleetCommand)
    → (is_ready locked now node c ≡ true) ↔ IsReady locked now node c
is_ready-IsReady locked now node c =
    let same = eq_iff c.node_id node in
    (
      λ h. record {
        for_node = ground arith;
        waiting = ground arith;
        left = ground arith;
        due = ground arith;
        free = ground arith;
      },
      λ v.
          let for_node = v.for_node in
          let waiting = v.waiting in
          let left = v.left in let due = v.due in let free = v.free in ground arith,
    )

-- The next command to hand out: a ready one that no other ready one precedes, by priority and then by
-- age.
pub record IsNext (locked : String → Bool) (now : ℕ) (node : String) (t : Table) (c : FleetCommand)
    : Type 0 where
  pub present : In c t
  pub ready : IsReady locked now node c
  pub first :
      (x : FleetCommand)
      → In x t
      → IsReady locked now node x
      → (c.priority < x.priority) ⊎ ((c.priority ≡ x.priority) × (c.created_at ≤ x.created_at))

not_before :
    (x c : FleetCommand)
    → comes_before x c ≡ false
    → (c.priority < x.priority) ⊎ ((c.priority ≡ x.priority) × (c.created_at ≤ x.created_at))
not_before x c h = ground arith

-- The lease of 300 seconds that a claim gives, with one more attempt.
abbrev pub leased_to : ℕ → String → FleetCommand → FleetCommand
leased_to now consumer c = record c {
  status = leased;
  leased_by = some consumer;
  leased_until = some (now + 300);
  attempt_count = c.attempt_count + 1;
}

lease_command-leased_to :
    (now : ℕ) (consumer id : String) (t : Table)
    → lease_command now consumer id t ≡ update_where (λ c. c.id == id) (leased_to now consumer) t
unfolding lease_command lease
lease_command-leased_to now consumer id t = refl

module _ (codec : Codec) (key : List ℕ) (locked : String → Bool) (now : ℕ) (consumer node : String)
    (t : Table) where
  -- What a claim of a command has found and done.
  abbrev pub HandsOut : String → Table → Type 0
  HandsOut id after =
      (c : FleetCommand) × IsNext locked now node (reset_expired now node t) c
      × (c.id ≡ id)
      × (after ≡ update_where (λ x. x.id == id) (leased_to now consumer) (reset_expired now node t))

  -- A claim that returns a command has leased, for 300 seconds and with one more attempt, the
  -- first of the node's ready commands by priority and age, once the node's expired leases are reset.
  pub claim_task-IsNext :
      (id : String)
      → Reports id (claim_task codec key locked now consumer node t).0
      → HandsOut id (claim_task codec key locked now consumer node t).1
  claim_task-IsNext id h = go (claim_task-Claims codec key locked now consumer node t) h
    where
      go :
          {r : Claim × Table}
          → Claims codec key locked now consumer node t r
          → Reports id r.0
          → HandsOut id r.1
      go (idle _) h = absurd h
      go (broken c e _ _) h = absurd h
      go (taken c task found _) h =
          let reset = reset_expired now node t in
          let (m, ready, first) = next_command-first locked now node reset c found in
          (
            c,
            record {
              present = m;
              ready = (is_ready-IsReady locked now node c).0 ready;
              first = λ x mx rx.
                  not_before x c (first x mx ((is_ready-IsReady locked now node x).1 rx));
            },
            h,
            ap (λ i. lease_command now consumer i reset) h
                ∙ lease_command-leased_to now consumer id reset,
          )
