-- ===== src/Fleet/Live.antt =====
-- HandleTaskClaim (internal/api/handlers_fleet.go) does not starve a node: while fewer commands of the node
-- are active than there are rounds, an eligible task is found behind those that are discarded.
use mathlib.Core.Path.{subst}
use admirald.Shared.{
  ℕ, zero, suc, ◌≤◌, ◌<◌, ◌≡◌, ◌≢◌, refl, sym, ◌∙◌, inl, inr, Bool, true, false, some, none, Option,
  String, List, [], ◌∷◌, ◌==◌, arith, eq_iff, In, In-update_where, In-update_where_miss, Bool-cases,
  keep, count_where, count_where-update_where, count_where-update_where_one, update_where,
  update_where_origin, row_of_key, ok,
}
use admirald.Queue.Command.{FleetTask, FleetCommand}
use admirald.Queue.Codec.{Codec, decode_payload}
use admirald.Queue.Claim.{
  reset_expired, is_expired, end_lease, lease_command, lease, next_command, is_ready,
  first_in_order,
}
use admirald.Queue.Settle.{Table, cancel_command_for_node, is_active_of}
use admirald.Queue.Rows.{IsValid}
use admirald.Queue.Order.{next_command-first, keep-In}
use admirald.Queue.History.{
  cancel_command, of_node, Step-IsValid, IsValid-reset_expired, IsValid-lease_command, ready-room,
}
use admirald.Instances.Instance.{CustomerApp}
use admirald.Operations.Operation.{Operation}
use admirald.Fleet.Stale.{discard_reason}
use admirald.Fleet.Eligible.{IsEligible}
use admirald.Fleet.TaskClaim.{ClaimAnswer, handed_out, claim_rounds, claim_as, handle_task_claim}
use admirald.Fleet.Rounds.{
  signed, held, dropped, Round, quiet, unreadable, given, discarded, claim_rounds-Round,
}

-- The answer hands out a task.
pub data HandsOutTask : ClaimAnswer × Table → Type 0 where
  hands_out :
      (task : FleetTask) (id : String) (attempts max_attempts : ℕ) (t : Table)
      → HandsOutTask (handed_out task id attempts max_attempts, t)

-- The queue has nothing to hand out only if no command is ready.
next_command-none :
    (locked : String → Bool) (now : ℕ) (node : String) (t : Table) (c : FleetCommand)
    → In c t
    → is_ready locked now node c ≡ true
    → next_command locked now node t ≢ none
unfolding next_command first_in_order
next_command-none locked now node t c m ready h =
    go (keep (is_ready locked now node) t) (keep-In (is_ready locked now node) c t m ready) h
  where
    pick : Table → Option FleetCommand
    pick = elim [ [] ↦ none | b ∷ bs ↦ some (first_in_order b bs) ]

    go : (ks : Table) → In c ks → pick ks ≡ none → ⊥
    go [] m e = m
    go (k ∷ ks) m e = cc

module _ (codec : Codec) (key : List ℕ) (locked : ℕ → String → Bool) (now : ℕ → ℕ)
    (consumer : ℕ → String) (operations : List Operation) (apps : List CustomerApp)
    (node : String) where
  -- Every payload of the node can be read.
  abbrev pub IsReadable : Table → Type 0
  IsReadable t =
      (x : FleetCommand)
      → In x t
      → x.node_id ≡ node
      → (task : FleetTask) × (decode_payload codec key x.payload ≡ ok task)

  -- The task of a command is wanted.
  abbrev pub IsWanted : FleetCommand → Type 0
  IsWanted c =
      (task : FleetTask)
      → decode_payload codec key c.payload ≡ ok task
      → IsEligible operations apps node
          (signed codec key locked now consumer operations apps node c task)

  IsReadable-update_where :
      (p : FleetCommand → Bool) (f : FleetCommand → FleetCommand) (t : Table)
      → ((x : FleetCommand) → (f x).node_id ≡ x.node_id)
      → ((x : FleetCommand) → (f x).payload ≡ x.payload)
      → IsReadable t
      → IsReadable (update_where p f t)
  IsReadable-update_where p f t same_node same_payload r y m here =
      let (x, mx, from) = update_where_origin p f y t m in
      elim from [
        | inl e ↦ r y (subst (λ z. In z t) (sym e) mx) here
        | inr (hit, e) ↦
            let at : x.node_id ≡ node = sym (same_node x) ∙ subst (λ z. z.node_id ≡ node) e here in
            let (task, good) = r x mx at in
            (
              task,
              subst (λ z. decode_payload codec key z.payload ≡ ok task) (sym e)
                  (subst (λ b. decode_payload codec key b ≡ ok task) (sym (same_payload x)) good),
            )
      ]

  module _ (c : FleetCommand) (wanted : IsWanted c)
      (ready : (n : ℕ) → is_ready (locked n) (now n) node c ≡ true) (n : ℕ) (t : Table)
      (v : IsValid t) (m : In c t) where
    abbrev reset : Table
    reset = reset_expired (now n) node t

    In-reset : In c reset
    unfolding reset_expired
    In-reset =
        let r = ready n in
        In-update_where_miss (is_expired (now n) node) end_lease c t m (ground arith)

    reset-IsValid : IsValid reset
    reset-IsValid = IsValid-reset_expired (now n) node t v

    module _ (d : FleetCommand) (task : FleetTask)
        (found : next_command (locked n) (now n) node reset ≡ some d)
        (good : decode_payload codec key d.payload ≡ ok task)
        (unwanted : IsEligible operations apps node
            (signed codec key locked now consumer operations apps node d task)
          → ⊥) where
      abbrev left : Table
      left = dropped codec key locked now consumer operations apps node n d task t

      abbrev lent : Table
      lent = held codec key locked now consumer operations apps node n d t

      -- The command that is dropped is another one.
      other_id : c.id == d.id ≡ false
      other_id = elim (Bool-cases (c.id == d.id)) [
        | inr other ↦ other
        | inl hit ↦
            let (md, _, _) = next_command-first (locked n) (now n) node reset d found in
            let same : c ≡ d =
              row_of_key (λ x. x.id) c d reset (reset-IsValid.ids_distinct) In-reset md
                ((eq_iff c.id d.id).0 hit) in
            let read : decode_payload codec key c.payload ≡ ok task =
              subst (λ x. decode_payload codec key x.payload ≡ ok task) (sym same) good in
            absurd (
              unwanted (
                subst
                  (λ x.
                    IsEligible operations apps node
                      (signed codec key locked now consumer operations apps node x task))
                  same (wanted task read)))
      ]

      In-left : In c left
      unfolding cancel_command_for_node lease_command
      In-left =
          let other = other_id in
          let in_lent : In c lent =
            In-update_where_miss (λ x. x.id == d.id) (lease (now n) (consumer n)) c reset In-reset
              other in
          In-update_where_miss _ _ c lent in_lent (ground arith)

      left-IsValid : IsValid left
      left-IsValid =
          let (md, got, _) = next_command-first (locked n) (now n) node reset d found in
          Step-IsValid
            (of_node node (
              cancel_command (now n) d.id (
                discard_reason operations apps node
                  (signed codec key locked now consumer operations apps node d task))))
            (IsValid-lease_command (now n) (consumer n) d reset md
              (ready-room (locked n) (now n) node d got) reset-IsValid)

      left-IsReadable : IsReadable t → IsReadable left
      unfolding cancel_command_for_node lease_command lease reset_expired end_lease
      left-IsReadable r =
          IsReadable-update_where _ _ lent (λ x. refl) (λ x. refl)
            (IsReadable-update_where _ _ reset (λ x. refl) (λ x. refl)
              (IsReadable-update_where _ _ t (λ x. refl) (λ x. refl) r))

      -- Dropping a command makes one command of the node less active.
      left-fewer : count_where (is_active_of node) left < count_where (is_active_of node) t
      unfolding cancel_command_for_node lease_command lease reset_expired end_lease
      left-fewer =
          let (md, got, _) = next_command-first (locked n) (now n) node reset d found in
          let first : count_where (is_active_of node) reset ≤ count_where (is_active_of node) t =
            count_where-update_where (is_active_of node) (is_expired (now n) node) end_lease t
              (λ x mx hit a. ground arith) in
          let second : count_where (is_active_of node) lent
              ≤ count_where (is_active_of node) reset =
            count_where-update_where (is_active_of node) (λ x. x.id == d.id)
              (lease (now n) (consumer n)) reset
              (λ x mx hit a.
                let same : x ≡ d =
                  row_of_key (λ y. y.id) x d reset (reset-IsValid.ids_distinct) mx md
                    ((eq_iff x.id d.id).0 hit) in
                subst (λ y. is_active_of node y ≡ true) (sym same) (ground arith)) in
          let in_lent : In (lease (now n) (consumer n) d) lent =
            In-update_where (λ x. x.id == d.id) (lease (now n) (consumer n)) d reset md
              ((eq_iff d.id d.id).1 refl) in
          let self = (eq_iff d.id d.id).1 refl in
          let third : count_where (is_active_of node) left < count_where (is_active_of node) lent =
            count_where-update_where_one (is_active_of node) _ _ lent (lease (now n) (consumer n) d)
              (λ x mx hit a. ground arith) in_lent (ground arith) (ground arith) (ground arith) in
          omega (arith, first, second, third)

  module _ (c : FleetCommand) (wanted : IsWanted c)
      (ready : (n : ℕ) → is_ready (locked n) (now n) node c ≡ true) where
    Round-HandsOutTask :
        (n : ℕ) (t : Table)
        → IsValid t
        → In c t
        → IsReadable t
        → ((u : Table)
            → IsValid u
            → In c u
            → IsReadable u
            → count_where (is_active_of node) u < count_where (is_active_of node) t
            → HandsOutTask (claim_rounds codec key locked now consumer operations apps node n u))
        → {r : ClaimAnswer × Table} → Round codec key locked now consumer operations apps node n t r
        → HandsOutTask r
    unfolding reset_expired end_lease
    Round-HandsOutTask n t v m r more (quiet none_left) = absurd (
        next_command-none (locked n) (now n) node (reset c wanted ready n t v m) c
          (In-reset c wanted ready n t v m) (ready n) none_left)
    Round-HandsOutTask n t v m r more (unreadable d e found bad) =
        let (md, got, _) =
          next_command-first (locked n) (now n) node (reset c wanted ready n t v m) d found in
        let here : d.node_id ≡ node = (eq_iff d.node_id node).0 (ground arith) in
        let (task, good) = IsReadable-update_where _ _ t (λ x. refl) (λ x. refl) r d md here in cc
    Round-HandsOutTask n t v m r more (given d task found good e) = hands_out _ _ _ _ _
    Round-HandsOutTask n t v m r more (discarded d task found good unwanted) =
        more _ (left-IsValid c wanted ready n t v m d task found good unwanted)
          (In-left c wanted ready n t v m d task found good unwanted)
          (left-IsReadable c wanted ready n t v m d task found good unwanted r)
          (left-fewer c wanted ready n t v m d task found good unwanted)

    claim_rounds-HandsOutTask :
        (n : ℕ) (t : Table)
        → IsValid t
        → In c t
        → IsReadable t
        → count_where (is_active_of node) t < n
        → HandsOutTask (claim_rounds codec key locked now consumer operations apps node n t)
    claim_rounds-HandsOutTask zero t v m r few = absurd (omega (arith, few))
    claim_rounds-HandsOutTask (suc n) t v m r few =
        Round-HandsOutTask n t v m r
          (λ u vu mu ru fewer. claim_rounds-HandsOutTask n u vu mu ru (omega (arith, few, fewer)))
          (claim_rounds-Round codec key locked now consumer operations apps node n t)

module _ (codec : Codec) (key : List ℕ) (locked : ℕ → String → Bool) (now : ℕ → ℕ)
    (consumer : String → ℕ → String) (operations : List Operation) (apps : List CustomerApp) where
  -- On a valid queue whose payloads for a node can be read, and which has fewer than 128 active commands of
  -- the node, the node's request for a task gets one if a command of the node is ready in every
  -- round and its task is eligible: the commands that are discarded before it do not use up the
  -- rounds.
  pub handle_task_claim-HandsOutTask :
      (node : String) (t : Table) (c : FleetCommand)
      → node == "" ≡ false
      → IsValid t
      → IsReadable codec key locked now (consumer node) operations apps node t
      → count_where (is_active_of node) t < 128
      → In c t
      → ((n : ℕ) → is_ready (locked n) (now n) node c ≡ true)
      → IsWanted codec key locked now (consumer node) operations apps node c
      → HandsOutTask (
          handle_task_claim codec key locked now consumer operations apps
            (record { is_post = true; node_id = some node; authenticated = some node })
            t)
  unfolding handle_task_claim claim_as
  handle_task_claim-HandsOutTask node t c named v r few m ready wanted =
      rw (handle_task_claim, named, claim_as, (eq_iff node node).1 refl)
        (claim_rounds-HandsOutTask codec key locked now (consumer node) operations apps node c
          wanted ready 128 t v m r few)
