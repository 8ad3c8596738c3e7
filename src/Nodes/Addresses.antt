-- ===== src/Nodes/Addresses.antt =====
-- The searches of nextKnownHostAssignment: what they find, and when they find nothing (internal/api/handlers_nodes.go).
use admirald.Shared.{
  ℕ, zero, suc, ◌+◌, ◌-◌, ◌^◌, ◌%◌, ◌≤◌, ◌<◌, ◌≡◌, ◌≢◌, ◌⊎◌, inl, inr, refl, ltb, nat_beq, Bool,
  true, false, not, ◌&&◌, Option, none, some, String, List, [], ◌∷◌, any, arith, All, In,
  Bool-cases, nat_beq_iff,
}
use admirald.Shared.Text.{trim_space}
use admirald.Nodes.Node.{Node}
use admirald.Nodes.Wireguard.{
  Prefix, Netip, contains_addr, scan_offsets, find_available_wireguard_address, used_addresses,
  address_in, max_suffix, number_of, larger_of, or_else,
}

-- The address at an offset is not that of the hub and not in use.
abbrev pub is_free : ℕ → ℕ → List ℕ → ℕ → Bool
is_free base hub used k =
    not (nat_beq ((base + k) % 2 ^ 32) hub) && not (any (nat_beq ((base + k) % 2 ^ 32)) used)

-- What a search over the offsets before `end` answers.
pub data IsScanned (base hub : ℕ) (used : List ℕ) (first end : ℕ) : Option ℕ → Type 0 where
  found :
      (k : ℕ)
      → first ≤ k
      → k < end
      → is_free base hub used k ≡ true
      → IsScanned base hub used first end (some ((base + k) % 2 ^ 32))
  full :
      ((k : ℕ) → first ≤ k → k < end → is_free base hub used k ≡ false)
      → IsScanned base hub used first end none

module _ (base hub : ℕ) (used : List ℕ) where
  at_or_after :
      (o k : ℕ)
      → is_free base hub used o ≡ false
      → o ≤ k
      → ((o + 1 ≤ k) → is_free base hub used k ≡ false)
      → is_free base hub used k ≡ false
  at_or_after o k taken lo later = elim (Bool-cases (nat_beq k o)) [
    | inl same ↦ let equal : k ≡ o = (nat_beq_iff k o).0 same in rw equal taken
    | inr differs ↦ later (ground arith)
  ]

  widen :
      (o end : ℕ) (r : Option ℕ)
      → is_free base hub used o ≡ false
      → IsScanned base hub used (o + 1) end r
      → IsScanned base hub used o end r
  widen o end r taken (found k lo hi h) = found k (omega (arith, lo)) hi h
  widen o end r taken (full every) = full (λ k lo hi. at_or_after o k taken lo (λ l. every k l hi))

  IsScanned-scan_offsets :
      (o n end : ℕ) → o + n ≡ end → IsScanned base hub used o end (scan_offsets base hub used o n)
  unfolding scan_offsets
  IsScanned-scan_offsets o zero end e = full (λ k lo hi. absurd (omega (arith, lo, hi, e)))
  IsScanned-scan_offsets o (suc n) end e =
      let rest = IsScanned-scan_offsets (o + 1) n end (omega (arith, e)) in
      elim (Bool-cases (is_free base hub used o)) [
        | inl free ↦ rw free (found o (omega arith) (omega (arith, e)) free)
        | inr taken ↦ rw taken (widen o end _ taken rest)
      ]

  -- The two searches, joined at the preferred offset.
  joined :
      (first mid end : ℕ) (r s : Option ℕ)
      → first ≤ mid
      → mid ≤ end
      → IsScanned base hub used mid end r
      → IsScanned base hub used first mid s
      → IsScanned base hub used first end (or_else r s)
  joined first mid end r s a b (found k lo hi h) before = found k (omega (arith, a, lo)) hi h
  joined first mid end r s a b (full after) (found k lo hi h) = found k lo (omega (arith, b, hi)) h
  joined first mid end r s a b (full after) (full before) = full (λ k lo hi.
      elim (Bool-cases (ltb k mid)) [
        | inl early ↦ before k lo (ground arith)
        | inr late ↦ after k (ground arith) hi
      ])

  pub IsScanned-find_available_wireguard_address :
      (first last preferred : ℕ)
      → first ≤ preferred
      → preferred ≤ last + 1
      → IsScanned base hub used first
          (last + 1)
          (find_available_wireguard_address base first last preferred hub used)
  unfolding find_available_wireguard_address
  IsScanned-find_available_wireguard_address first last preferred a b =
      joined first preferred (last + 1) _ _ a b
        (IsScanned-scan_offsets preferred (last + 1 - preferred) (last + 1) (omega (arith, b)))
        (IsScanned-scan_offsets first (preferred - first) preferred (omega (arith, a)))

-- The address that a node's row names, when it names one.
abbrev pub address_of : Netip → Node → Option ℕ
address_of ip n = ip.parse_addr (trim_space n.wireguard_ip)

module _ (ip : Netip) (network : Prefix) (v : ℕ) where
  free_in :
      (o : Option ℕ) (rest : List ℕ)
      → contains_addr network v ≡ true
      → any (nat_beq v) (address_in network o rest) ≡ false
      → (o ≢ some v) × (any (nat_beq v) rest ≡ false)
  free_in none rest inside free = ground arith
  free_in (some a) rest inside free = ground arith

  used_in :
      (o : Option ℕ) (rest : List ℕ)
      → any (nat_beq v) (address_in network o rest) ≡ true
      → (o ≡ some v) ⊎ (any (nat_beq v) rest ≡ true)
  used_in none rest used = inr used
  used_in (some a) rest used = ground arith

  pub unheld :
      (nodes : List Node)
      → contains_addr network v ≡ true
      → any (nat_beq v) (used_addresses ip network nodes) ≡ false
      → All (λ n. address_of ip n ≢ some v) nodes
  unfolding used_addresses
  unheld [] inside free = tt
  unheld (n ∷ ns) inside free =
      let step = free_in (address_of ip n) (used_addresses ip network ns) inside free in
      (step.0, unheld ns inside step.1)

  pub holder :
      (nodes : List Node)
      → any (nat_beq v) (used_addresses ip network nodes) ≡ true
      → (n : Node) × In n nodes × (address_of ip n ≡ some v)
  unfolding used_addresses
  holder [] used = cc
  holder (n ∷ ns) used = elim (used_in (address_of ip n) (used_addresses ip network ns) used) [
    | inl own ↦ (n, inl refl, own)
    | inr later ↦ let h = holder ns later in (h.0, inr h.1, h.2)
  ]

larger : (best : ℕ) (o : Option ℕ) → best ≤ larger_of best o
larger best none = omega arith
larger best (some m) = ground arith

largest : (best m : ℕ) (o : Option ℕ) → o ≡ some m → m ≤ larger_of best o
largest best m none e = cc
largest best m (some a) e = ground arith

module _ (ip : Netip) (role : String) where
  best_kept : (nodes : List Node) (best : ℕ) → best ≤ max_suffix ip role nodes best
  unfolding max_suffix
  best_kept [] best = omega arith
  best_kept (n ∷ ns) best =
      let step : best ≤ larger_of best (number_of ip role n) = larger best (number_of ip role n) in
      omega (arith, step, best_kept ns (larger_of best (number_of ip role n)))

  pub below_max_suffix :
      (nodes : List Node) (best : ℕ)
      → All (λ n. (m : ℕ) → number_of ip role n ≡ some m → m ≤ max_suffix ip role nodes best) nodes
  unfolding max_suffix
  below_max_suffix [] best = tt
  below_max_suffix (n ∷ ns) best = (
    (λ m e.
        let step = largest best m (number_of ip role n) e in
        omega (arith, step, best_kept ns (larger_of best (number_of ip role n)))),
    below_max_suffix ns (larger_of best (number_of ip role n)),
  )
