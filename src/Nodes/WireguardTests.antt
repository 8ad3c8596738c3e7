-- ===== src/Nodes/WireguardTests.antt =====
-- Runs of the addresses for known hosts, in a network of eight addresses with one-letter names.
use admirald.Shared.{
  if_some, ◌^◌, ℕ, zero, suc, ◌+◌, ◌-◌, ◌≤◌, ◌<◌, ◌≡◌, refl, inl, inr, true, none, some, Option,
  Bool-cases, nat_beq, nat_beq_iff, String, List, [], ◌∷◌, if◌then◌else◌, ◌==◌, arith, ok, err,
  errorf,
}
use admirald.Shared.Text.{trim_space, trim_left_if, trim_right_if}
use admirald.Nodes.Node.{Node}
use admirald.Nodes.Wireguard.{
  host_count, next_known_host_assignment, Prefix, Netip, contains_addr, next_known_host_assignments,
  reservation_node,
}
use admirald.Nodes.KnownHost.{IsAnsweredFor, next_known_host_assignment-IsAnsweredFor}
use admirald.Nodes.Assigned.{ArePaired, next_known_host_assignments-ArePaired}

abbrev eight : Prefix
eight = record { base = 8; bits = 29 }

abbrev letter_at : List String → ℕ → String
letter_at [] n = ""
letter_at (s ∷ rest) zero = s
letter_at (s ∷ rest) (suc n) = letter_at rest n

abbrev place_of : List String → ℕ → String → Option ℕ
place_of [] n s = none
place_of (t ∷ rest) n s = if t == s then some n else place_of rest (n + 1) s

abbrev letters : List String
letters = "a" ∷ "b" ∷ "c" ∷ "d" ∷ "e" ∷ "f" ∷ "g" ∷ "h" ∷ []

abbrev small_ip : Netip
small_ip = record {
  parse_prefix = λ s. if s == "a/29" then some eight else none;
  parse_addr = place_of letters 8;
  addr_string = λ v. letter_at letters (v - 8);
  prefix_string = λ n. "a/29";
  positive_suffix = λ s. if s == "007" then some 7 else none;
  node_name = λ role n. if nat_beq n 8 then "worker-008" else "portal-001";
}

abbrev old_node : Node
old_node = record (reservation_node "c") { id = "worker-007"; node_role = "worker" }

-- The worker gets the first address after that of the node, the portal the next one.
next_known_host_assignments-first_free :
    next_known_host_assignments small_ip (old_node ∷ []) "a/29" "b"
    ≡ ok (
      record { node_id = "worker-008"; wireguard_ip = "d" },
      record { node_id = "portal-001"; wireguard_ip = "e" },
    )
unfolding next_known_host_assignments trim_space trim_left_if trim_right_if
next_known_host_assignments-first_free = refl

next_known_host_assignments-bad_hub :
    next_known_host_assignments small_ip [] "a/29" "z"
    ≡ err (errorf "invalid WireGuard hub address %q for subnet %q" ("z" ∷ "a/29" ∷ []))
unfolding next_known_host_assignments trim_space trim_left_if trim_right_if
next_known_host_assignments-bad_hub = refl

abbrev Each : (ℕ → Type 0) → ℕ → ℕ → Type 0
Each P lo zero = Unit
Each P lo (suc n) = P lo × Each P (lo + 1) n

in_range : (P : ℕ → Type 0) (lo n v : ℕ) → Each P lo n → lo ≤ v → v < lo + n → P v
in_range P lo zero v each a b = absurd (omega (arith, a, b))
in_range P lo (suc n) v each a b = elim (Bool-cases (nat_beq v lo)) [
  | inl same ↦ let e : v ≡ lo = (nat_beq_iff v lo).0 same in rw e each.0
  | inr differs ↦ in_range P (lo + 1) n v each.1 (ground arith) (omega (arith, b))
]

printed :
    (v : ℕ)
    → contains_addr eight v ≡ true
    → place_of letters 8 (trim_space (letter_at letters (v - 8))) ≡ some v
unfolding trim_space trim_left_if trim_right_if
printed v inside =
    in_range (λ w. place_of letters 8 (trim_space (letter_at letters (w - 8))) ≡ some w) 8 8 v
      (refl, (refl, (refl, (refl, (refl, (refl, (refl, (refl, tt)))))))) (ground arith)
      (ground arith)

small_bounded :
    (text : String) (network : Prefix)
    → small_ip.parse_prefix text ≡ some network
    → network.base + host_count network ≤ 2 ^ 32
small_bounded text network h =
    let same : eight ≡ network = if_some (text == "a/29") eight network h in
    rw (← same) (omega arith)

next_known_host_assignment-IsAnsweredFor_example :
    IsAnsweredFor small_ip
      (old_node ∷ [])
      "portal"
      "a/29"
      "b"
      (next_known_host_assignment small_ip (old_node ∷ []) "portal" "a/29" "b")
next_known_host_assignment-IsAnsweredFor_example =
    next_known_host_assignment-IsAnsweredFor small_ip small_bounded (old_node ∷ []) "portal" "a/29"
      "b"

next_known_host_assignments-ArePaired_example :
    ArePaired small_ip
      (old_node ∷ [])
      eight
      9
      (next_known_host_assignments small_ip (old_node ∷ []) "a/29" "b")
unfolding trim_space trim_left_if trim_right_if
next_known_host_assignments-ArePaired_example =
    next_known_host_assignments-ArePaired small_ip (old_node ∷ []) eight 9 (omega arith) printed
      "a/29" "b" refl refl refl
