-- ===== src/Nodes/Assigned.antt =====
-- Which addresses and names known hosts are given: nextKnownHostAssignment and
-- nextKnownHostAssignments of internal/api/handlers_nodes.go.
use admirald.Shared.{
  ℕ, ◌+◌, ◌-◌, ◌^◌, ◌%◌, ◌≤◌, ◌<◌, ◌≡◌, ◌≢◌, ◌↔◌, ◌⊎◌, inl, inr, refl, ltb, leb, nat_beq, true,
  false, not, ◌&&◌, Option, some, String, List, [], ◌∷◌, ◌++◌, any, arith, All, In, Bool-cases,
  Result, Error, ◌>>=◌, All-append_left, All-In, In-append_new, ok, err, errorf, nat_beq_iff,
  All-map, if◌then◌else◌,
}
use admirald.Shared.Text.{trim_space}
use admirald.Nodes.Node.{Node}
use admirald.Nodes.Wireguard.{
  Prefix, Netip, KnownHostAssignment, host_count, contains_addr, used_addresses, first_offset,
  last_offset, preferred_offset, max_suffix, number_of, assign_in, named, reservation_node,
  assign_for, next_known_host_assignment, next_known_host_assignments, default_to,
}
use admirald.Nodes.Addresses.{
  IsScanned, found, full, IsScanned-find_available_wireguard_address, address_of, unheld, holder,
  below_max_suffix,
}

-- A host address of a network: neither its first nor its last one, but for a network of two addresses, which
-- are both hosts.
abbrev pub IsHost : Prefix → ℕ → Type 0
IsHost network v =
    ((network.bits ≡ 31) × (network.base ≤ v) × (v < network.base + 2))
    ⊎ ((network.bits ≢ 31) × (network.base < v) × (v + 1 < network.base + 2 ^ (32 - network.bits)))

bound_of : (base v hosts : ℕ) → base < v → v + 1 < base + hosts → v ≤ base + (hosts - 2)
bound_of base v hosts lo hi = omega (arith, lo, hi)

below_of : (base v hosts : ℕ) → base + 1 ≤ v → v ≤ base + (hosts - 2) → v + 1 < base + hosts
below_of base v hosts lo hi = omega (arith, lo, hi)

IsHost-iff :
    (network : Prefix) (v : ℕ)
    → IsHost network v
      ↔ ((network.base + first_offset network ≤ v) × (v ≤ network.base + last_offset network))
IsHost-iff network v = elim (Bool-cases (nat_beq network.bits 31)) [
  | inl two ↦
      let e = (nat_beq_iff network.bits 31).0 two in
      rw two ((λ h. ground arith), (λ h. inl (e, omega (arith, h.0), omega (arith, h.1))))
  | inr wider ↦
      let differs : network.bits ≢ 31 = λ e. (let x = (nat_beq_iff network.bits 31).1 e in cc) in
      rw wider (
        (λ h. elim h [
          | inl l ↦ absurd (differs l.0)
          | inr r ↦ (omega (arith, r.1), bound_of network.base v (2 ^ (32 - network.bits)) r.1 r.2)
        ]),
        (λ h. inr (
          differs,
          omega (arith, h.0),
          below_of network.base v (2 ^ (32 - network.bits)) h.0 h.1,
        )),
      )
]

-- The answers in a network: a name with a number above those of the nodes of the role and a host
-- address that neither the hub nor a node has, or an error when there is no such address.
pub data IsAssigned (ip : Netip) (nodes : List Node) (role : String) (network : Prefix) (hub : ℕ)
    : Result KnownHostAssignment → Type 0 where
  assigned :
      (v number : ℕ)
      → IsHost network v
      → v ≢ hub
      → All (λ n. address_of ip n ≢ some v) nodes
      → All (λ n. (m : ℕ) → number_of ip role n ≡ some m → m < number) nodes
      → IsAssigned ip nodes role network hub
          (ok (record { node_id = ip.node_name role number; wireguard_ip = ip.addr_string v }))
  exhausted :
      ((v : ℕ)
        → IsHost network v
        → (v ≡ hub) ⊎ ((n : Node) × In n nodes × (address_of ip n ≡ some v)))
      → IsAssigned ip nodes role network hub (
          err (errorf "no WireGuard addresses remain in subnet %q" (ip.prefix_string network ∷ [])))
  without_peers :
      network.bits ≡ 32
      → IsAssigned ip nodes role network hub
          (err (errorf "WireGuard subnet %q has no peer address" (ip.prefix_string network ∷ [])))

preferred_bounds :
    (role : String) (network : Prefix)
    → (first_offset network ≤ preferred_offset role network)
      × (preferred_offset role network ≤ last_offset network + 1)
preferred_bounds role network = ground arith

offset_inside :
    (bits k hosts : ℕ)
    → (bits ≡ 31 → hosts ≡ 2)
    → (if nat_beq bits 31 then 0 else 1) ≤ k
    → k ≤ (if nat_beq bits 31 then 1 else hosts - 2)
    → k < hosts
offset_inside bits k hosts two lo hi = elim (Bool-cases (nat_beq bits 31)) [
  | inl same ↦ let e = two ((nat_beq_iff bits 31).0 same) in ground arith
  | inr differs ↦ ground arith
]

two_hosts : (bits : ℕ) → bits ≡ 31 → 2 ^ (32 - bits) ≡ 2
two_hosts bits e = rw e refl

inside_of :
    (base k hosts : ℕ)
    → k < hosts
    → base + hosts ≤ 2 ^ 32
    → ((base + k) % 2 ^ 32 ≡ base + k)
      × (leb base (base + k) && ltb (base + k) (base + hosts) ≡ true)
inside_of base k hosts inside bound = (omega (arith, inside, bound), ground arith)

inside_bounds :
    (network : Prefix) (k : ℕ)
    → first_offset network ≤ k
    → k ≤ last_offset network
    → network.base + host_count network ≤ 2 ^ 32
    → ((network.base + k) % 2 ^ 32 ≡ network.base + k)
      × (contains_addr network (network.base + k) ≡ true)
inside_bounds network k lo hi bound =
    let inside : k < host_count network =
      offset_inside network.bits k (host_count network) (two_hosts network.bits) lo hi in
    inside_of network.base k (host_count network) inside bound

module _ (ip : Netip) (nodes : List Node) (role : String) (network : Prefix) (hub : ℕ) where
  IsAssigned-at :
      (v : ℕ)
      → network.base + first_offset network ≤ v
      → v ≤ network.base + last_offset network
      → contains_addr network v ≡ true
      → not (nat_beq v hub) && not (any (nat_beq v) (used_addresses ip network nodes)) ≡ true
      → IsAssigned ip nodes role network hub (named ip nodes role network (some v))
  IsAssigned-at v lo hi inside free =
      assigned v (max_suffix ip role nodes 0 + 1) ((IsHost-iff network v).1 (lo, hi))
        (λ e. ground arith) (unheld ip network v nodes inside (ground arith))
        (All-map {P = λ n. (m : ℕ) → number_of ip role n ≡ some m → m ≤ max_suffix ip role nodes 0}
          (λ n h m e. omega (arith, h m e)) nodes (below_max_suffix ip role nodes 0))

  taken_by :
      (v : ℕ)
      → not (nat_beq v hub) && not (any (nat_beq v) (used_addresses ip network nodes)) ≡ false
      → (v ≡ hub) ⊎ ((n : Node) × In n nodes × (address_of ip n ≡ some v))
  taken_by v taken = elim (Bool-cases (nat_beq v hub)) [
    | inl same ↦ inl ((nat_beq_iff v hub).0 same)
    | inr differs ↦ inr (holder ip network v nodes (ground arith))
  ]

  IsAssigned-named :
      (o : Option ℕ)
      → network.base + host_count network ≤ 2 ^ 32
      → IsScanned network.base hub
          (used_addresses ip network nodes)
          (first_offset network)
          (last_offset network + 1)
          o
      → IsAssigned ip nodes role network hub (named ip nodes role network o)
  IsAssigned-named o bound (found k lo hi free) =
      let at = inside_bounds network k lo (omega (arith, hi)) bound in
      let w = (network.base + k) % 2 ^ 32 in
      IsAssigned-at w (omega (arith, at.0, lo)) (omega (arith, at.0, hi)) (rw at.0 at.1) free
  IsAssigned-named o bound (full every) = exhausted (λ v host.
      let lo = ((IsHost-iff network v).0 host).0 in
      let hi = ((IsHost-iff network v).0 host).1 in
      let k = v - network.base in
      let at = inside_bounds network k (omega (arith, lo)) (omega (arith, hi)) bound in
      let e : (network.base + k) % 2 ^ 32 ≡ v = omega (arith, at.0, lo) in
      taken_by v (rw (← e) (every k (omega (arith, lo)) (omega (arith, hi)))))

  -- Over a network whose addresses lie below 2^32 (the first address of the network and its size do),
  -- `nextKnownHostAssignment` gives a host address of the network that neither the hub nor any node
  -- has, with a number above those in the names of the nodes of the role; it refuses only a network
  -- of one address, and one where the hub or a node has each of the host addresses.
  pub assign_in-IsAssigned :
      network.base + host_count network ≤ 2 ^ 32
      → IsAssigned ip nodes role network hub (assign_in ip nodes role network hub)
  unfolding assign_in
  assign_in-IsAssigned bound =
      let bounds = preferred_bounds role network in
      let search =
        IsScanned-find_available_wireguard_address network.base hub
          (used_addresses ip network nodes) (first_offset network) (last_offset network)
          (preferred_offset role network) bounds.0 bounds.1 in
      elim (Bool-cases (nat_beq network.bits 32)) [
        | inl single ↦ rw single (without_peers ((nat_beq_iff network.bits 32).0 single))
        | inr wider ↦ rw wider (IsAssigned-named _ bound search)
      ]

-- The answers for a worker and a portal: both are assigned and their addresses differ, or an error.
pub data ArePaired (ip : Netip) (nodes : List Node) (network : Prefix) (hub : ℕ)
    : Result (KnownHostAssignment × KnownHostAssignment) → Type 0 where
  paired :
      (worker portal : KnownHostAssignment)
      → IsAssigned ip nodes "worker" network hub (ok worker)
      → IsAssigned ip nodes "portal" network hub (ok portal)
      → worker.wireguard_ip ≢ portal.wireguard_ip
      → ArePaired ip nodes network hub (ok (worker, portal))
  no_worker :
      (e : Error)
      → IsAssigned ip nodes "worker" network hub (err e)
      → ArePaired ip nodes network hub (err e)
  no_portal :
      (worker : KnownHostAssignment) (e : Error)
      → IsAssigned ip nodes "worker" network hub (ok worker)
      → IsAssigned ip
          (nodes ++ reservation_node worker.wireguard_ip ∷ [])
          "portal"
          network
          hub
          (err e)
      → ArePaired ip nodes network hub (err e)

module _ (ip : Netip) (nodes : List Node) (network : Prefix) (hub : ℕ)
    (bound : network.base + host_count network ≤ 2 ^ 32)
    (printed : (v : ℕ)
      → contains_addr network v ≡ true
      → ip.parse_addr (trim_space (ip.addr_string v)) ≡ some v) where
  host_read :
      (v : ℕ)
      → network.base + first_offset network ≤ v
      → v ≤ network.base + last_offset network
      → ip.parse_addr (trim_space (ip.addr_string v)) ≡ some v
  host_read v lo hi =
      let k = v - network.base in
      let at = inside_bounds network k (omega (arith, lo)) (omega (arith, lo, hi)) bound in
      let e : network.base + k ≡ v = omega (arith, lo) in printed v (rw (← e) at.1)

  with_portal :
      (worker : KnownHostAssignment) (r : Result KnownHostAssignment)
      → IsAssigned ip nodes "worker" network hub (ok worker)
      → IsAssigned ip (nodes ++ reservation_node worker.wireguard_ip ∷ []) "portal" network hub r
      → ArePaired ip nodes network hub (r >>= (λ portal. ok (worker, portal)))
  with_portal worker r w (assigned v number host other unheld numbers) =
      paired worker _ w
        (assigned v number host other (All-append_left _ nodes _ unheld)
          (All-append_left _ nodes _ numbers))
        (λ e.
          All-In (λ n. address_of ip n ≢ some v) _ _ unheld (In-append_new _ nodes)
            (rw e
              (host_read v ((IsHost-iff network v).0 host).0 ((IsHost-iff network v).0 host).1)))
  with_portal worker r w (exhausted every) = no_portal worker _ w (exhausted every)
  with_portal worker r w (without_peers bits) = no_portal worker _ w (without_peers bits)

  after_worker :
      (r : Result KnownHostAssignment) (portal_with : List Node → Result KnownHostAssignment)
      → IsAssigned ip nodes "worker" network hub r
      → ((others : List Node) → IsAssigned ip others "portal" network hub (portal_with others))
      → ArePaired ip nodes network hub (
          r >>= (λ worker.
            portal_with (nodes ++ reservation_node worker.wireguard_ip ∷ [])
            >>= (λ portal. ok (worker, portal))))
  after_worker (ok worker) portal_with w p =
      with_portal worker _ w (p (nodes ++ reservation_node worker.wireguard_ip ∷ []))
  after_worker (err e) portal_with w p = no_worker e w

  IsAssigned-for :
      (subnet hub_ip role : String) (others : List Node)
      → ip.parse_prefix (trim_space (default_to "10.99.0.0/24" subnet)) ≡ some network
      → ip.parse_addr (trim_space (default_to "10.99.0.1" hub_ip)) ≡ some hub
      → contains_addr network hub ≡ true
      → IsAssigned ip others role network hub
          (next_known_host_assignment ip others role subnet hub_ip)
  unfolding next_known_host_assignment assign_for
  IsAssigned-for subnet hub_ip role others read_subnet read_hub inside =
      rw (read_subnet, read_hub, inside) (assign_in-IsAssigned ip others role network hub bound)

  -- In a network of addresses below 2^32 that contains the hub, where reading a printed address of the
  -- network gives it back, `nextKnownHostAssignments` gives a worker and a portal different
  -- addresses: host addresses of the network that neither the hub nor any node has, with names
  -- numbered above those of the nodes of the same role. It fails only if the network is a single
  -- address or a host address is missing, for the worker or, after the worker's, for the portal.
  pub next_known_host_assignments-ArePaired :
      (subnet hub_ip : String)
      → ip.parse_prefix (trim_space (default_to "10.99.0.0/24" subnet)) ≡ some network
      → ip.parse_addr (trim_space (default_to "10.99.0.1" hub_ip)) ≡ some hub
      → contains_addr network hub ≡ true
      → ArePaired ip nodes network hub (next_known_host_assignments ip nodes subnet hub_ip)
  unfolding next_known_host_assignments
  next_known_host_assignments-ArePaired subnet hub_ip read_subnet read_hub inside =
      after_worker (next_known_host_assignment ip nodes "worker" subnet hub_ip)
        (λ others. next_known_host_assignment ip others "portal" subnet hub_ip)
        (IsAssigned-for subnet hub_ip "worker" nodes read_subnet read_hub inside)
        (λ others. IsAssigned-for subnet hub_ip "portal" others read_subnet read_hub inside)
