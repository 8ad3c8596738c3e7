-- ===== src/Nodes/Wireguard.antt =====
-- The next WireGuard address of a known host: nextKnownHostAssignment, nextKnownHostAssignments and
-- findAvailableWireguardAddress of internal/api/handlers_nodes.go.
use Prim.Native.String.{◌++◌ as ◌+++◌, slice, len}
use text.Mathlib.Text.{starts_with}
use admirald.Shared.{
  ℕ, zero, suc, ◌+◌, ◌-◌, ◌^◌, ◌%◌, ltb, leb, nat_beq, Bool, false, not, ◌&&◌, ◌||◌, Option, none,
  some, String, List, [], ◌∷◌, ◌++◌, any, if◌then◌else◌, ◌==◌, pos, Result, ok, err, errorf, ◌>>=◌,
}
use admirald.Shared.Text.{trim_space}
use admirald.Nodes.Node.{Node}

-- An IPv4 prefix after `Masked`: its first address and its number of bits.
pub record Prefix : Type 0 where
  pub base : ℕ
  pub bits : ℕ

-- What the source uses of net/netip, strconv and fmt, for IPv4: an address is its value as a uint32, and
-- the parsers answer `none` for what is not an IPv4 prefix or address.
pub record Netip : Type 0 where
  pub parse_prefix : String → Option Prefix
  pub parse_addr : String → Option ℕ
  pub addr_string : ℕ → String
  pub prefix_string : Prefix → String
  -- `strconv.Atoi`, for results above zero
  pub positive_suffix : String → Option ℕ
  -- `fmt.Sprintf("%s-%03d", role, n)`
  pub node_name : String → ℕ → String

abbrev pub host_count : Prefix → ℕ
host_count n = 2 ^ (32 - n.bits)

-- `network.Contains`
abbrev pub contains_addr : Prefix → ℕ → Bool
contains_addr n v = leb n.base v && ltb v (n.base + host_count n)

pub record KnownHostAssignment : Type 0 where
  pub node_id : String
  pub wireguard_ip : String

-- One of the two loops, over `n` offsets.
unfoldable pub scan_offsets : ℕ → ℕ → List ℕ → ℕ → ℕ → Option ℕ
scan_offsets base hub used offset zero = none
scan_offsets base hub used offset (suc n) =
    let candidate = (base + offset) % 2 ^ 32 in
    let rest = scan_offsets base hub used (offset + 1) n in
    if not (nat_beq candidate hub) && not (any (nat_beq candidate) used)
    then some candidate
    else rest

abbrev pub or_else {ℓ} : {A : Type ℓ} → Option A → Option A → Option A
or_else none second = second
or_else (some a) second = some a

unfoldable pub find_available_wireguard_address : ℕ → ℕ → ℕ → ℕ → ℕ → List ℕ → Option ℕ
unfolding scan_offsets
find_available_wireguard_address base first last preferred hub used =
    or_else (scan_offsets base hub used preferred (last + 1 - preferred))
      (scan_offsets base hub used first (preferred - first))

abbrev pub address_in : Prefix → Option ℕ → List ℕ → List ℕ
address_in network none rest = rest
address_in network (some v) rest = if contains_addr network v then v ∷ rest else rest

-- The addresses of the nodes that lie in the network.
unfoldable pub used_addresses : Netip → Prefix → List Node → List ℕ
used_addresses ip network [] = []
used_addresses ip network (n ∷ ns) =
    address_in network (ip.parse_addr (trim_space n.wireguard_ip)) (used_addresses ip network ns)

abbrev pub larger_of : ℕ → Option ℕ → ℕ
larger_of best none = best
larger_of best (some n) = if ltb best n then n else best

-- The number in the name of a node of the role.
abbrev pub number_of : Netip → String → Node → Option ℕ
number_of ip role n =
    if (n.node_role == role) && starts_with n.id (role +++ "-")
    then ip.positive_suffix (slice n.id (len (role +++ "-")) (len n.id))
    else none

-- The largest such number, and at least the one found so far.
unfoldable pub max_suffix : Netip → String → List Node → ℕ → ℕ
max_suffix ip role [] best = best
max_suffix ip role (n ∷ ns) best = max_suffix ip role ns (larger_of best (number_of ip role n))

abbrev pub default_to : String → String → String
default_to default s = if trim_space s == "" then default else s

abbrev pub first_offset : Prefix → ℕ
first_offset n = if nat_beq n.bits 31 then 0 else 1

abbrev pub last_offset : Prefix → ℕ
last_offset n = if nat_beq n.bits 31 then 1 else host_count n - 2

abbrev pub preferred_offset : String → Prefix → ℕ
preferred_offset role n =
    let wanted = if role == "portal" then 100 else 2 in
    if ltb wanted (first_offset n) || ltb (last_offset n) wanted then first_offset n else wanted

module _ (ip : Netip) (nodes : List Node) (role : String) where
  abbrev pub named : Prefix → Option ℕ → Result KnownHostAssignment
  named network none =
      err (errorf "no WireGuard addresses remain in subnet %q" (ip.prefix_string network ∷ []))
  named network (some v) = ok (record {
    node_id = ip.node_name role (max_suffix ip role nodes 0 + 1);
    wireguard_ip = ip.addr_string v;
  })

  -- After the subnet and the address of the hub were read.
  unfoldable pub assign_in : Prefix → ℕ → Result KnownHostAssignment
  unfolding find_available_wireguard_address used_addresses max_suffix
  assign_in network hub =
      if nat_beq network.bits 32
      then err (errorf "WireGuard subnet %q has no peer address" (ip.prefix_string network ∷ []))
      else named network (
          find_available_wireguard_address network.base (first_offset network) (last_offset network)
            (preferred_offset role network) hub (used_addresses ip network nodes))

  unfoldable pub assign_for :
      String → String → Option Prefix → Option ℕ → Result KnownHostAssignment
  unfolding assign_in
  assign_for subnet hub_ip none parsed =
      err (errorf "invalid WireGuard IPv4 subnet %q" (subnet ∷ []))
  assign_for subnet hub_ip (some network) none = err (
      errorf "invalid WireGuard hub address %q for subnet %q"
        (hub_ip ∷ ip.prefix_string network ∷ []))
  assign_for subnet hub_ip (some network) (some hub) =
      if contains_addr network hub
      then assign_in network hub
      else err (
          errorf "invalid WireGuard hub address %q for subnet %q"
            (hub_ip ∷ ip.prefix_string network ∷ []))

  -- `nextKnownHostAssignment`
  unfoldable pub next_known_host_assignment : String → String → Result KnownHostAssignment
  unfolding assign_for
  next_known_host_assignment subnet hub_ip =
      assign_for (default_to "10.99.0.0/24" subnet) (default_to "10.99.0.1" hub_ip)
        (ip.parse_prefix (trim_space (default_to "10.99.0.0/24" subnet)))
        (ip.parse_addr (trim_space (default_to "10.99.0.1" hub_ip)))

-- A node without any other data, which keeps an address from being given again.
abbrev pub reservation_node : String → Node
reservation_node address = record {
  id = "";
  node_role = "";
  status = "";
  manual_disabled = false;
  health_status = "";
  health_reason_codes = "";
  available_for_provisioning = false;
  unavailable_reason_codes = "";
  ram_total = pos 0;
  ram_used = pos 0;
  disk_total = pos 0;
  disk_used = pos 0;
  ram_commit_limit = pos 0;
  disk_commit_limit = pos 0;
  committed_ram = pos 0;
  committed_disk = pos 0;
  last_metrics_at = none;
  wireguard_ip = address;
}

-- `nextKnownHostAssignments`; the errors are wrapped by the role, which is left out.
unfoldable pub next_known_host_assignments :
    Netip → List Node → String → String → Result (KnownHostAssignment × KnownHostAssignment)
unfolding next_known_host_assignment
next_known_host_assignments ip nodes subnet hub_ip =
    next_known_host_assignment ip nodes "worker" subnet hub_ip >>= (λ worker.
      next_known_host_assignment ip (nodes ++ reservation_node worker.wireguard_ip ∷ []) "portal"
        subnet hub_ip
      >>= (λ portal. ok (worker, portal)))
