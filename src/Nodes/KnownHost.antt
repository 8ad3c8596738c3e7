-- ===== src/Nodes/KnownHost.antt =====
-- The answers of nextKnownHostAssignment of internal/api/handlers_nodes.go.
use admirald.Shared.{
  ℕ, ◌+◌, ◌^◌, ◌≤◌, ◌≡◌, ◌≢◌, ◌⊎◌, refl, inl, inr, true, false, Option, none, some, String, List,
  [], ◌∷◌, Bool-cases, some_injective, sym, ◌∙◌, ◌==◌, eq_iff, Result, err, errorf,
}
use admirald.Shared.Text.{trim_space}
use admirald.Nodes.Node.{Node}
use admirald.Nodes.Wireguard.{
  Prefix, Netip, KnownHostAssignment, host_count, contains_addr, assign_for, default_to,
  next_known_host_assignment,
}
use admirald.Nodes.Assigned.{IsAssigned, assign_in-IsAssigned}

-- A setting, or the default where it is blank.
abbrev pub IsSetting : String → String → String → Type 0
IsSetting default given text =
    ((trim_space given ≡ "") × (text ≡ default)) ⊎ ((trim_space given ≢ "") × (text ≡ given))

IsSetting-default_to : (default given : String) → IsSetting default given (default_to default given)
IsSetting-default_to default given =
    let blank = eq_iff (trim_space given) "" in
    elim (Bool-cases (trim_space given == "")) [
      | inl unset ↦ rw unset (inl (blank.0 unset, refl))
      | inr set ↦ rw set (inr ((λ e. let x = blank.1 e in cc), refl))
    ]

-- The answers: an error for a network that cannot be read, for the address of the hub if it cannot be read
-- or lies outside, and else what is assigned in the network.
pub data IsGiven (ip : Netip) (nodes : List Node) (role subnet hub_ip : String)
    : Result KnownHostAssignment → Type 0 where
  unreadable :
      ip.parse_prefix (trim_space subnet) ≡ none
      → IsGiven ip nodes role subnet hub_ip
          (err (errorf "invalid WireGuard IPv4 subnet %q" (subnet ∷ [])))
  without_hub :
      (network : Prefix)
      → ip.parse_prefix (trim_space subnet) ≡ some network
      → ((hub : ℕ)
          → ip.parse_addr (trim_space hub_ip) ≡ some hub
          → contains_addr network hub ≡ false)
      → IsGiven ip nodes role subnet hub_ip (
          err (
            errorf "invalid WireGuard hub address %q for subnet %q"
              (hub_ip ∷ ip.prefix_string network ∷ [])))
  given :
      (network : Prefix) (hub : ℕ) {r : Result KnownHostAssignment}
      → ip.parse_prefix (trim_space subnet) ≡ some network
      → ip.parse_addr (trim_space hub_ip) ≡ some hub
      → contains_addr network hub ≡ true
      → IsAssigned ip nodes role network hub r
      → IsGiven ip nodes role subnet hub_ip r

-- The same with the defaults of the two settings.
pub record IsAnsweredFor (ip : Netip) (nodes : List Node) (role subnet hub_ip : String)
    (r : Result KnownHostAssignment) : Type 0 where
  pub own_subnet : String
  pub own_hub_ip : String
  pub set_subnet : IsSetting "10.99.0.0/24" subnet own_subnet
  pub set_hub_ip : IsSetting "10.99.0.1" hub_ip own_hub_ip
  pub answer : IsGiven ip nodes role own_subnet own_hub_ip r

module _ (ip : Netip)
    (bounded : (text : String) (network : Prefix)
      → ip.parse_prefix text ≡ some network
      → network.base + host_count network ≤ 2 ^ 32)
    (nodes : List Node) (role : String) where
  assign_for-IsGiven :
      (subnet hub_ip : String) (read_subnet : Option Prefix) (read_hub : Option ℕ)
      → ip.parse_prefix (trim_space subnet) ≡ read_subnet
      → ip.parse_addr (trim_space hub_ip) ≡ read_hub
      → IsGiven ip nodes role subnet hub_ip
          (assign_for ip nodes role subnet hub_ip read_subnet read_hub)
  unfolding assign_for
  assign_for-IsGiven subnet hub_ip none h e f = unreadable e
  assign_for-IsGiven subnet hub_ip (some network) none e f = without_hub network e (λ hub g. cc)
  assign_for-IsGiven subnet hub_ip (some network) (some hub) e f =
      elim (Bool-cases (contains_addr network hub)) [
        | inl inside ↦ rw inside (
            given network hub e f inside (
              assign_in-IsAssigned ip nodes role network hub
                (bounded (trim_space subnet) network e)))
        | inr outside ↦ rw outside (
            without_hub network e (λ other g.
              let same : hub ≡ other = some_injective hub other (sym f ∙ g) in rw (← same) outside))
      ]

  -- Where every network that can be read lies below 2^32, `nextKnownHostAssignment` reads the subnet and the
  -- address of the hub, 10.99.0.0/24 and 10.99.0.1 where they are blank. It refuses a subnet that cannot
  -- be read, and a hub that cannot be read or is outside. Else it gives a host address of the network
  -- that neither the hub nor any node has, with a number above those in the names of the nodes of the
  -- role, or it refuses a network of one address, or one where the hub or a node has each of the host
  -- addresses.
  pub next_known_host_assignment-IsAnsweredFor :
      (subnet hub_ip : String)
      → IsAnsweredFor ip nodes role subnet hub_ip
          (next_known_host_assignment ip nodes role subnet hub_ip)
  unfolding next_known_host_assignment
  next_known_host_assignment-IsAnsweredFor subnet hub_ip = record {
    own_subnet = default_to "10.99.0.0/24" subnet;
    own_hub_ip = default_to "10.99.0.1" hub_ip;
    set_subnet = IsSetting-default_to "10.99.0.0/24" subnet;
    set_hub_ip = IsSetting-default_to "10.99.0.1" hub_ip;
    answer =
        assign_for-IsGiven (default_to "10.99.0.0/24" subnet) (default_to "10.99.0.1" hub_ip) _ _
          refl refl;
  }
