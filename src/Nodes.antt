-- ===== src/Nodes.antt =====
-- The policy of nodes: health, capacity and the choice of a node
-- (internal/api/handlers_policy.go, internal/database/capacity.go, health.go and database.go), and the
-- addresses of known hosts (internal/api/handlers_nodes.go).
pub mod Node
pub mod Reasons
pub mod Capacity
pub mod Policy
pub mod Select
pub mod Fits
pub mod Sorted
pub mod Chosen
pub mod Choosing
pub mod Selected
pub mod Reserve
pub mod Healthy
pub mod Promise
pub mod Wireguard
pub mod Addresses
pub mod Assigned
pub mod KnownHost
pub mod Tests
mod WireguardTests
