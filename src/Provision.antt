-- ===== src/Provision.antt =====
-- Idempotent provisioning: internal/database/provision_requests.go and
-- internal/api/provision_idempotency.go.
pub mod Requests
pub mod Replay
pub mod Once
pub mod Kept
pub mod Blocked
pub mod Rejected
pub mod Handler
pub mod Placed
mod Tests
