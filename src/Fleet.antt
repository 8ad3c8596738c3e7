-- ===== src/Fleet.antt =====
-- The callbacks of nodes: internal/api/handlers_fleet.go.
pub mod Evidence
pub mod State
pub mod Backups
pub mod Capacity
pub mod Enqueue
pub mod Effects
pub mod Callback
pub mod Kept
pub mod Aftermath
pub mod Verified
pub mod Outcomes
pub mod Repeated
pub mod Answered
pub mod Enqueued
pub mod Stale
pub mod Eligible
pub mod TaskClaim
pub mod Rounds
pub mod HandedOut
pub mod Live
pub mod ClaimTests
mod CallbackTests
mod Tests
