-- ===== src/Queue.antt =====
-- internal/queue/queue.go: the durable command queue.
pub mod Command
pub mod Codec
pub mod Publish
pub mod Claim
pub mod Settle
pub mod Order
pub mod Rows
pub mod History
pub mod Isolation
pub mod Next
pub mod Taken
pub mod Leases
pub mod Listed
pub mod Removal
pub mod Retry
pub mod Delivery
pub mod Tests
