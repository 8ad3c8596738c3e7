-- ===== src/Operations.antt =====
-- The table of operations (internal/database/operations.go) and the migrations it serializes.
pub mod Operation
pub mod Migration
pub mod Created
pub mod Active
mod Tests
