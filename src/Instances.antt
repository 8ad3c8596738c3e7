-- ===== src/Instances.antt =====
-- The table of instances (internal/database/instances.go).
pub mod Instance
