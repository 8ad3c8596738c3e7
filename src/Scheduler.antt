-- ===== src/Scheduler.antt =====
-- When the scheduler of internal/api/scheduler.go starts a backup.
pub mod Schedule
pub mod Due
mod Tests
