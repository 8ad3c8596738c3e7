-- ===== src/Apps.antt =====
-- Application definitions: pkg/admiral/validation.go.
pub mod Cycles
pub mod Reaches
pub mod Terminates
pub mod Acyclic
pub mod Environment
pub mod Images
mod Tests
