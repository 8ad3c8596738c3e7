-- ===== src/Auth.antt =====
-- Who may call the API: the middleware for static tokens, operator tokens, sessions and nodes
-- (internal/api/middleware.go, admin_auth.go, auth_errors.go, node_auth.go).
pub mod Request
pub mod Failures
pub mod Admin
pub mod Node
pub mod NodeAdmits
pub mod Operator
pub mod Session
pub mod SessionAdmits
pub mod SessionEvents
pub mod SessionLife
pub mod Login
pub mod LoginAdmits
pub mod PasswordChange
pub mod Lockout
pub mod StaticToken
mod Tests
mod LoginTests
