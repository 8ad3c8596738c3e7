-- ===== src/RateLimit.antt =====
-- Rate limiters: the `Limiter` interface, the in-memory `RateLimiter` (internal/api/middleware.go) and
-- the `DBRateLimiter` over the table `rate_limits` (internal/database/ratelimit.go).
pub mod Interface
pub mod Memory
pub mod Window
pub mod Bound
pub mod Store
pub mod Budget
mod Tests
