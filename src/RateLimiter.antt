-- ===== src/RateLimiter.antt =====
-- internal/resttooling/ratelimiter/v2: path patterns and the manager of their rate limiters.
mod Tests
pub mod Pattern
pub mod Parse
pub mod Manager
