-- ===== src/RateLimit.antt =====
-- templates/modules/rate-limit/files/apps/api/src/rate-limit: request budgets by route, their
-- enforcement, and the users of sessions.
pub mod Routes
pub mod Limiter
pub mod Sessions
mod Tests
