-- ===== src/Services.antt =====
-- templates/fullstack/apps/api/src/core/services.ts: the services of the API, the connections that it
-- keeps open, and who may call a route.
pub mod Supervisor
pub mod Access
pub mod Registry
mod Tests
