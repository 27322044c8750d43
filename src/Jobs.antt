-- ===== src/Jobs.antt =====
-- templates/modules/jobs-local/files/apps/api/src/jobs-local/local-job.queue.ts: jobs in a database
-- table, their schedules and timers. The rules for schedules are those of
-- packages/runtime/src/contracts.ts.
pub mod Rules
pub mod Table
pub mod Queue
pub mod Runs
mod Tests
