-- ===== src/Project.antt =====
-- packages/cli/src: the generation lockfile of a project, and how an update of it is planned and applied.
pub mod Lock
pub mod Files
pub mod Changes
pub mod Migrations
pub mod Moves
pub mod Moving
pub mod Moved
pub mod Relocates
pub mod Versions
pub mod Modules
pub mod Visits
pub mod Visited
pub mod Ordered
pub mod Ending
pub mod Requirements
pub mod Recording
pub mod Recorded
pub mod Placed
pub mod Baselines
pub mod Removing
pub mod Removals
pub mod Forgotten
mod Tests
mod ModuleTests
mod RecordTests
mod RemoveTests
pub mod Plan
pub mod Apply
pub mod Relock
pub mod Outcome
pub mod Loop
pub mod Preserves
pub mod Safety
pub mod Guarantees
pub mod Entries
pub mod Settled
pub mod Gone
pub mod Settles
