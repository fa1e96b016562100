-- ===== src/Task.antt =====
-- task-state/service.ts and task-state/contracts.ts: the durable task lifecycle.
pub mod Model
pub mod Store
pub mod Operations
pub mod Criteria
pub mod Evidence
pub mod Relations
pub mod Formats
pub mod Consistent
pub mod Lifecycle
pub mod Commit
pub mod Mutations
pub mod Commits
pub mod Preserved
pub mod Replay
pub mod Calls
pub mod Promises
pub mod Verified
pub mod Revised
pub mod Fencing
mod Tests
