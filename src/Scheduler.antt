-- ===== src/Scheduler.antt =====
-- scheduler/: the schedules of a project, the operations on them, and the foreground scheduler's steps.
pub mod Model
pub mod Validate
pub mod Operations
pub mod Foreground
pub mod Calls
mod Runs
mod Quarantine
mod Sound
mod Claims
mod Endings
mod Writes
mod Tests
mod Kept
mod Texts
