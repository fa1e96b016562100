-- ===== src/Records.antt =====
-- task-state/records.ts: the knowledge records of a task, and the operations on them.
pub mod Model
pub mod Cycles
pub mod Links
pub mod Operations
pub mod Validate
mod Search
mod Order
mod Fuel
mod Changes
mod Touched
mod Lifecycle
mod Limits
mod Tests
