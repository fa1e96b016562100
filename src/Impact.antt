-- ===== src/Impact.antt =====
-- task-state/reconcile.ts: how far a change of records and criteria reaches.
pub mod Traversal
mod Bounds
mod Reach
mod Tests
mod Complete
