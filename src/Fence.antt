-- ===== src/Fence.antt =====
-- runtime/execution-fence.ts: one execution path for a task at a time.
pub mod Operations
pub mod Exclusion
mod Tests
