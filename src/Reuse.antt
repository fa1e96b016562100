-- ===== src/Reuse.antt =====
-- verification/contracts.ts: when a check's earlier evidence stands in for running it again.
pub mod Operations
pub mod Soundness
mod Tests
