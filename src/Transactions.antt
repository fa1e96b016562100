-- ===== src/Transactions.antt =====
-- installer/transactions.ts: changing several files at once, with a journal for recovery.
pub mod Model
pub mod Operations
pub mod Rollback
pub mod Publish
pub mod Atomic
pub mod Inspect
mod Tests
