-- ===== src/Workflow.antt =====
-- workflows/policy.ts and workflows/routing.ts: which phase of a delivery runs next, and which
-- phases a request is routed through.
pub mod Prompt
pub mod Policy
pub mod Routing
pub mod Gate
pub mod Progress
pub mod Routes
mod Tests
