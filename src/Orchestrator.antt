-- ===== src/Orchestrator.antt =====
-- The orchestrator, go/controlplane/orchestrator.
pub mod Types
pub mod Calls
pub mod Split
pub mod Deployed
pub mod Apply
pub mod Outcome
pub mod Manage
pub mod Undone
pub mod Routes
pub mod View
pub mod Converged
