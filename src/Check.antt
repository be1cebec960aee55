-- ===== src/Check.antt =====
-- Runs on concrete inputs: tests of the definitions, and the theorems at inputs that meet their
-- hypotheses.
pub mod Fixed
mod Fleet
mod Partition
mod Audit
mod Permissions
mod Config
mod Choose
mod Raft
mod Orchestrator
mod Routes
mod Reconciler
mod Ordering
mod License
mod Joins
mod Replicas
