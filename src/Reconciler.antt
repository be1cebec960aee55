-- ===== src/Reconciler.antt =====
-- The reconciler, go/controlplane/reconciler.
pub mod Types
pub mod Observe
pub mod Act
pub mod Pass
pub mod Steps
pub mod Streak
pub mod Acted
pub mod Justify
pub mod Guard
pub mod History
