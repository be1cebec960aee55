-- ===== src/Permissions.antt =====
-- The permission engine, go/controlplane/permissions.
pub mod Text
pub mod Engine
pub mod Grants
pub mod Merge
pub mod Merged
