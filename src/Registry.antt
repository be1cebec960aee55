-- ===== src/Registry.antt =====
-- Rows of the registry, go/controlplane/registry.
pub mod Rows
