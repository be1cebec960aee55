-- ===== src/Audit.antt =====
-- The audit chain, go/controlplane/audit.
pub mod Encode
pub mod Entry
pub mod Log
pub mod Chain
pub mod Hex
pub mod Append
pub mod Canonical
pub mod Tamper
pub mod Mem
