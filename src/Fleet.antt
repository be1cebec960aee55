-- ===== src/Fleet.antt =====
-- The fleet manager, go/controlplane/fleet.
pub mod Token
pub mod Once
pub mod Manager
pub mod Enrolled
pub mod Joined
