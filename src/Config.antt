-- ===== src/Config.antt =====
-- Config as code, go/controlplane/config.
pub mod Result
pub mod Types
pub mod Validate
pub mod Diff
mod Keys
pub mod Converge
pub mod Valid
pub mod Accepts
