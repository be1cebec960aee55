-- ===== src/License.antt =====
-- The licence keys, enterprise/license.
pub mod Distance
pub mod Edits
pub mod Text
pub mod Key
pub mod Granted
pub mod Features
pub mod Suggest
