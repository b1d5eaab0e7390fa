-- ===== src/Observation.antt =====
-- The observed results of lifecycle commands, of
-- tool-runtime-core/src/credential_lifecycle_observation.rs.
pub mod Error
pub mod Errors
pub mod Value
pub mod Status
pub mod Json
pub mod Command
pub mod Predicates
pub mod Evaluate
pub mod Rules
pub mod Identity
pub mod Verified
pub mod ByCode
pub mod Exits
pub mod Nodes
