-- ===== src/Execution.antt =====
-- The pure execution contract of tool-runtime-core/src/governed_execution.rs.
pub mod Error
pub mod Errors
pub mod Policy
pub mod Terminal
pub mod Request
pub mod Contract
pub mod Arguments
pub mod Directory
pub mod Admission
pub mod Ceilings
pub mod Governed
pub mod Binding
