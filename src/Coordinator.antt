-- ===== src/Coordinator.antt =====
-- The authorization-before-credentials coordinator of
-- tool-runtime-core/src/governed_execution_coordinator.rs.
pub mod Error
pub mod Errors
pub mod Evidence
pub mod Bound
pub mod Receipt
pub mod Host
pub mod Attempt
pub mod Settle
pub mod Execute
pub mod Settling
pub mod Answered
pub mod Protocol
