-- ===== src/Lifecycle.antt =====
-- The compilation of lifecycle plans of tool-runtime-core/src/credential_lifecycle.rs.
pub mod Error
pub mod Errors
pub mod Compile
pub mod Declared
pub mod Compiled
