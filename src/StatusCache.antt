-- ===== src/StatusCache.antt =====
-- The verified-status cache of tool-runtime-core/src/credential_status_cache.rs.
pub mod Error
pub mod Errors
pub mod State
pub mod Operations
pub mod Lookups
pub mod Entries
pub mod Runs
pub mod Invariant
pub mod Tickets
pub mod Histories
pub mod Places
pub mod Readiness
pub mod Generations
