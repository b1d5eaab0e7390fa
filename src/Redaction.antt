-- ===== src/Redaction.antt =====
-- The exact-value redaction of tool-runtime-core/src/credential_materialization.rs.
pub mod Error
pub mod Errors
pub mod Redactor
pub mod Scan
pub mod Index
pub mod Match
pub mod Scrub
pub mod Leads
pub mod Redacted
pub mod Made
pub mod Clean
pub mod Limits
pub mod Total
pub mod Segments
pub mod Records
pub mod Streaming
pub mod Prefix
pub mod Evaluate
pub mod Decide
pub mod Choose
pub mod Stream
pub mod Pushes
pub mod Streamed
pub mod Batches
pub mod Flow
pub mod Pushing
pub mod Longest
pub mod Reference
