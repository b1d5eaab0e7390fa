-- ===== src/Selection.antt =====
-- The choice of a credential profile of tool-runtime-core/src/profile_selection.rs.
pub mod Error
pub mod Errors
pub mod Request
pub mod Choice
pub mod Selected
pub mod Deciding
pub mod Selecting
