-- ===== src/Credentials.antt =====
-- The identities of credentials, the lifecycle plans and the scoped directories that other parts
-- are keyed by (tool-runtime-core/src/credential_profiles.rs, credential_lifecycle.rs,
-- scoped_paths.rs).
pub mod Keys
pub mod Plans
pub mod Paths
pub mod Profiles
pub mod Identifiers
pub mod Error
pub mod Errors
pub mod Registry
pub mod Snapshots
pub mod Identities
