-- ===== src/Lifecycle/Error.antt =====
-- The value-free failure type of tool-runtime-core/src/credential_lifecycle.rs.
use magic_run.Prelude.{String}

pub data CredentialLifecycleErrorCode : Type 0 where
  unsupported_contract target_mismatch profile_disabled : CredentialLifecycleErrorCode
  profile_not_found registry_unavailable hook_unavailable : CredentialLifecycleErrorCode
  missing_expected_identity : CredentialLifecycleErrorCode

pub record CredentialLifecycleError : Type 0 where
  pub code : CredentialLifecycleErrorCode
  pub field : String
  pub message : String
