-- ===== src/Credentials/Error.antt =====
-- The value-free failure type of tool-runtime-core/src/credential_profiles.rs.
use magic_run.Prelude.{String}

pub data CredentialProfileErrorCode : Type 0 where
  invalid_scope_segment invalid_provider invalid_profile_alias : CredentialProfileErrorCode
  invalid_expected_identity invalid_binding_url invalid_status : CredentialProfileErrorCode
  collection_too_large scope_mismatch duplicate_profile : CredentialProfileErrorCode
  multiple_defaults invalid_legacy_config not_found : CredentialProfileErrorCode
  conflict registry_unavailable commit_state_unknown : CredentialProfileErrorCode

pub record CredentialProfileError : Type 0 where
  pub code : CredentialProfileErrorCode
  pub field : String
  pub message : String
