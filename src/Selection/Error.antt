-- ===== src/Selection/Error.antt =====
-- The value-free failure type of tool-runtime-core/src/profile_selection.rs.
use magic_run.Prelude.{String}

pub data CredentialProfileSelectionErrorCode : Type 0 where
  invalid_provider invalid_policy invalid_requested_profile : CredentialProfileSelectionErrorCode
  missing_provider unexpected_requested_profile missing_profile_selection :
      CredentialProfileSelectionErrorCode
  profile_not_found profile_disabled snapshot_scope_mismatch : CredentialProfileSelectionErrorCode
  registry_unavailable : CredentialProfileSelectionErrorCode

pub record CredentialProfileSelectionError : Type 0 where
  pub code : CredentialProfileSelectionErrorCode
  pub field : String
  pub message : String
