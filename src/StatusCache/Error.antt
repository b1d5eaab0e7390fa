-- ===== src/StatusCache/Error.antt =====
-- The value-free failure type of tool-runtime-core/src/credential_status_cache.rs.
use magic_run.Prelude.{String}

pub data CredentialStatusCacheErrorCode : Type 0 where
  invalid_process_epoch process_epoch_mismatch invalid_policy_revision :
      CredentialStatusCacheErrorCode
  invalid_directory_revision invalid_ttl wrong_operation : CredentialStatusCacheErrorCode
  directory_target_mismatch directory_unavailable uncacheable_status :
      CredentialStatusCacheErrorCode
  observation_plan_mismatch stale_observation capacity_exceeded : CredentialStatusCacheErrorCode
  lock_poisoned : CredentialStatusCacheErrorCode

pub record CredentialStatusCacheError : Type 0 where
  pub code : CredentialStatusCacheErrorCode
  pub field : String
  pub message : String
