-- ===== src/Observation/Error.antt =====
-- The failure type of tool-runtime-core/src/credential_lifecycle_observation.rs.
use magic_run.Prelude.{String}

pub data CredentialLifecycleObservationErrorCode : Type 0 where
  output_too_large wrong_operation missing_status_contract : CredentialLifecycleObservationErrorCode
  cancelled timed_out process_failed : CredentialLifecycleObservationErrorCode
  malformed_output output_too_deep output_too_complex : CredentialLifecycleObservationErrorCode
  evaluation_limit_exceeded unmapped_status : CredentialLifecycleObservationErrorCode
  ambiguous_status missing_identity invalid_identity : CredentialLifecycleObservationErrorCode

pub record CredentialLifecycleObservationError : Type 0 where
  pub code : CredentialLifecycleObservationErrorCode
  pub field : String
  pub message : String
