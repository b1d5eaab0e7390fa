-- ===== src/Redaction/Error.antt =====
-- The value-free failure type of tool-runtime-core/src/credential_materialization.rs.
use magic_run.Prelude.{String}

pub data CredentialMaterializationErrorCode : Type 0 where
  baseline_mismatch baseline_variable_not_allowed duplicate_baseline_value :
      CredentialMaterializationErrorCode
  invalid_environment_value prepared_material_mismatch unsupported_target :
      CredentialMaterializationErrorCode
  filesystem_unavailable scoped_path_unavailable cleanup_failed : CredentialMaterializationErrorCode
  redaction_marker_unavailable redaction_input_too_large redaction_output_too_large :
      CredentialMaterializationErrorCode
  redaction_pattern_limit_exceeded redaction_work_limit_exceeded environment_value_too_large :
      CredentialMaterializationErrorCode
  environment_total_too_large : CredentialMaterializationErrorCode

pub record CredentialMaterializationError : Type 0 where
  pub code : CredentialMaterializationErrorCode
  pub field : String
  pub message : String
