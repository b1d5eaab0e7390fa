-- ===== src/Redaction/Errors.antt =====
-- The value-free failures of tool-runtime-core/src/credential_materialization.rs.

use magic_run.Redaction.Error.{CredentialMaterializationErrorCode, CredentialMaterializationError}

abbrev pub baseline_mismatch : CredentialMaterializationError
baseline_mismatch = record {
  code = CredentialMaterializationErrorCode.baseline_mismatch;
  field = "child_environment";
  message = "runtime environment values belong to a different child-environment baseline";
}

abbrev pub baseline_variable_not_allowed : CredentialMaterializationError
baseline_variable_not_allowed = record {
  code = CredentialMaterializationErrorCode.baseline_variable_not_allowed;
  field = "child_environment";
  message = "the runtime environment variable is outside the finite child baseline";
}

abbrev pub duplicate_baseline_value : CredentialMaterializationError
duplicate_baseline_value = record {
  code = CredentialMaterializationErrorCode.duplicate_baseline_value;
  field = "child_environment";
  message = "the runtime provided one child-environment variable more than once";
}

abbrev pub invalid_environment_value : CredentialMaterializationError
invalid_environment_value = record {
  code = CredentialMaterializationErrorCode.invalid_environment_value;
  field = "child_environment";
  message = "a child-environment value is not portable UTF-8 or contains a nul byte";
}

abbrev pub prepared_material_mismatch : CredentialMaterializationError
prepared_material_mismatch = record {
  code = CredentialMaterializationErrorCode.prepared_material_mismatch;
  field = "credential_material";
  message = "prepared credential material does not exactly match the injection plan";
}

abbrev pub unsupported_target : CredentialMaterializationError
unsupported_target = record {
  code = CredentialMaterializationErrorCode.unsupported_target;
  field = "credential_target";
  message = "this materialization slice cannot consume the declared credential target";
}

abbrev pub filesystem_unavailable : CredentialMaterializationError
filesystem_unavailable = record {
  code = CredentialMaterializationErrorCode.filesystem_unavailable;
  field = "credential_filesystem";
  message = "credential filesystem materialization failed";
}

abbrev pub scoped_path_unavailable : CredentialMaterializationError
scoped_path_unavailable = record {
  code = CredentialMaterializationErrorCode.scoped_path_unavailable;
  field = "credential_profile";
  message = "the selected credential profile path is unavailable or changed";
}

abbrev pub cleanup_failed : CredentialMaterializationError
cleanup_failed = record {
  code = CredentialMaterializationErrorCode.cleanup_failed;
  field = "credential_cleanup";
  message = "credential filesystem cleanup did not complete";
}

abbrev pub redaction_input_too_large : CredentialMaterializationError
redaction_input_too_large = record {
  code = CredentialMaterializationErrorCode.redaction_input_too_large;
  field = "process_output";
  message = "the output segment exceeds the bounded credential-redaction input limit";
}

abbrev pub redaction_marker_unavailable : CredentialMaterializationError
redaction_marker_unavailable = record {
  code = CredentialMaterializationErrorCode.redaction_marker_unavailable;
  field = "credential_material";
  message = "credential redaction could not allocate a value-safe replacement byte";
}

abbrev pub redaction_output_too_large : CredentialMaterializationError
redaction_output_too_large = record {
  code = CredentialMaterializationErrorCode.redaction_output_too_large;
  field = "process_output";
  message = "credential redaction would exceed its bounded output limit";
}

abbrev pub redaction_pattern_limit_exceeded : CredentialMaterializationError
redaction_pattern_limit_exceeded = record {
  code = CredentialMaterializationErrorCode.redaction_pattern_limit_exceeded;
  field = "credential_material";
  message = "credential redaction patterns exceed their count or aggregate byte limit";
}

abbrev pub redaction_work_limit_exceeded : CredentialMaterializationError
redaction_work_limit_exceeded = record {
  code = CredentialMaterializationErrorCode.redaction_work_limit_exceeded;
  field = "process_output";
  message = "credential redaction exceeded its bounded comparison budget";
}

abbrev pub environment_value_too_large : CredentialMaterializationError
environment_value_too_large = record {
  code = CredentialMaterializationErrorCode.environment_value_too_large;
  field = "child_environment";
  message = "a child-environment value exceeds its byte limit";
}

abbrev pub environment_total_too_large : CredentialMaterializationError
environment_total_too_large = record {
  code = CredentialMaterializationErrorCode.environment_total_too_large;
  field = "child_environment";
  message = "the child environment exceeds its aggregate byte limit";
}
