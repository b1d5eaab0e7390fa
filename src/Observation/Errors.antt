-- ===== src/Observation/Errors.antt =====
-- The value-free failures of tool-runtime-core/src/credential_lifecycle_observation.rs.
use magic_run.Observation.Error.{
  CredentialLifecycleObservationErrorCode, CredentialLifecycleObservationError,
}

abbrev pub output_too_large : CredentialLifecycleObservationError
output_too_large = record {
  code = CredentialLifecycleObservationErrorCode.output_too_large;
  field = "lifecycle.output";
  message = "the authentication lifecycle output exceeds its bounded capture limit";
}

abbrev pub wrong_operation : CredentialLifecycleObservationError
wrong_operation = record {
  code = CredentialLifecycleObservationErrorCode.wrong_operation;
  field = "lifecycle.operation";
  message = "only a status plan can interpret an authentication status observation";
}

abbrev pub missing_status_contract : CredentialLifecycleObservationError
missing_status_contract = record {
  code = CredentialLifecycleObservationErrorCode.missing_status_contract;
  field = "auth.lifecycle.status_observation";
  message = "the status plan does not carry a validated observation contract";
}

abbrev pub cancelled : CredentialLifecycleObservationError
cancelled = record {
  code = CredentialLifecycleObservationErrorCode.cancelled;
  field = "lifecycle.termination";
  message = "the authentication lifecycle operation was cancelled";
}

abbrev pub timed_out : CredentialLifecycleObservationError
timed_out = record {
  code = CredentialLifecycleObservationErrorCode.timed_out;
  field = "lifecycle.termination";
  message = "the authentication lifecycle operation timed out";
}

abbrev pub process_failed : CredentialLifecycleObservationError
process_failed = record {
  code = CredentialLifecycleObservationErrorCode.process_failed;
  field = "lifecycle.termination";
  message = "the authentication lifecycle process did not produce an exit status";
}

abbrev pub malformed_output : CredentialLifecycleObservationError
malformed_output = record {
  code = CredentialLifecycleObservationErrorCode.malformed_output;
  field = "lifecycle.stdout";
  message = "the authentication status output is malformed";
}

abbrev pub output_too_deep : CredentialLifecycleObservationError
output_too_deep = record {
  code = CredentialLifecycleObservationErrorCode.output_too_deep;
  field = "lifecycle.stdout";
  message = "the authentication status output exceeds its nesting limit";
}

abbrev pub output_too_complex : CredentialLifecycleObservationError
output_too_complex = record {
  code = CredentialLifecycleObservationErrorCode.output_too_complex;
  field = "lifecycle.stdout";
  message = "the authentication status output exceeds its structural limit";
}

abbrev pub evaluation_limit_exceeded : CredentialLifecycleObservationError
evaluation_limit_exceeded = record {
  code = CredentialLifecycleObservationErrorCode.evaluation_limit_exceeded;
  field = "lifecycle.stdout";
  message = "the authentication status output exceeds its evaluation work limit";
}

abbrev pub unmapped_status : CredentialLifecycleObservationError
unmapped_status = record {
  code = CredentialLifecycleObservationErrorCode.unmapped_status;
  field = "auth.lifecycle.status_observation";
  message = "the authentication status output matches no declared state";
}

abbrev pub ambiguous_status : CredentialLifecycleObservationError
ambiguous_status = record {
  code = CredentialLifecycleObservationErrorCode.ambiguous_status;
  field = "auth.lifecycle.status_observation";
  message = "the authentication status output matches conflicting declared states";
}

abbrev pub missing_identity : CredentialLifecycleObservationError
missing_identity = record {
  code = CredentialLifecycleObservationErrorCode.missing_identity;
  field = "auth.identity";
  message = "a ready authentication status is missing its declared identity";
}

abbrev pub invalid_identity : CredentialLifecycleObservationError
invalid_identity = record {
  code = CredentialLifecycleObservationErrorCode.invalid_identity;
  field = "auth.identity";
  message = "the observed authentication identity is invalid";
}
