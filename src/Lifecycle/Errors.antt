-- ===== src/Lifecycle/Errors.antt =====
-- The value-free failures of tool-runtime-core/src/credential_lifecycle.rs.

use magic_run.Lifecycle.Error.{CredentialLifecycleErrorCode, CredentialLifecycleError}

abbrev pub unsupported_contract : CredentialLifecycleError
unsupported_contract = record {
  code = CredentialLifecycleErrorCode.unsupported_contract;
  field = "auth.lifecycle";
  message = "the validated contract does not support a local CLI authentication lifecycle";
}

abbrev pub target_mismatch : CredentialLifecycleError
target_mismatch = record {
  code = CredentialLifecycleErrorCode.target_mismatch;
  field = "auth.profile_selection";
  message = "the lifecycle target does not match the validated profile contract";
}

abbrev pub profile_disabled : CredentialLifecycleError
profile_disabled = record {
  code = CredentialLifecycleErrorCode.profile_disabled;
  field = "profile.availability";
  message = "a disabled credential profile cannot authenticate or refresh";
}

abbrev pub profile_not_found : CredentialLifecycleError
profile_not_found = record {
  code = CredentialLifecycleErrorCode.profile_not_found;
  field = "profile";
  message = "the credential profile was not found";
}

abbrev pub registry_unavailable : CredentialLifecycleError
registry_unavailable = record {
  code = CredentialLifecycleErrorCode.registry_unavailable;
  field = "registry";
  message = "the credential profile registry is unavailable";
}

abbrev pub hook_unavailable : CredentialLifecycleError
hook_unavailable = record {
  code = CredentialLifecycleErrorCode.hook_unavailable;
  field = "auth.lifecycle";
  message = "the requested authentication lifecycle hook is not declared";
}

abbrev pub missing_expected_identity : CredentialLifecycleError
missing_expected_identity = record {
  code = CredentialLifecycleErrorCode.missing_expected_identity;
  field = "profile.expected_identity";
  message = "the credential profile is missing its declared expected identity";
}
