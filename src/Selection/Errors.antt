-- ===== src/Selection/Errors.antt =====
-- The value-free failures of tool-runtime-core/src/profile_selection.rs.

use magic_run.Selection.Error.{CredentialProfileSelectionErrorCode, CredentialProfileSelectionError}

abbrev pub invalid_provider : CredentialProfileSelectionError
invalid_provider = record {
  code = CredentialProfileSelectionErrorCode.invalid_provider;
  field = "provider";
  message = "the credential profile provider is invalid";
}

abbrev pub invalid_policy : CredentialProfileSelectionError
invalid_policy = record {
  code = CredentialProfileSelectionErrorCode.invalid_policy;
  field = "profile_selection";
  message = "the credential profile selection policy is invalid";
}

abbrev pub invalid_requested_profile : CredentialProfileSelectionError
invalid_requested_profile = record {
  code = CredentialProfileSelectionErrorCode.invalid_requested_profile;
  field = "profile";
  message = "the requested credential profile alias is invalid";
}

abbrev pub missing_provider : CredentialProfileSelectionError
missing_provider = record {
  code = CredentialProfileSelectionErrorCode.missing_provider;
  field = "provider";
  message = "credential profile selection requires a provider";
}

abbrev pub unexpected_requested_profile : CredentialProfileSelectionError
unexpected_requested_profile = record {
  code = CredentialProfileSelectionErrorCode.unexpected_requested_profile;
  field = "profile";
  message = "the selected profile policy does not accept a requested alias";
}

abbrev pub missing_profile_selection : CredentialProfileSelectionError
missing_profile_selection = record {
  code = CredentialProfileSelectionErrorCode.missing_profile_selection;
  field = "profile";
  message = "no requested, contract-default, or registry-default profile is available";
}

abbrev pub profile_not_found : CredentialProfileSelectionError
profile_not_found = record {
  code = CredentialProfileSelectionErrorCode.profile_not_found;
  field = "profile";
  message = "the selected credential profile was not found";
}

abbrev pub profile_disabled : CredentialProfileSelectionError
profile_disabled = record {
  code = CredentialProfileSelectionErrorCode.profile_disabled;
  field = "profile";
  message = "the selected credential profile is disabled";
}

abbrev pub snapshot_scope_mismatch : CredentialProfileSelectionError
snapshot_scope_mismatch = record {
  code = CredentialProfileSelectionErrorCode.snapshot_scope_mismatch;
  field = "scope";
  message = "the credential profile snapshot belongs to a different scope";
}

abbrev pub registry_unavailable : CredentialProfileSelectionError
registry_unavailable = record {
  code = CredentialProfileSelectionErrorCode.registry_unavailable;
  field = "registry";
  message = "the credential profile registry is unavailable";
}
