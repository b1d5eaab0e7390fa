-- ===== src/Credentials/Errors.antt =====
-- The value-free failures of tool-runtime-core/src/credential_profiles.rs.

use magic_run.Prelude.{String}
use magic_run.Credentials.Error.{CredentialProfileErrorCode, CredentialProfileError}

abbrev pub invalid_binding_url : CredentialProfileError
invalid_binding_url = record {
  code = CredentialProfileErrorCode.invalid_binding_url;
  field = "binding_url";
  message =
      "credential binding URLs must be canonical secure endpoints without credentials or fragments";
}

abbrev pub invalid_status : CredentialProfileError
invalid_status = record {
  code = CredentialProfileErrorCode.invalid_status;
  field = "status";
  message = "credential profile availability, default, and auth state are inconsistent";
}

-- The failures that the constructors make in place.
abbrev pub made : CredentialProfileErrorCode → String → String → CredentialProfileError
made code field message = record { code = code; field = field; message = message }

abbrev pub not_found : CredentialProfileError
not_found =
    made CredentialProfileErrorCode.not_found "profile" "the credential profile was not found"

abbrev pub conflict : CredentialProfileError
conflict =
    made CredentialProfileErrorCode.conflict "profile" "the credential profile changed concurrently"

abbrev pub profile_registry_unavailable : CredentialProfileError
profile_registry_unavailable =
    made CredentialProfileErrorCode.registry_unavailable "registry"
      "the credential profile registry is unavailable"

abbrev pub commit_state_unknown : CredentialProfileError
commit_state_unknown =
    made CredentialProfileErrorCode.commit_state_unknown "registry"
      "the credential profile commit state is unknown; read before retrying"

abbrev pub snapshot_too_large : CredentialProfileError
snapshot_too_large =
    made CredentialProfileErrorCode.collection_too_large "profiles"
      "the credential profile snapshot exceeds its size limit"

abbrev pub profile_scope_mismatch : CredentialProfileError
profile_scope_mismatch =
    made CredentialProfileErrorCode.scope_mismatch "profiles.scope"
      "a credential profile belongs to a different scope"

abbrev pub duplicate_profile : CredentialProfileError
duplicate_profile =
    made CredentialProfileErrorCode.duplicate_profile "profiles"
      "the credential profile snapshot contains a duplicate key"

abbrev pub multiple_defaults : CredentialProfileError
multiple_defaults =
    made CredentialProfileErrorCode.multiple_defaults "profiles.is_default"
      "a provider binding has more than one default profile"
