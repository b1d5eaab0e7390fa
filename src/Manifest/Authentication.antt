-- ===== src/Manifest/Authentication.antt =====
-- `validate_auth` of tool-runtime-core/src/manifest_validation.rs.
use magic_run.Prelude.{
  ℕ, Bool, true, false, ◌&&◌, ◌||◌, Option, none, some, List, [], ◌∷◌, Text, Result, ok, guard,
  ◌>>◌, ◌>>=◌, ltb, not, any, length, byte_len, is_control, is_some, holds, if◌then◌else◌,
}
use magic_run.Prelude.Sets.{is_nil, contains}
use magic_run.Manifest.Refusal.{
  ManifestValidationErrorCode, ManifestValidationError, Checked, error,
}
use magic_run.Manifest.Mcp.{McpTransport, RuntimeProtocol}
use magic_run.Manifest.Auth.{
  AuthKind, AuthRequirement, AuthStorage, ProfileSelection, SecretBindingRef, IdentityContract,
  IdentitySelector, LifecycleStatusOutputFormat, LifecycleStatusObservation, AuthContract,
}
use magic_run.Manifest.Equality.{AuthKind-discrete, AuthRequirement-discrete}
use magic_run.Manifest.Vocabulary.{is_identifier, is_profile_alias, is_reference, is_json_pointer}
use magic_run.Manifest.Lifecycles.{is_format, is_cli, has_session, validate_lifecycle}
use magic_run.Manifest.Injections.{
  invalid_secret_binding, supports_secrets, names_profile, validate_injections,
}

abbrev pub max_identity_reason_bytes : ℕ
max_identity_reason_bytes = 512

abbrev pub is_kind : AuthKind → AuthKind → Bool
is_kind a b = holds (AuthKind-discrete a b)

abbrev pub is_requirement : AuthRequirement → AuthRequirement → Bool
is_requirement a b = holds (AuthRequirement-discrete a b)

unfoldable pub validate_auth_requirement : AuthKind → AuthRequirement → Checked
validate_auth_requirement kind requirement =
    guard
      (if is_kind kind AuthKind.nothing
        then is_requirement requirement AuthRequirement.nothing
        else not (is_requirement requirement AuthRequirement.nothing))
      (error ManifestValidationErrorCode.invalid_auth_requirement "auth.requirement"
        "the auth requirement contradicts the selected auth kind")

abbrev bad_identifier : Option Text → Bool
bad_identifier none = false
bad_identifier (some provider) = not (is_identifier provider)

abbrev pub needs_provider : AuthKind → Bool
needs_provider AuthKind.nothing = false
needs_provider AuthKind.secrets = false
needs_provider AuthKind.cli_profile = true
needs_provider AuthKind.oauth_session = true
needs_provider AuthKind.browser_profile = true
needs_provider AuthKind.native_permission = false
needs_provider AuthKind.delegated_credential = true

unfoldable pub validate_auth_provider : AuthContract → Checked
validate_auth_provider auth = do
  guard (not (bad_identifier auth.provider)) (
      error ManifestValidationErrorCode.invalid_identifier "auth.provider"
        "the auth provider must be a portable identifier")
  guard (not (is_kind auth.kind AuthKind.nothing && is_some auth.provider)) (
      error ManifestValidationErrorCode.invalid_auth_provider "auth.provider"
        "an unauthenticated contract cannot declare an auth provider")
  guard (not (needs_provider auth.kind && not (is_some auth.provider))) (
      error ManifestValidationErrorCode.missing_auth_provider "auth.provider"
        "the selected auth kind requires a provider identifier")

abbrev pub invalid_profile_selection : ManifestValidationError
invalid_profile_selection =
    error ManifestValidationErrorCode.invalid_profile_selection "auth.profile_selection"
      "profile selection is missing, unsupported, or contains an invalid alias"

abbrev valid_aliases : ProfileSelection → Bool
valid_aliases ProfileSelection.nothing = true
valid_aliases (ProfileSelection.selectable none) = true
valid_aliases (ProfileSelection.selectable (some alias)) = is_profile_alias alias
valid_aliases (ProfileSelection.fixed alias) = is_profile_alias alias
valid_aliases ProfileSelection.implicit = true

abbrev pub selects_nothing : ProfileSelection → Bool
selects_nothing ProfileSelection.nothing = true
selects_nothing (ProfileSelection.selectable default) = false
selects_nothing (ProfileSelection.fixed alias) = false
selects_nothing ProfileSelection.implicit = false

abbrev pub supports_profiles : AuthKind → Bool
supports_profiles AuthKind.nothing = false
supports_profiles AuthKind.secrets = false
supports_profiles AuthKind.cli_profile = true
supports_profiles AuthKind.oauth_session = true
supports_profiles AuthKind.browser_profile = true
supports_profiles AuthKind.native_permission = false
supports_profiles AuthKind.delegated_credential = false

unfoldable pub validate_profile_selection : AuthContract → Checked
validate_profile_selection auth = do
  guard (valid_aliases auth.profile_selection) invalid_profile_selection
  guard
      (if supports_profiles auth.kind
        then not (selects_nothing auth.profile_selection)
        else selects_nothing auth.profile_selection)
      invalid_profile_selection

abbrev pub invalid_auth_storage : ManifestValidationError
invalid_auth_storage =
    error ManifestValidationErrorCode.invalid_auth_storage "auth.storage"
      "auth storage contradicts the auth kind, protocol, or profile partition policy"

-- The storage that an authentication kind may have.
unfoldable pub storage_fits : AuthKind → Bool → AuthStorage → Bool
storage_fits AuthKind.nothing cli AuthStorage.nothing = true
storage_fits AuthKind.secrets cli AuthStorage.nothing = true
storage_fits AuthKind.cli_profile cli (AuthStorage.scoped_directory name partition) = true
storage_fits AuthKind.cli_profile cli AuthStorage.cli_owned = true
storage_fits AuthKind.oauth_session true (AuthStorage.scoped_directory name partition) = true
storage_fits AuthKind.oauth_session true AuthStorage.cli_owned = true
storage_fits AuthKind.oauth_session false AuthStorage.nothing = true
storage_fits AuthKind.browser_profile cli AuthStorage.browser_profile = true
storage_fits AuthKind.native_permission cli AuthStorage.operating_system = true
storage_fits AuthKind.delegated_credential cli AuthStorage.ephemeral_grant = true
storage_fits _ _ _ = false

abbrev check_directory : ProfileSelection → AuthStorage → Bool
check_directory selection (AuthStorage.scoped_directory name partition) =
    is_identifier name && (not (names_profile selection) || partition)
check_directory selection AuthStorage.nothing = true
check_directory selection AuthStorage.cli_owned = true
check_directory selection AuthStorage.browser_profile = true
check_directory selection AuthStorage.operating_system = true
check_directory selection AuthStorage.ephemeral_grant = true

unfoldable pub validate_auth_storage : AuthContract → RuntimeProtocol → Checked
validate_auth_storage auth runtime = do
  guard (check_directory auth.profile_selection auth.storage) invalid_auth_storage
  guard (storage_fits auth.kind (is_cli runtime) auth.storage) invalid_auth_storage

-- The loop over the bindings, from the names before.
unfoldable pub secret_names_from :
    List Text → List SecretBindingRef → Result ManifestValidationError (List Text)
secret_names_from names [] = ok names
secret_names_from names (binding ∷ rest) =
    guard
      (not (
        not (is_identifier binding.name)
        || not (is_reference binding.secret_ref)
        || contains names binding.name))
      invalid_secret_binding
    >>= λ _. secret_names_from (binding.name ∷ names) rest

unfoldable pub validate_secret_bindings : AuthContract → Result ManifestValidationError (List Text)
validate_secret_bindings auth = do
  guard (not (not (supports_secrets auth.kind) && not (is_nil auth.secret_bindings)))
      invalid_secret_binding
  guard (not (is_kind auth.kind AuthKind.secrets && is_nil auth.secret_bindings))
      invalid_secret_binding
  secret_names_from [] auth.secret_bindings

abbrev pub invalid_identity : ManifestValidationError
invalid_identity =
    error ManifestValidationErrorCode.invalid_identity "auth.identity"
      "identity verification lacks a compatible profile, status hook, selector, or reason"

abbrev pub observes_json : Option LifecycleStatusObservation → Bool
observes_json none = false
observes_json (some observation) = is_format observation.format LifecycleStatusOutputFormat.json

abbrev pub selector_pointer : IdentitySelector → Text
selector_pointer (IdentitySelector.json_pointer pointer) = pointer
selector_pointer (IdentitySelector.json_pointer_ascii_case_insensitive pointer) = pointer

abbrev check_identity : AuthContract → RuntimeProtocol → IdentityContract → Checked
check_identity auth runtime IdentityContract.nothing = ok tt
check_identity auth runtime (IdentityContract.profile_expected selector) = do
  guard
      (not (
        not (has_session auth.kind)
        || not (names_profile auth.profile_selection)
        || not (is_cli runtime)
        || not (is_some auth.lifecycle.status)
        || not (observes_json auth.lifecycle.status_observation)))
      invalid_identity
  guard (is_json_pointer (selector_pointer selector)) invalid_identity
check_identity auth runtime (IdentityContract.unverified reason) =
    guard
      (not (
        is_kind auth.kind AuthKind.nothing
        || is_nil reason
        || ltb max_identity_reason_bytes (byte_len reason)
        || any is_control reason))
      invalid_identity

unfoldable pub validate_identity : AuthContract → RuntimeProtocol → Checked
validate_identity auth runtime = check_identity auth runtime auth.identity

-- `AuthKind::None | AuthKind::OAuthSession | AuthKind::DelegatedCredential`
abbrev is_remote_kind : AuthKind → Bool
is_remote_kind AuthKind.nothing = true
is_remote_kind AuthKind.secrets = false
is_remote_kind AuthKind.cli_profile = false
is_remote_kind AuthKind.oauth_session = true
is_remote_kind AuthKind.browser_profile = false
is_remote_kind AuthKind.native_permission = false
is_remote_kind AuthKind.delegated_credential = true

unfoldable pub compatible : AuthKind → RuntimeProtocol → Bool
compatible kind (RuntimeProtocol.cli prefix interaction stdin directory limits) = true
compatible kind (RuntimeProtocol.mcp (McpTransport.stdio executable args) discovery limits) =
    not (is_kind kind AuthKind.browser_profile)
compatible kind (RuntimeProtocol.mcp (McpTransport.streamable_http endpoint) discovery limits) =
    is_remote_kind kind
    && (if is_kind kind AuthKind.oauth_session
        then is_some discovery.oauth
        else not (is_some discovery.oauth))

unfoldable pub validate_protocol_auth_compatibility : AuthContract → RuntimeProtocol → Checked
unfolding compatible
validate_protocol_auth_compatibility auth runtime = guard (compatible auth.kind runtime) (
    error ManifestValidationErrorCode.incompatible_protocol_auth "auth.kind"
      "the selected auth kind is not supported by this runtime transport")

unfoldable pub validate_auth : AuthContract → RuntimeProtocol → Option Text → Checked
validate_auth auth runtime executable = do
  validate_auth_requirement auth.kind auth.requirement
  validate_auth_provider auth
  validate_profile_selection auth
  validate_auth_storage auth runtime
  secret_names ← validate_secret_bindings auth
  guard
      (not (
        is_requirement auth.requirement AuthRequirement.at_least_one
        && (not (is_kind auth.kind AuthKind.secrets) || ltb (length auth.secret_bindings) 2)))
      (error ManifestValidationErrorCode.invalid_auth_requirement "auth.requirement"
        "at_least_one auth requires two or more alternative secret bindings")
  validate_lifecycle auth runtime executable
  validate_identity auth runtime
  validate_injections auth runtime secret_names
  validate_protocol_auth_compatibility auth runtime
