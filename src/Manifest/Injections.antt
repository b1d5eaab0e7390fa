-- ===== src/Manifest/Injections.antt =====
-- `validate_injections` of tool-runtime-core/src/manifest_validation.rs, on a Unix system.
use magic_run.Prelude.{
  Bool, true, false, ◌&&◌, ◌||◌, Option, none, some, List, [], ◌∷◌, Text, codes, Result, ok, guard,
  ◌>>◌, ◌>>=◌, ltb, not, any, length, holds, Text-discrete,
}
use native.Mathlib.Decide.{ℕ_discrete}
use magic_run.Prelude.Sets.{is_nil, contains}
use magic_run.Manifest.Refusal.{
  ManifestValidationErrorCode, ManifestValidationError, Checked, error,
}
use magic_run.Manifest.Mcp.{StdinMode, McpTransport, RuntimeProtocol}
use magic_run.Manifest.Auth.{
  AuthKind, AuthStorage, ProfileSelection, InjectionSource, InjectionTarget, InjectionBinding,
  AuthContract,
}
use magic_run.Manifest.Equality.{StdinMode-discrete}
use magic_run.Manifest.Vocabulary.{
  max_profile_path_segments, is_identifier, is_path_segment, is_relative_path,
  is_safe_injection_environment_name,
}
use magic_run.Manifest.Lifecycles.{has_session, expects_profile}

-- `MINIMAX_PROVIDER` and `MMX_CONFIG_DIR` of manifest.rs.
abbrev pub minimax_provider : Text
minimax_provider = codes "minimax"

abbrev pub mmx_config_dir : Text
mmx_config_dir = codes "MMX_CONFIG_DIR"

abbrev pub invalid_injection : ManifestValidationError
invalid_injection =
    error ManifestValidationErrorCode.invalid_injection "auth.injections"
      "an injection source, target, binding, path, or protocol combination is invalid"

abbrev pub invalid_secret_binding : ManifestValidationError
invalid_secret_binding =
    error ManifestValidationErrorCode.invalid_secret_binding "auth.secret_bindings"
      "secret bindings must be supported, unique, referenced, and use safe identifiers"

-- `AuthKind::Secrets | AuthKind::CliProfile | AuthKind::OAuthSession`
abbrev pub supports_secrets : AuthKind → Bool
supports_secrets AuthKind.nothing = false
supports_secrets AuthKind.secrets = true
supports_secrets AuthKind.cli_profile = true
supports_secrets AuthKind.oauth_session = true
supports_secrets AuthKind.browser_profile = false
supports_secrets AuthKind.native_permission = false
supports_secrets AuthKind.delegated_credential = false

abbrev pub has_auth_root : AuthStorage → Bool
has_auth_root AuthStorage.nothing = false
has_auth_root (AuthStorage.scoped_directory name partition) = true
has_auth_root AuthStorage.cli_owned = true
has_auth_root AuthStorage.browser_profile = false
has_auth_root AuthStorage.operating_system = false
has_auth_root AuthStorage.ephemeral_grant = false

abbrev pub names_profile : ProfileSelection → Bool
names_profile ProfileSelection.nothing = false
names_profile (ProfileSelection.selectable default) = true
names_profile (ProfileSelection.fixed alias) = true
names_profile ProfileSelection.implicit = false

-- The check of a source, and the secrets used after it.
unfoldable pub validate_injection_source :
    AuthContract
    → InjectionSource
    → List Text
    → List Text
    → Result ManifestValidationError (List Text)
validate_injection_source auth (InjectionSource.secret binding) secret_names used = do
  guard (not (not (supports_secrets auth.kind) || not (contains secret_names binding)))
      invalid_injection
  ok (binding ∷ used)
validate_injection_source auth (InjectionSource.profile_auth_root path) secret_names used = do
  guard
      (not (
        not (has_session auth.kind)
        || not (has_auth_root auth.storage)
        || ltb max_profile_path_segments (length path)
        || any (λ segment. not (is_path_segment segment)) path))
      invalid_injection
  ok used
validate_injection_source auth InjectionSource.profile_alias secret_names used = do
  guard (names_profile auth.profile_selection) invalid_injection
  ok used
validate_injection_source auth InjectionSource.expected_identity secret_names used = do
  guard (expects_profile auth.identity) invalid_injection
  ok used

-- `InjectionTargetKey` has the constructors and the texts of the target.
abbrev pub InjectionTargetKey : Type 0
InjectionTargetKey = InjectionTarget

abbrev pub is_secret : InjectionSource → Bool
is_secret (InjectionSource.secret binding) = true
is_secret (InjectionSource.profile_auth_root path) = false
is_secret InjectionSource.profile_alias = false
is_secret InjectionSource.expected_identity = false

abbrev pub denies_stdin : RuntimeProtocol → Bool
denies_stdin (RuntimeProtocol.cli prefix interaction stdin directory limits) =
    holds (StdinMode-discrete stdin.mode StdinMode.denied)
denies_stdin (RuntimeProtocol.mcp transport discovery limits) = false

abbrev pub is_provider : Option Text → Text → Bool
is_provider none name = false
is_provider (some provider) name = holds (Text-discrete provider name)

abbrev pub fits_directory : AuthContract → InjectionSource → Text → Bool
fits_directory auth (InjectionSource.profile_auth_root path) name = true
fits_directory auth (InjectionSource.secret binding) name =
    is_provider auth.provider minimax_provider && holds (Text-discrete name mmx_config_dir)
fits_directory auth InjectionSource.profile_alias name = false
fits_directory auth InjectionSource.expected_identity name = false

unfoldable pub target_fits :
    AuthContract → RuntimeProtocol → InjectionSource → InjectionTarget → Bool
target_fits auth runtime source (InjectionTarget.environment name) =
    is_safe_injection_environment_name name
target_fits auth runtime source InjectionTarget.stdin = denies_stdin runtime && is_secret source
target_fits auth runtime source (InjectionTarget.scoped_file path) =
    is_secret source && is_relative_path path
target_fits auth runtime source (InjectionTarget.config_directory name) =
    is_identifier name && fits_directory auth source name

unfoldable pub validate_injection_target :
    AuthContract
    → RuntimeProtocol
    → InjectionBinding
    → Result ManifestValidationError InjectionTargetKey
unfolding target_fits
validate_injection_target auth runtime injection = do
  guard (target_fits auth runtime injection.source injection.target) invalid_injection
  ok injection.target

unfoldable pub InjectionTargetKey-discrete : Discrete InjectionTargetKey
InjectionTargetKey-discrete = hlevel ℕ_discrete

unfoldable pub has_target : List InjectionTargetKey → InjectionTargetKey → Bool
has_target seen target = any (λ other. holds (InjectionTargetKey-discrete other target)) seen

-- The loop over the injections, from the targets and the used secrets before. It gives the secrets
-- that are used after it.
unfoldable pub injections_from :
    AuthContract
    → RuntimeProtocol
    → List Text
    → List InjectionTargetKey
    → List Text
    → List InjectionBinding
    → Result ManifestValidationError (List Text)
injections_from auth runtime secret_names targets used [] = ok used
injections_from auth runtime secret_names targets used (injection ∷ rest) =
    validate_injection_source auth injection.source secret_names used >>= λ used'.
    validate_injection_target auth runtime injection >>= λ target.
    guard (not (has_target targets target)) (
      error ManifestValidationErrorCode.duplicate_injection_target "auth.injections"
        "multiple injections cannot write to the same target")
    >>= λ _. injections_from auth runtime secret_names (target ∷ targets) used' rest

abbrev pub is_remote : RuntimeProtocol → Bool
is_remote (RuntimeProtocol.cli prefix interaction stdin directory limits) = false
is_remote (RuntimeProtocol.mcp (McpTransport.stdio executable args) discovery limits) = false
is_remote (RuntimeProtocol.mcp (McpTransport.streamable_http endpoint) discovery limits) = true

unfoldable pub validate_injections : AuthContract → RuntimeProtocol → List Text → Checked
validate_injections auth runtime secret_names = do
  guard (not (is_remote runtime && not (is_nil auth.injections))) (
      error ManifestValidationErrorCode.incompatible_protocol_auth "auth.injections"
        "a remote MCP transport cannot inject material into a local process")
  used ← injections_from auth runtime secret_names [] [] auth.injections
  guard (not (any (λ name. not (contains used name)) secret_names)) invalid_secret_binding
