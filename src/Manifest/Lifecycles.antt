-- ===== src/Manifest/Lifecycles.antt =====
-- The lifecycle hooks and status observations of tool-runtime-core/src/manifest_validation.rs.
use magic_run.Prelude.{
  ℕ, ◌+◌, ◌*◌, Bool, true, false, ◌&&◌, ◌||◌, Option, none, some, List, [], ◌∷◌, Text, Result, ok,
  guard, ◌>>◌, ◌>>=◌, or_err, ltb, leb, ◌==◌, not, any, length, byte_len, is_control, is_some,
  holds,
}
use magic_run.Prelude.Sets.{is_nil}
use magic_run.Manifest.Refusal.{
  ManifestValidationErrorCode, ManifestValidationError, Checked, error,
}
use magic_run.Manifest.Mcp.{CliInteraction, RuntimeProtocol}
use magic_run.Manifest.Auth.{
  AuthKind, LifecycleHook, LifecycleStatusOutputFormat, LifecycleObservedAuthState,
  LifecycleJsonScalar, LifecycleJsonPredicate, LifecycleStatusRule, LifecycleStatusObservation,
  IdentityContract, AuthContract,
}
use magic_run.Manifest.Equality.{
  CliInteraction-discrete, LifecycleStatusOutputFormat-discrete,
  LifecycleObservedAuthState-discrete, LifecycleStatusRule-discrete,
  LifecycleJsonPredicate-discrete,
}
use magic_run.Manifest.Limits.{max_fixed_arguments}
use magic_run.Manifest.Vocabulary.{is_json_pointer}
use magic_run.Manifest.Commands.{validate_fixed_arguments, reject_inline_code_prefix}

abbrev pub max_lifecycle_timeout_secs : ℕ
max_lifecycle_timeout_secs = 15 * 60

abbrev pub max_lifecycle_status_rules : ℕ
max_lifecycle_status_rules = 32

abbrev pub max_lifecycle_status_predicates : ℕ
max_lifecycle_status_predicates = 32

abbrev pub max_lifecycle_status_exit_codes : ℕ
max_lifecycle_status_exit_codes = 16

abbrev pub max_lifecycle_status_array_values : ℕ
max_lifecycle_status_array_values = 64

abbrev pub max_lifecycle_status_value_bytes : ℕ
max_lifecycle_status_value_bytes = 1024

abbrev pub invalid_lifecycle : ManifestValidationError
invalid_lifecycle =
    error ManifestValidationErrorCode.invalid_lifecycle "auth.lifecycle"
      "lifecycle hooks are incompatible, empty, oversized, or unexpectedly interactive"

unfoldable pub valid_lifecycle_json_scalar : LifecycleJsonScalar → Bool
valid_lifecycle_json_scalar (LifecycleJsonScalar.string value) =
    leb (byte_len value) max_lifecycle_status_value_bytes && not (any is_control value)
valid_lifecycle_json_scalar (LifecycleJsonScalar.boolean value) = true
valid_lifecycle_json_scalar (LifecycleJsonScalar.integer value) = true
valid_lifecycle_json_scalar LifecycleJsonScalar.null = true

unfoldable pub validate_lifecycle_json_predicate : LifecycleJsonPredicate → Checked
validate_lifecycle_json_predicate (LifecycleJsonPredicate.equals pointer value) =
    guard (not (not (is_json_pointer pointer) || not (valid_lifecycle_json_scalar value)))
      invalid_lifecycle
validate_lifecycle_json_predicate (LifecycleJsonPredicate.exists pointer) =
    guard (is_json_pointer pointer) invalid_lifecycle
validate_lifecycle_json_predicate (LifecycleJsonPredicate.missing pointer) =
    guard (is_json_pointer pointer) invalid_lifecycle
validate_lifecycle_json_predicate
      (LifecycleJsonPredicate.array_contains_all_strings pointer values) =
    guard
      (not (
        not (is_json_pointer pointer)
        || is_nil values
        || ltb max_lifecycle_status_array_values (length values)
        || any
            (λ value. ltb max_lifecycle_status_value_bytes (byte_len value) || any is_control value)
            values))
      invalid_lifecycle

abbrev pub has_predicate : List LifecycleJsonPredicate → LifecycleJsonPredicate → Bool
has_predicate seen p = any (λ q. holds (LifecycleJsonPredicate-discrete q p)) seen

abbrev pub has_rule : List LifecycleStatusRule → LifecycleStatusRule → Bool
has_rule seen r = any (λ q. holds (LifecycleStatusRule-discrete q r)) seen

abbrev pub is_format : LifecycleStatusOutputFormat → LifecycleStatusOutputFormat → Bool
is_format a b = holds (LifecycleStatusOutputFormat-discrete a b)

abbrev pub is_state : LifecycleObservedAuthState → LifecycleObservedAuthState → Bool
is_state a b = holds (LifecycleObservedAuthState-discrete a b)

unfoldable pub check_predicates :
    List LifecycleJsonPredicate → List LifecycleJsonPredicate → Checked
check_predicates seen [] = ok tt
check_predicates seen (p ∷ rest) =
    guard (not (has_predicate seen p)) invalid_lifecycle
    >> (validate_lifecycle_json_predicate p >> check_predicates (p ∷ seen) rest)

-- The exit codes of a rule, and the keys of `exit_states` after them.
unfoldable pub check_exit_codes :
    LifecycleStatusOutputFormat → List ℕ → List ℕ → Result ManifestValidationError (List ℕ)
check_exit_codes format seen [] = ok seen
check_exit_codes format seen (code ∷ rest) =
    guard (leb code 255) invalid_lifecycle
    >> (guard
          (not
            (is_format format LifecycleStatusOutputFormat.exit_code && any (λ c. c == code) seen))
          invalid_lifecycle
        >> check_exit_codes format (code ∷ seen) rest)

abbrev pub expects_profile : IdentityContract → Bool
expects_profile IdentityContract.nothing = false
expects_profile (IdentityContract.profile_expected selector) = true
expects_profile (IdentityContract.unverified reason) = false

unfoldable pub check_rule_shape :
    LifecycleStatusOutputFormat → IdentityContract → LifecycleStatusRule → Checked
check_rule_shape format identity rule = do
  guard (not (is_format format LifecycleStatusOutputFormat.exit_code && not (is_nil rule.all)))
      invalid_lifecycle
  guard
      (not (
        is_format format LifecycleStatusOutputFormat.json
        && is_nil rule.all
        && not (is_state rule.state LifecycleObservedAuthState.ready && expects_profile identity)))
      invalid_lifecycle

-- The loop over the rules, from the rules and the exit codes before, whether one is ready, and the
-- number of predicates.
unfoldable pub check_rules :
    LifecycleStatusOutputFormat
    → IdentityContract
    → List LifecycleStatusRule
    → List ℕ
    → Bool
    → ℕ
    → List LifecycleStatusRule
    → Checked
check_rules format identity seen exits has_ready total [] = guard has_ready invalid_lifecycle
check_rules format identity seen exits has_ready total (rule ∷ rest) =
    guard
      (not (
        is_nil rule.exit_codes
        || ltb max_lifecycle_status_exit_codes (length rule.exit_codes)
        || ltb max_lifecycle_status_predicates (length rule.all)
        || has_rule seen rule))
      invalid_lifecycle
    >> (check_exit_codes format exits rule.exit_codes >>= λ exits'.
        check_rule_shape format identity rule
        >> (guard (not (ltb max_lifecycle_status_predicates (total + length rule.all)))
              invalid_lifecycle
            >> (check_predicates [] rule.all
                >> check_rules format identity (rule ∷ seen) exits'
                    (has_ready || is_state rule.state LifecycleObservedAuthState.ready)
                    (total + length rule.all) rest)))

unfoldable pub validate_lifecycle_status_observation :
    LifecycleStatusObservation → IdentityContract → Checked
validate_lifecycle_status_observation observation identity = do
  guard
      (not (is_nil observation.rules || ltb max_lifecycle_status_rules (length observation.rules)))
      invalid_lifecycle
  guard
      (not (
        is_format observation.format LifecycleStatusOutputFormat.exit_code
        && expects_profile identity))
      invalid_lifecycle
  check_rules observation.format identity [] [] false 0 observation.rules

abbrev reject_prefix : Option Text → List Text → Checked
reject_prefix none args = ok tt
reject_prefix (some executable) args =
    or_err (reject_inline_code_prefix executable args "auth.lifecycle") invalid_lifecycle

abbrev bad_timeout : Option ℕ → Bool
bad_timeout none = false
bad_timeout (some value) = value == 0 || ltb max_lifecycle_timeout_secs value

unfoldable pub validate_lifecycle_hook : Option LifecycleHook → Bool → Option Text → Checked
validate_lifecycle_hook none interaction_allowed executable = ok tt
validate_lifecycle_hook (some hook) interaction_allowed executable = do
  guard (not (is_nil hook.args || ltb max_fixed_arguments (length hook.args))) invalid_lifecycle
  or_err (validate_fixed_arguments hook.args "auth.lifecycle") invalid_lifecycle
  reject_prefix executable hook.args
  guard
      (not (
        holds (CliInteraction-discrete hook.interaction CliInteraction.pty)
        && not interaction_allowed))
      invalid_lifecycle
  guard (not (bad_timeout hook.timeout_secs)) invalid_lifecycle

abbrev check_observation : Option LifecycleStatusObservation → IdentityContract → Checked
check_observation none identity = ok tt
check_observation (some observation) identity =
    validate_lifecycle_status_observation observation identity

abbrev pub is_cli : RuntimeProtocol → Bool
is_cli (RuntimeProtocol.cli prefix interaction stdin directory limits) = true
is_cli (RuntimeProtocol.mcp transport discovery limits) = false

-- `AuthKind::CliProfile | AuthKind::OAuthSession`
abbrev pub has_session : AuthKind → Bool
has_session AuthKind.nothing = false
has_session AuthKind.secrets = false
has_session AuthKind.cli_profile = true
has_session AuthKind.oauth_session = true
has_session AuthKind.browser_profile = false
has_session AuthKind.native_permission = false
has_session AuthKind.delegated_credential = false

unfoldable pub check_hooks : AuthContract → RuntimeProtocol → Option Text → Checked
check_hooks auth runtime executable = do
  guard (is_cli runtime) invalid_lifecycle
  guard (has_session auth.kind) invalid_lifecycle
  guard
      (not (
        (is_some auth.lifecycle.status && not (is_some auth.lifecycle.status_observation))
        || (not (is_some auth.lifecycle.status) && is_some auth.lifecycle.status_observation)))
      invalid_lifecycle
  validate_lifecycle_hook auth.lifecycle.status false executable
  check_observation auth.lifecycle.status_observation auth.identity
  validate_lifecycle_hook auth.lifecycle.login true executable
  validate_lifecycle_hook auth.lifecycle.logout false executable
  validate_lifecycle_hook auth.lifecycle.refresh false executable

unfoldable pub validate_lifecycle : AuthContract → RuntimeProtocol → Option Text → Checked
validate_lifecycle auth runtime executable =
    elim (is_some auth.lifecycle.status
      || is_some auth.lifecycle.status_observation
      || is_some auth.lifecycle.login
      || is_some auth.lifecycle.logout
      || is_some auth.lifecycle.refresh) [
        | true ↦ check_hooks auth runtime executable
        | false ↦ ok tt
      ]
