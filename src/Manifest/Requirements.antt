-- ===== src/Manifest/Requirements.antt =====
-- `validate_requirements` of tool-runtime-core/src/manifest_validation.rs.
use magic_run.Prelude.{
  ℕ, ◌+◌, ◌*◌, Bool, true, false, ◌&&◌, ◌||◌, Option, none, some, List, [], ◌∷◌, Text, codes, ok,
  guard, ◌>>◌, ltb, leb, ◌==◌, not, any, all, length, byte_len, is_control, is_some,
}
use magic_run.Prelude.Sets.{is_nil, contains, one_of, has_prefix, eq_ignore_ascii_case}
use magic_run.Manifest.Refusal.{ManifestValidationErrorCode, Checked, error, for_each}
use magic_run.Manifest.Mcp.{McpTransport, RuntimeProtocol}
use magic_run.Manifest.Auth.{InjectionTarget, InjectionBinding, SkillRuntimeContract}
use magic_run.Manifest.Vocabulary.{
  is_digit, is_executable_name, is_interpreter_injection_environment_name,
}

abbrev pub max_fixed_environment_name_bytes : ℕ
max_fixed_environment_name_bytes = 128

abbrev pub max_fixed_environment_value_bytes : ℕ
max_fixed_environment_value_bytes = 4 * 1024

abbrev pub max_fixed_environment_total_bytes : ℕ
max_fixed_environment_total_bytes = 64 * 1024

abbrev name_head : ℕ → Bool
name_head c = c == b'_' || (leb b'A' c && leb c b'Z')

-- Only the first character may not be a digit.
abbrev name_chars : Text → Bool
name_chars [] = true
name_chars (c ∷ rest) = name_head c && all (λ d. name_head d || is_digit d) rest

unfoldable pub valid_environment_name : Text → Bool
valid_environment_name name =
    not (is_nil name) && leb (byte_len name) max_fixed_environment_name_bytes && name_chars name

unfoldable pub process_sensitive : Text → Bool
process_sensitive name =
    one_of
      ("PATH" ∷ "HOME" ∷ "LANG" ∷ "LC_ALL" ∷ "LC_CTYPE" ∷ "TERM" ∷ "TZ" ∷ "ENV" ∷ "BASH_ENV"
        ∷ "SHELLOPTS" ∷ "PYTHONHOME" ∷ "PYTHONPATH" ∷ "NODE_OPTIONS" ∷ "RUBYOPT" ∷ "PERL5LIB"
        ∷ "PERL5OPT" ∷ "GIT_CONFIG_GLOBAL" ∷ "GIT_CONFIG_SYSTEM" ∷ [])
      name
    || has_prefix (codes "LD_") name
    || has_prefix (codes "DYLD_") name
    || is_interpreter_injection_environment_name name

abbrev pub is_target_named : Text → InjectionTarget → Bool
is_target_named name (InjectionTarget.environment target) = eq_ignore_ascii_case target name
is_target_named name InjectionTarget.stdin = false
is_target_named name (InjectionTarget.scoped_file path) = false
is_target_named name (InjectionTarget.config_directory directory) = false

unfoldable pub injection_collision : List InjectionBinding → Text → Bool
injection_collision injections name = any (λ i. is_target_named name i.target) injections

-- The loop of `validate_fixed_environment` from the bytes of the entries before.
unfoldable pub fixed_environment_from : List InjectionBinding → ℕ → List (Text × Text) → Checked
fixed_environment_from injections total [] = ok tt
fixed_environment_from injections total ((name, value) ∷ rest) =
    guard
      (not (
        not (valid_environment_name name)
        || process_sensitive name
        || injection_collision injections name
        || ltb max_fixed_environment_value_bytes (byte_len value)
        || any is_control value))
      (error ManifestValidationErrorCode.invalid_environment "requires.environment"
        "fixed public environment must be bounded and process-safe")
    >> (guard (not (ltb max_fixed_environment_total_bytes (total + byte_len name + byte_len value)))
          (error ManifestValidationErrorCode.invalid_environment "requires.environment"
            "fixed environment exceeds its aggregate byte limit")
        >> fixed_environment_from injections (total + byte_len name + byte_len value) rest)

unfoldable pub validate_fixed_environment : SkillRuntimeContract → Checked
validate_fixed_environment contract =
    fixed_environment_from contract.auth.injections 0 contract.requires.environment

unfoldable pub check_executable : Text → Checked
check_executable executable = guard (is_executable_name executable) (
    error ManifestValidationErrorCode.invalid_executable "requires.bins"
      "executable requirements must be portable names, not paths")

abbrev pub declared_in : List Text → Option Text → Bool
declared_in bins none = true
declared_in bins (some entrypoint) = contains bins entrypoint

unfoldable pub check_process : SkillRuntimeContract → RuntimeProtocol → Checked
check_process contract (RuntimeProtocol.cli prefix interaction stdin directory limits) = do
  guard
      (not (
        is_nil contract.requires.bins
        || (ltb 1 (length contract.requires.bins) && not (is_some contract.requires.entrypoint))))
      (error ManifestValidationErrorCode.ambiguous_executable "requires.entrypoint"
        "a multi-binary CLI contract must declare one exact entrypoint")
  guard (declared_in contract.requires.bins contract.requires.entrypoint) (
      error ManifestValidationErrorCode.executable_requirement_mismatch "requires.entrypoint"
        "the CLI entrypoint must appear in requires.bins")
check_process contract (RuntimeProtocol.mcp (McpTransport.stdio executable args) discovery limits) =
    do
      guard (contains contract.requires.bins executable) (
          error ManifestValidationErrorCode.executable_requirement_mismatch
            "runtime.transport.executable" "the stdio executable must also appear in requires.bins")
      guard
          (not (is_some contract.requires.entrypoint || not (is_nil contract.requires.environment)))
          (error ManifestValidationErrorCode.invalid_environment "requires.environment"
            "MCP transports cannot inherit CLI fixed environment configuration")
check_process contract
      (RuntimeProtocol.mcp (McpTransport.streamable_http endpoint) discovery limits) =
    guard
      (not (
        not (is_nil contract.requires.bins)
        || is_some contract.requires.entrypoint
        || not (is_nil contract.requires.environment)))
      (error ManifestValidationErrorCode.ambiguous_executable "requires.bins"
        "a remote Streamable HTTP contract cannot declare local process requirements")

unfoldable pub validate_requirements : SkillRuntimeContract → Checked
validate_requirements contract = do
  for_each check_executable contract.requires.bins
  validate_fixed_environment contract
  check_process contract contract.runtime
