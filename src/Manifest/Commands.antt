-- ===== src/Manifest/Commands.antt =====
-- The checks of fixed arguments, interpreters and standard input of
-- tool-runtime-core/src/manifest_validation.rs.
use magic_run.Prelude.{
  ℕ, ◌+◌, String, Bool, true, false, ◌&&◌, ◌||◌, List, [], ◌∷◌, Text, codes, ok, guard, ◌>>◌, ltb,
  not, any, byte_len, is_control, holds, Text-discrete, is_some, if◌then◌else◌,
}
use magic_run.Prelude.Sets.{is_nil, one_of, first_is, to_ascii_lowercase}
use magic_run.Manifest.Refusal.{ManifestValidationErrorCode, Checked, error}
use magic_run.Manifest.Mcp.{StdinMode, DataSensitivity, RuntimeLimits}
use magic_run.Manifest.Equality.{StdinMode-discrete, DataSensitivity-discrete}
use magic_run.Manifest.Limits.{max_argument_bytes, max_fixed_argument_bytes}

-- The loop of `validate_fixed_arguments` from the bytes of the arguments before.
unfoldable pub fixed_arguments_from : String → ℕ → List Text → Checked
fixed_arguments_from field total [] = ok tt
fixed_arguments_from field total (argument ∷ rest) =
    guard
      (not
        (is_nil argument || ltb max_argument_bytes (byte_len argument) || any is_control argument))
      (error ManifestValidationErrorCode.invalid_argument field
        "fixed arguments must be non-empty, bounded, control-free tokens")
    >> (guard (not (ltb max_fixed_argument_bytes (total + byte_len argument))) (
          error ManifestValidationErrorCode.invalid_argument field
            "fixed arguments exceed the combined byte limit")
        >> fixed_arguments_from field (total + byte_len argument) rest)

unfoldable pub validate_fixed_arguments : List Text → String → Checked
validate_fixed_arguments arguments field = fixed_arguments_from field 0 arguments

unfoldable pub safe_code_target : Text → Bool
safe_code_target target =
    not (is_nil target)
    && not (holds (Text-discrete target (codes "-")))
    && not (first_is b'-' target)

abbrev target_after : List Text → Bool
target_after [] = false
target_after (target ∷ rest) = safe_code_target target

-- The first argument is one of the options, and the second is the target, or the first is.
abbrev pub target_behind : List String → (Text → Text) → List Text → Bool
target_behind options fold [] = false
target_behind options fold (first ∷ rest) =
    if one_of options (fold first) then target_after rest else safe_code_target (fold first)

abbrev pub unchanged : Text → Text
unchanged value = value

unfoldable pub interpreter_target_is_safe : Text → List Text → Bool
interpreter_target_is_safe executable arguments =
    if one_of ("cmd" ∷ "cmd.exe" ∷ []) executable
    then false
    else if one_of ("python" ∷ "python3" ∷ []) executable
    then target_behind ("-m" ∷ "--" ∷ []) unchanged arguments
    else if one_of ("powershell" ∷ "powershell.exe" ∷ "pwsh" ∷ "pwsh.exe" ∷ []) executable
    then target_behind ("-file" ∷ "--" ∷ []) to_ascii_lowercase arguments
    else if one_of
        ("sh" ∷ "bash" ∷ "dash" ∷ "ksh" ∷ "zsh" ∷ "fish" ∷ "ruby" ∷ "perl" ∷ "node" ∷ "nodejs"
          ∷ "osascript" ∷ [])
        executable
    then target_behind ("--" ∷ []) unchanged arguments
    else true

unfoldable pub reject_inline_code_prefix : Text → List Text → String → Checked
reject_inline_code_prefix executable arguments field =
    guard (interpreter_target_is_safe (to_ascii_lowercase executable) arguments) (
      error ManifestValidationErrorCode.illegal_command_prefix field
        "an interpreter prefix must select a fixed script or module without inline source")

unfoldable pub validate_stdin : StdinMode → DataSensitivity → RuntimeLimits → Checked
validate_stdin mode sensitivity limits =
    guard
      (not (
        holds (StdinMode-discrete mode StdinMode.denied)
        && (not (holds (DataSensitivity-discrete sensitivity DataSensitivity.public))
            || is_some limits.stdin_bytes)))
      (error ManifestValidationErrorCode.invalid_stdin_contract "runtime.stdin"
        "denied model stdin cannot declare sensitivity or a byte allowance")
