-- ===== src/Manifest/Limits.antt =====
-- The immutable ceilings and `validate_limits` of
-- tool-runtime-core/src/manifest_validation.rs.
use magic_run.Prelude.{
  ℕ, ◌*◌, String, Bool, false, ◌||◌, Option, none, some, Result, ◌>>◌, guard, not, ltb,
}
use magic_run.Manifest.Refusal.{ManifestValidationErrorCode, ManifestValidationError}
use magic_run.Manifest.Mcp.{RuntimeLimits}

abbrev pub max_fixed_arguments : ℕ
max_fixed_arguments = 128

abbrev pub max_argument_bytes : ℕ
max_argument_bytes = 4 * 1024

abbrev pub max_fixed_argument_bytes : ℕ
max_fixed_argument_bytes = 64 * 1024

abbrev pub max_runtime_timeout_secs : ℕ
max_runtime_timeout_secs = 24 * 60 * 60

abbrev pub max_runtime_stream_bytes : ℕ
max_runtime_stream_bytes = 256 * 1024 * 1024

abbrev pub max_runtime_memory_bytes : ℕ
max_runtime_memory_bytes = 8 * 1024 * 1024 * 1024

abbrev invalid_limit : String → String → ManifestValidationError
invalid_limit f m = record {
  code = ManifestValidationErrorCode.invalid_runtime_limit;
  field = f;
  message = m;
}

-- `value.is_some_and(|value| value < low || value > high)`
abbrev pub outside : ℕ → ℕ → Option ℕ → Bool
outside low high none = false
outside low high (some value) = ltb value low || ltb high value

unfoldable pub validate_limits : RuntimeLimits → Result ManifestValidationError (Unit {0})
validate_limits limits = do
  guard (not (outside 1 max_runtime_timeout_secs limits.timeout_secs)) (
      invalid_limit "runtime.limits.timeout_secs"
        "the runtime timeout must be within the supported non-zero ceiling")
  guard (not (outside 1 max_runtime_stream_bytes limits.stdin_bytes)) (
      invalid_limit "runtime.limits.stdin_bytes"
        "the stream limit must be within the supported non-zero ceiling")
  guard (not (outside 1 max_runtime_stream_bytes limits.stdout_bytes)) (
      invalid_limit "runtime.limits.stdout_bytes"
        "the stream limit must be within the supported non-zero ceiling")
  guard (not (outside 1 max_runtime_stream_bytes limits.stderr_bytes)) (
      invalid_limit "runtime.limits.stderr_bytes"
        "the stream limit must be within the supported non-zero ceiling")
  guard (not (outside (64 * 1024 * 1024) max_runtime_memory_bytes limits.memory_bytes)) (
      invalid_limit "runtime.limits.memory_bytes"
        "the process memory limit must be between 64 MiB and the supported ceiling")
