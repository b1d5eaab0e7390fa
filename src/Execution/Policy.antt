-- ===== src/Execution/Policy.antt =====
-- The product resource policy of tool-runtime-core/src/governed_execution.rs, and the contract
-- that is compiled under it.
use magic_run.Prelude.{
  ℕ, Bool, ◌||◌, not, Option, List, Text, String, Result, ok, err, ok_or, guard, ◌>>=◌, ◌>>◌, min,
  ltb, ◌==◌, any, first, holds, unwrap_or,
}
use magic_run.Manifest.Mcp.{
  CliInteraction, StdinMode, DataSensitivity, WorkingDirectoryMode, RuntimeProtocol,
}
use magic_run.Manifest.Auth.{InjectionTarget, InjectionBinding, SkillRuntimeContract}
use magic_run.Manifest.Equality.{InjectionTarget-discrete}
use magic_run.Manifest.Limits.{max_runtime_timeout_secs, max_runtime_stream_bytes}
use magic_run.Execution.Error.{GovernedExecutionContractError}
use magic_run.Execution.Errors.{unsupported_protocol, invalid_local_policy}

abbrev pub governed_execution_contract_v1 : String
governed_execution_contract_v1 = "tool-runtime.governed-execution.v1"

-- The timeouts are u32, the others are u64.
pub record GovernedExecutionPolicy : Type 0 where
  pub default_timeout_secs : ℕ
  pub max_timeout_secs : ℕ
  pub max_stdin_bytes : ℕ
  pub max_stdout_bytes : ℕ
  pub max_stderr_bytes : ℕ

unfoldable pub new :
    ℕ → ℕ → ℕ → ℕ → ℕ → Result GovernedExecutionContractError GovernedExecutionPolicy
new default_timeout max_timeout max_stdin max_stdout max_stderr = do
  guard (not (default_timeout == 0)) invalid_local_policy
  guard (not (max_timeout == 0)) invalid_local_policy
  guard
      (not (
        ltb max_timeout default_timeout
        || ltb max_runtime_timeout_secs max_timeout
        || max_stdin == 0
        || max_stdout == 0
        || max_stderr == 0
        || ltb max_runtime_stream_bytes max_stdin
        || ltb max_runtime_stream_bytes max_stdout
        || ltb max_runtime_stream_bytes max_stderr))
      invalid_local_policy
  ok (record {
    default_timeout_secs = default_timeout;
    max_timeout_secs = max_timeout;
    max_stdin_bytes = max_stdin;
    max_stdout_bytes = max_stdout;
    max_stderr_bytes = max_stderr;
  })

pub record GovernedExecutionContract : Type 0 where
  pub schema_version : String
  pub executable : Text
  pub command_prefix : List Text
  pub interaction : CliInteraction
  pub stdin_mode : StdinMode
  pub stdin_sensitivity : DataSensitivity
  pub credential_stdin_reserved : Bool
  pub working_directory : WorkingDirectoryMode
  pub max_timeout_secs : ℕ
  pub default_timeout_secs : ℕ
  pub max_stdin_bytes : ℕ
  pub max_stdout_bytes : ℕ
  pub max_stderr_bytes : ℕ
  pub max_memory_bytes : Option ℕ

-- `injections.iter().any(|binding| binding.target == InjectionTarget::Stdin)`
abbrev pub reserves_stdin : List InjectionBinding → Bool
reserves_stdin = any (λ b. holds (InjectionTarget-discrete b.target InjectionTarget.stdin))

unfoldable pub compile_protocol :
    RuntimeProtocol
    → SkillRuntimeContract
    → GovernedExecutionPolicy
    → Result GovernedExecutionContractError GovernedExecutionContract
compile_protocol (RuntimeProtocol.cli prefix interaction stdin directory limits) contract policy =
    do
      executable ← ok_or (first contract.requires.bins) unsupported_protocol
      let max_timeout =
          min (unwrap_or limits.timeout_secs max_runtime_timeout_secs) policy.max_timeout_secs
      ok (record {
        schema_version = governed_execution_contract_v1;
        executable = executable;
        command_prefix = prefix;
        interaction = interaction;
        stdin_mode = stdin.mode;
        stdin_sensitivity = stdin.sensitivity;
        credential_stdin_reserved = reserves_stdin contract.auth.injections;
        working_directory = directory.mode;
        max_timeout_secs = max_timeout;
        default_timeout_secs = min policy.default_timeout_secs max_timeout;
        max_stdin_bytes =
            min (unwrap_or limits.stdin_bytes max_runtime_stream_bytes) policy.max_stdin_bytes;
        max_stdout_bytes =
            min (unwrap_or limits.stdout_bytes max_runtime_stream_bytes) policy.max_stdout_bytes;
        max_stderr_bytes =
            min (unwrap_or limits.stderr_bytes max_runtime_stream_bytes) policy.max_stderr_bytes;
        max_memory_bytes = limits.memory_bytes;
      })
compile_protocol (RuntimeProtocol.mcp _ _ _) contract policy = err unsupported_protocol

unfoldable pub compile :
    SkillRuntimeContract
    → GovernedExecutionPolicy
    → Result GovernedExecutionContractError GovernedExecutionContract
unfolding compile_protocol
compile contract policy = compile_protocol contract.runtime contract policy
