-- ===== src/Execution/Contract.antt =====
-- Admission of a request, and the intent that it leads to, of
-- tool-runtime-core/src/governed_execution.rs.
use native.Mathlib.Decide.{ℕ_discrete}
use magic_run.Prelude.{
  ℕ, Bool, true, false, ◌&&◌, not, Option, none, some, List, Text, String, Result, ok, err, ◌>>=◌,
  ◌>>◌, guard, leb, ◌==◌, first, length, holds, is_some, unwrap_or,
}
use magic_run.Manifest.Mcp.{
  CliInteraction, StdinMode, DataSensitivity, WorkingDirectoryMode, RuntimeProtocol,
}
use magic_run.Manifest.Auth.{SkillRuntimeContract}
use magic_run.Manifest.Equality.{
  CliInteraction-discrete, StdinMode-discrete, DataSensitivity-discrete,
  WorkingDirectoryMode-discrete,
}
use magic_run.Manifest.Limits.{max_runtime_timeout_secs, max_runtime_stream_bytes}
use magic_run.Execution.Error.{GovernedExecutionContractError}
use magic_run.Execution.Errors.{
  stdin_reserved_for_credential, stdin_too_large, materialized_stdin_missing,
  materialized_stdin_unexpected, invalid_timeout,
}
use magic_run.Execution.Policy.{
  GovernedExecutionContract, governed_execution_contract_v1, reserves_stdin,
}
use magic_run.Execution.Request.{
  Bytes, GovernedExecutionRequest, validate_arguments, validate_stdin, validate_working_directory,
}

unfoldable pub Executable-discrete : Discrete (Option Text)
Executable-discrete = hlevel ℕ_discrete

unfoldable pub Prefix-discrete : Discrete (List Text)
Prefix-discrete = hlevel ℕ_discrete

unfoldable pub Flag-discrete : Discrete Bool
Flag-discrete = hlevel

unfoldable pub Memory-discrete : Discrete (Option ℕ)
Memory-discrete = hlevel ℕ_discrete

pub record GovernedExecutionIntent : Type 0 where
  pub schema_version : String
  pub executable : Text
  pub command_prefix : List Text
  pub interaction : CliInteraction
  pub stdin_mode : StdinMode
  pub stdin_sensitivity : DataSensitivity
  pub credential_stdin_reserved : Bool
  pub working_directory_mode : WorkingDirectoryMode
  pub arguments : List Text
  pub argument_bytes : ℕ
  pub stdin : Option Bytes
  pub working_directory : List Text
  pub timeout_secs : ℕ
  pub max_stdin_bytes : ℕ
  pub max_stdout_bytes : ℕ
  pub max_stderr_bytes : ℕ
  pub max_memory_bytes : Option ℕ

-- The stdin check of `admit`, by whether a credential owns the stream.
unfoldable pub admit_stdin :
    Bool
    → GovernedExecutionContract
    → Option Bytes
    → Result GovernedExecutionContractError (Unit {0})
admit_stdin true contract stdin = guard (not (is_some stdin)) stdin_reserved_for_credential
admit_stdin false contract stdin = validate_stdin contract.stdin_mode contract.max_stdin_bytes stdin

unfoldable pub effective_timeout :
    GovernedExecutionContract → Option ℕ → Result GovernedExecutionContractError ℕ
effective_timeout contract (some value) = do
  guard (not (value == 0) && leb value contract.max_timeout_secs) invalid_timeout
  ok value
effective_timeout contract none = ok contract.default_timeout_secs

abbrev pub intent_of :
    GovernedExecutionContract
    → GovernedExecutionRequest
    → ℕ
    → List Text
    → ℕ
    → GovernedExecutionIntent
intent_of contract request argument_bytes working_directory timeout = record {
  schema_version = governed_execution_contract_v1;
  executable = contract.executable;
  command_prefix = contract.command_prefix;
  interaction = contract.interaction;
  stdin_mode = contract.stdin_mode;
  stdin_sensitivity = contract.stdin_sensitivity;
  credential_stdin_reserved = contract.credential_stdin_reserved;
  working_directory_mode = contract.working_directory;
  arguments = request.arguments;
  argument_bytes = argument_bytes;
  stdin = request.stdin;
  working_directory = working_directory;
  timeout_secs = timeout;
  max_stdin_bytes = contract.max_stdin_bytes;
  max_stdout_bytes = contract.max_stdout_bytes;
  max_stderr_bytes = contract.max_stderr_bytes;
  max_memory_bytes = contract.max_memory_bytes;
}

unfoldable pub admit :
    GovernedExecutionContract
    → GovernedExecutionRequest
    → Result GovernedExecutionContractError GovernedExecutionIntent
admit contract request = do
  argument_bytes ← validate_arguments request.arguments request.argument_item_limit
  admit_stdin contract.credential_stdin_reserved contract request.stdin
  working_directory ←
      validate_working_directory contract.working_directory request.working_directory
  timeout ← effective_timeout contract request.timeout_secs
  ok (intent_of contract request argument_bytes working_directory timeout)

unfoldable pub matches_protocol :
    RuntimeProtocol → SkillRuntimeContract → GovernedExecutionIntent → Bool
matches_protocol (RuntimeProtocol.cli prefix interaction stdin directory limits) contract intent =
    holds (Executable-discrete (first contract.requires.bins) (some intent.executable))
    && holds (Prefix-discrete prefix intent.command_prefix)
    && holds (CliInteraction-discrete interaction intent.interaction)
    && holds (StdinMode-discrete stdin.mode intent.stdin_mode)
    && holds (DataSensitivity-discrete stdin.sensitivity intent.stdin_sensitivity)
    && holds (WorkingDirectoryMode-discrete directory.mode intent.working_directory_mode)
    && holds
        (Flag-discrete (reserves_stdin contract.auth.injections) intent.credential_stdin_reserved)
    && leb intent.timeout_secs (unwrap_or limits.timeout_secs max_runtime_timeout_secs)
    && leb intent.max_stdin_bytes (unwrap_or limits.stdin_bytes max_runtime_stream_bytes)
    && leb intent.max_stdout_bytes (unwrap_or limits.stdout_bytes max_runtime_stream_bytes)
    && leb intent.max_stderr_bytes (unwrap_or limits.stderr_bytes max_runtime_stream_bytes)
    && holds (Memory-discrete intent.max_memory_bytes limits.memory_bytes)
matches_protocol (RuntimeProtocol.mcp _ _ _) contract intent = false

unfoldable pub matches_validated_contract : GovernedExecutionIntent → SkillRuntimeContract → Bool
unfolding matches_protocol
matches_validated_contract intent contract = matches_protocol contract.runtime contract intent

unfoldable pub bind_stdin :
    Bool
    → GovernedExecutionIntent
    → Option Bytes
    → Result GovernedExecutionContractError GovernedExecutionIntent
bind_stdin true intent (some value) = do
  guard (not (length value == 0) && leb (length value) intent.max_stdin_bytes) stdin_too_large
  ok (record intent { stdin = some value })
bind_stdin true intent none = err materialized_stdin_missing
bind_stdin false intent (some _) = err materialized_stdin_unexpected
bind_stdin false intent none = ok intent

unfoldable pub bind_materialized_stdin :
    GovernedExecutionIntent
    → Option Bytes
    → Result GovernedExecutionContractError GovernedExecutionIntent
unfolding bind_stdin
bind_materialized_stdin intent materialized =
    bind_stdin intent.credential_stdin_reserved intent materialized
