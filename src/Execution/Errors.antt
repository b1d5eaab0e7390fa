-- ===== src/Execution/Errors.antt =====
-- The value-free failures of tool-runtime-core/src/governed_execution.rs.

use magic_run.Execution.Error.{GovernedExecutionContractErrorCode, GovernedExecutionContractError}

abbrev pub unsupported_protocol : GovernedExecutionContractError
unsupported_protocol = record {
  code = GovernedExecutionContractErrorCode.unsupported_protocol;
  field = "runtime.protocol";
  message = "governed executable execution requires a validated CLI contract";
}

abbrev pub invalid_local_policy : GovernedExecutionContractError
invalid_local_policy = record {
  code = GovernedExecutionContractErrorCode.invalid_local_policy;
  field = "local_policy";
  message = "the local execution policy is outside immutable resource ceilings";
}

abbrev pub too_many_arguments : GovernedExecutionContractError
too_many_arguments = record {
  code = GovernedExecutionContractErrorCode.too_many_arguments;
  field = "args";
  message = "the invocation has too many argument tokens";
}

abbrev pub invalid_argument : GovernedExecutionContractError
invalid_argument = record {
  code = GovernedExecutionContractErrorCode.invalid_argument;
  field = "args";
  message = "an argument exceeds its byte limit or contains a control character";
}

abbrev pub arguments_too_large : GovernedExecutionContractError
arguments_too_large = record {
  code = GovernedExecutionContractErrorCode.arguments_too_large;
  field = "args";
  message = "the aggregate argument bytes exceed the invocation ceiling";
}

abbrev pub stdin_denied : GovernedExecutionContractError
stdin_denied = record {
  code = GovernedExecutionContractErrorCode.stdin_denied;
  field = "stdin";
  message = "standard input is not permitted by this execution contract";
}

abbrev pub stdin_reserved_for_credential : GovernedExecutionContractError
stdin_reserved_for_credential = record {
  code = GovernedExecutionContractErrorCode.stdin_reserved_for_credential;
  field = "stdin";
  message = "standard input is reserved for a declared credential injection";
}

abbrev pub stdin_required : GovernedExecutionContractError
stdin_required = record {
  code = GovernedExecutionContractErrorCode.stdin_required;
  field = "stdin";
  message = "standard input is required by this execution contract";
}

abbrev pub stdin_too_large : GovernedExecutionContractError
stdin_too_large = record {
  code = GovernedExecutionContractErrorCode.stdin_too_large;
  field = "stdin";
  message = "standard input exceeds the effective byte ceiling";
}

abbrev pub materialized_stdin_missing : GovernedExecutionContractError
materialized_stdin_missing = record {
  code = GovernedExecutionContractErrorCode.materialized_stdin_missing;
  field = "stdin";
  message = "the declared credential stdin value was not materialized";
}

abbrev pub materialized_stdin_unexpected : GovernedExecutionContractError
materialized_stdin_unexpected = record {
  code = GovernedExecutionContractErrorCode.materialized_stdin_unexpected;
  field = "stdin";
  message = "credential material attempted to inject undeclared standard input";
}

abbrev pub working_directory_denied : GovernedExecutionContractError
working_directory_denied = record {
  code = GovernedExecutionContractErrorCode.working_directory_denied;
  field = "working_dir";
  message = "a working directory is not permitted by this execution contract";
}

abbrev pub invalid_working_directory : GovernedExecutionContractError
invalid_working_directory = record {
  code = GovernedExecutionContractErrorCode.invalid_working_directory;
  field = "working_dir";
  message = "the working directory is not a bounded portable relative path";
}

abbrev pub invalid_timeout : GovernedExecutionContractError
invalid_timeout = record {
  code = GovernedExecutionContractErrorCode.invalid_timeout;
  field = "timeout_secs";
  message = "the requested timeout is outside the effective non-zero ceiling";
}

abbrev pub invalid_terminal_state : GovernedExecutionContractError
invalid_terminal_state = record {
  code = GovernedExecutionContractErrorCode.invalid_local_policy;
  field = "terminal_state";
  message = "the terminal classification is incompatible with dispatch certainty";
}
