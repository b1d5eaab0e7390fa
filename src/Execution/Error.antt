-- ===== src/Execution/Error.antt =====
-- The value-free failure type of tool-runtime-core/src/governed_execution.rs.
use magic_run.Prelude.{String}

pub data GovernedExecutionContractErrorCode : Type 0 where
  unsupported_protocol invalid_local_policy too_many_arguments : GovernedExecutionContractErrorCode
  invalid_argument arguments_too_large stdin_denied : GovernedExecutionContractErrorCode
  stdin_reserved_for_credential stdin_required stdin_too_large : GovernedExecutionContractErrorCode
  materialized_stdin_missing materialized_stdin_unexpected working_directory_denied :
      GovernedExecutionContractErrorCode
  invalid_working_directory invalid_timeout : GovernedExecutionContractErrorCode

pub record GovernedExecutionContractError : Type 0 where
  pub code : GovernedExecutionContractErrorCode
  pub field : String
  pub message : String
