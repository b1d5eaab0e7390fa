-- ===== src/Coordinator/Error.antt =====
-- The value-free failure type of tool-runtime-core/src/governed_execution_coordinator.rs.
use magic_run.Prelude.{String}
use magic_run.Execution.Terminal.{GovernedExecutionDispatch}

pub data GovernedExecutionCoordinatorErrorCode : Type 0 where
  invalid_call_context contract_mismatch unsupported_credential_target :
      GovernedExecutionCoordinatorErrorCode
  authorization_denied approval_required authorization_unavailable :
      GovernedExecutionCoordinatorErrorCode
  invalid_authorization_evidence cancelled timed_out : GovernedExecutionCoordinatorErrorCode
  profile_authority_unavailable credential_preparation_failed credential_materialization_failed :
      GovernedExecutionCoordinatorErrorCode
  execution_authority_failed process_failed result_sealing_failed :
      GovernedExecutionCoordinatorErrorCode
  audit_failed reentrant_execution internal_failure : GovernedExecutionCoordinatorErrorCode

pub record GovernedExecutionCoordinatorError : Type 0 where
  pub code : GovernedExecutionCoordinatorErrorCode
  pub field : String
  pub message : String
  pub dispatch : GovernedExecutionDispatch
