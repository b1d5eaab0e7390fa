-- ===== src/Coordinator/Errors.antt =====
-- The value-free failures of tool-runtime-core/src/governed_execution_coordinator.rs.
use magic_run.Execution.Terminal.{GovernedExecutionDispatch, not_dispatched}
use magic_run.Coordinator.Error.{
  GovernedExecutionCoordinatorErrorCode, GovernedExecutionCoordinatorError,
}

abbrev pub invalid_call_context : GovernedExecutionCoordinatorError
invalid_call_context = record {
  code = GovernedExecutionCoordinatorErrorCode.invalid_call_context;
  field = "call_context";
  message = "the governed execution call context contains an invalid identifier";
  dispatch = not_dispatched;
}

abbrev pub contract_mismatch : GovernedExecutionCoordinatorError
contract_mismatch = record {
  code = GovernedExecutionCoordinatorErrorCode.contract_mismatch;
  field = "runtime_contract";
  message = "the execution, credential, and validated runtime contracts do not match exactly";
  dispatch = not_dispatched;
}

abbrev pub unsupported_credential_target : GovernedExecutionCoordinatorError
unsupported_credential_target = record {
  code = GovernedExecutionCoordinatorErrorCode.unsupported_credential_target;
  field = "credential_plan";
  message = "the direct CLI runtime has no declared placement for a filesystem credential target";
  dispatch = not_dispatched;
}

abbrev pub authorization_denied : GovernedExecutionCoordinatorError
authorization_denied = record {
  code = GovernedExecutionCoordinatorErrorCode.authorization_denied;
  field = "authorization";
  message = "the exact governed invocation was denied by local policy";
  dispatch = not_dispatched;
}

abbrev pub approval_required : GovernedExecutionCoordinatorError
approval_required = record {
  code = GovernedExecutionCoordinatorErrorCode.approval_required;
  field = "approval";
  message = "the exact governed invocation requires explicit approval";
  dispatch = not_dispatched;
}

abbrev pub authorization_unavailable : GovernedExecutionCoordinatorError
authorization_unavailable = record {
  code = GovernedExecutionCoordinatorErrorCode.authorization_unavailable;
  field = "authorization";
  message = "the governed authorization service is unavailable";
  dispatch = not_dispatched;
}

abbrev pub invalid_authorization_evidence : GovernedExecutionCoordinatorError
invalid_authorization_evidence = record {
  code = GovernedExecutionCoordinatorErrorCode.invalid_authorization_evidence;
  field = "authorization";
  message = "authorization evidence does not bind the exact request and required policy floor";
  dispatch = not_dispatched;
}

abbrev pub cancelled_before_dispatch : GovernedExecutionCoordinatorError
cancelled_before_dispatch = record {
  code = GovernedExecutionCoordinatorErrorCode.cancelled;
  field = "cancellation";
  message = "the governed invocation was cancelled before dispatch";
  dispatch = not_dispatched;
}

abbrev pub timed_out_before_dispatch : GovernedExecutionCoordinatorError
timed_out_before_dispatch = record {
  code = GovernedExecutionCoordinatorErrorCode.timed_out;
  field = "deadline";
  message = "the total governed invocation deadline expired before process dispatch";
  dispatch = not_dispatched;
}

abbrev pub profile_authority_unavailable : GovernedExecutionCoordinatorError
profile_authority_unavailable = record {
  code = GovernedExecutionCoordinatorErrorCode.profile_authority_unavailable;
  field = "profile_authority";
  message = "the selected ready profile could not issue exact filesystem authority";
  dispatch = not_dispatched;
}

abbrev pub credential_preparation_failed : GovernedExecutionCoordinatorError
credential_preparation_failed = record {
  code = GovernedExecutionCoordinatorErrorCode.credential_preparation_failed;
  field = "credential_preparation";
  message = "authorized credential material could not be prepared";
  dispatch = not_dispatched;
}

abbrev pub credential_materialization_failed :
    GovernedExecutionDispatch → GovernedExecutionCoordinatorError
credential_materialization_failed d = record {
  code = GovernedExecutionCoordinatorErrorCode.credential_materialization_failed;
  field = "credential_materialization";
  message = "authorized credential material could not be materialized or cleaned up";
  dispatch = d;
}

abbrev pub execution_authority_failed : GovernedExecutionCoordinatorError
execution_authority_failed = record {
  code = GovernedExecutionCoordinatorErrorCode.execution_authority_failed;
  field = "execution_authority";
  message = "exact executable or working-directory authority could not be bound";
  dispatch = not_dispatched;
}

abbrev pub process_failed : GovernedExecutionDispatch → GovernedExecutionCoordinatorError
process_failed d = record {
  code = GovernedExecutionCoordinatorErrorCode.process_failed;
  field = "process";
  message = "the governed process owner failed";
  dispatch = d;
}

abbrev pub result_sealing_failed : GovernedExecutionDispatch → GovernedExecutionCoordinatorError
result_sealing_failed d = record {
  code = GovernedExecutionCoordinatorErrorCode.result_sealing_failed;
  field = "execution_result";
  message = "the governed result could not be safely sealed";
  dispatch = d;
}

abbrev pub audit_failed : GovernedExecutionDispatch → GovernedExecutionCoordinatorError
audit_failed d = record {
  code = GovernedExecutionCoordinatorErrorCode.audit_failed;
  field = "audit";
  message = "the governed execution audit receipt could not be committed";
  dispatch = d;
}

abbrev pub reentrant_execution : GovernedExecutionCoordinatorError
reentrant_execution = record {
  code = GovernedExecutionCoordinatorErrorCode.reentrant_execution;
  field = "execution";
  message = "a governed execution callback attempted same-thread recursive execution";
  dispatch = not_dispatched;
}

abbrev pub internal_failure : GovernedExecutionDispatch → GovernedExecutionCoordinatorError
internal_failure d = record {
  code = GovernedExecutionCoordinatorErrorCode.internal_failure;
  field = "execution";
  message = "the governed execution boundary failed internally";
  dispatch = d;
}
