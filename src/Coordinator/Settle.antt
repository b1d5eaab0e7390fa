-- ===== src/Coordinator/Settle.antt =====
-- How `execute` settles a run through one audit receipt, of
-- tool-runtime-core/src/governed_execution_coordinator.rs.
use magic_run.Prelude.{
  Bool, true, false, Option, none, some, List, [], ◌∷◌, Result, err, leb, holds, if◌then◌else◌,
}
use magic_run.Execution.Terminal.{
  GovernedExecutionDispatch, GovernedExecutionTerminalState, not_dispatched, success,
  cancelled_state, timed_out_state, runtime_failure_state, Dispatch-discrete, Terminal-discrete,
}
use magic_run.Coordinator.Error.{
  GovernedExecutionCoordinatorError, GovernedExecutionCoordinatorErrorCode,
}
use magic_run.Coordinator.Errors
use magic_run.Coordinator.Evidence.{GovernedAuthorizationRequest}
use magic_run.Coordinator.Receipt.{
  Opaque, GovernedExecutionAuditOutcome, CredentialExecutionFailure, CredentialExecutionOutcome,
  GovernedAuthorizationAudit, GovernedExecutableProvenance, AuthorizationAuditFields,
  GovernedExecutionAuditReceipt, GovernedExecutionSettlement, fields_of,
  governed_execution_coordinator_v1,
}
use magic_run.Coordinator.Host.{Point, Call, GovernedExecutionInvocation, Host}

-- What a run leaves: its calls in order and its result.
pub record Run (o : Opaque) : Type 0 where
  pub calls : List (Call o)
  pub result : Result GovernedExecutionCoordinatorError (GovernedExecutionSettlement o)

abbrev pub failed_with : CredentialExecutionFailure → CredentialExecutionOutcome
failed_with failure = CredentialExecutionOutcome.failed failure

unfoldable pub is_cancelled_code : GovernedExecutionCoordinatorErrorCode → Bool
is_cancelled_code GovernedExecutionCoordinatorErrorCode.cancelled = true
is_cancelled_code _ = false

unfoldable pub is_timed_out_code : GovernedExecutionCoordinatorErrorCode → Bool
is_timed_out_code GovernedExecutionCoordinatorErrorCode.timed_out = true
is_timed_out_code _ = false

-- The observed terminal of a failed execution, unless it says success.
unfoldable pub failure_terminal :
    Option GovernedExecutionTerminalState
    → GovernedExecutionDispatch
    → GovernedExecutionTerminalState
failure_terminal none d = runtime_failure_state d
failure_terminal (some terminal) d =
    if holds (Terminal-discrete terminal.terminal success)
    then runtime_failure_state d
    else terminal

unfoldable pub error_terminal :
    GovernedExecutionCoordinatorError
    → Option GovernedExecutionTerminalState
    → GovernedExecutionTerminalState
error_terminal error observed =
    if is_cancelled_code error.code
    then cancelled_state error.dispatch
    else if is_timed_out_code error.code
    then timed_out_state error.dispatch
    else failure_terminal observed error.dispatch

unfoldable pub error_outcome : GovernedExecutionCoordinatorError → GovernedExecutionAuditOutcome
error_outcome error =
    if is_cancelled_code error.code
    then GovernedExecutionAuditOutcome.cancelled
    else if is_timed_out_code error.code
    then GovernedExecutionAuditOutcome.timed_out
    else if holds (Dispatch-discrete error.dispatch not_dispatched)
    then GovernedExecutionAuditOutcome.preparation_failed
    else GovernedExecutionAuditOutcome.execution_failed

module _ (o : Opaque) where
  unfoldable pub failure_receipt_from_parts :
      GovernedExecutionInvocation o
      → AuthorizationAuditFields
      → Option GovernedAuthorizationAudit
      → GovernedExecutionAuditOutcome
      → GovernedExecutionTerminalState
      → CredentialExecutionOutcome
      → Option GovernedExecutableProvenance
      → GovernedExecutionAuditReceipt o
  failure_receipt_from_parts invocation fields authorization outcome terminal credential p =
      record {
        schema_version = governed_execution_coordinator_v1;
        context = invocation.context;
        fields = fields;
        authorization = authorization;
        outcome = outcome;
        terminal = terminal;
        credential = record {
          call_id = invocation.context.call_id;
          plan = invocation.injection;
          outcome = credential;
        };
        executable = p;
        jail = none;
        artifacts = none;
      }

  -- `record_audit(audit, &receipt, dispatch)?` and then `Err(error)`
  unfoldable pub settle_error :
      Host o
      → GovernedExecutionAuditReceipt o
      → GovernedExecutionDispatch
      → GovernedExecutionCoordinatorError
      → Run o
  settle_error h receipt dispatch error = record {
    calls = Call.record_audit receipt ∷ [];
    result = if h.audit_sink receipt then err error else err (Errors.audit_failed dispatch);
  }

  abbrev pub called : Call o → Run o → Run o
  called call run = record run { calls = call ∷ run.calls }

  module _ (h : Host o) (invocation : GovernedExecutionInvocation o) where
    -- A failure before dispatch, audited and returned.
    unfoldable pub refuse :
        GovernedAuthorizationRequest
        → Option GovernedAuthorizationAudit
        → GovernedExecutionAuditOutcome
        → GovernedExecutionTerminalState
        → CredentialExecutionOutcome
        → GovernedExecutionCoordinatorError
        → Run o
    refuse request authorization outcome terminal credential error =
        settle_error h
          (failure_receipt_from_parts invocation (fields_of request) authorization outcome terminal
            credential none)
          not_dispatched error

    unfoldable pub refuse_cancelled :
        GovernedAuthorizationRequest → Option GovernedAuthorizationAudit → Run o
    refuse_cancelled request authorization =
        refuse request authorization GovernedExecutionAuditOutcome.cancelled
          (cancelled_state not_dispatched) CredentialExecutionOutcome.cancelled
          Errors.cancelled_before_dispatch

    unfoldable pub refuse_timed_out :
        GovernedAuthorizationRequest → Option GovernedAuthorizationAudit → Run o
    refuse_timed_out request authorization =
        refuse request authorization GovernedExecutionAuditOutcome.timed_out
          (timed_out_state not_dispatched)
          (failed_with CredentialExecutionFailure.process_timed_out)
          Errors.timed_out_before_dispatch

    -- The checks of the cancellation flag and of the deadline before the next step.
    unfoldable pub unless_stopped :
        Point → GovernedAuthorizationRequest → Option GovernedAuthorizationAudit → Run o → Run o
    unless_stopped point request authorization next =
        if h.cancelled point
        then refuse_cancelled request authorization
        else if leb request.deadline (h.now point)
        then refuse_timed_out request authorization
        else next
