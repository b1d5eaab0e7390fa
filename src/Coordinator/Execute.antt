-- ===== src/Coordinator/Execute.antt =====
-- `execute` of tool-runtime-core/src/governed_execution_coordinator.rs.
use magic_run.Prelude.{
  ℕ, Bool, true, false, ◌&&◌, ◌||◌, Option, none, some, [], ◌∷◌, ok, err, leb, min, holds,
  if◌then◌else◌,
}
use magic_run.Execution.Terminal.{not_dispatched, launch_rejected_state, Dispatch-discrete}
use magic_run.Coordinator.Error.{GovernedExecutionCoordinatorError}
use magic_run.Coordinator.Errors
use magic_run.Coordinator.Evidence.{
  GovernedAuthorizationRequest, GovernedAuthorizationDecision, authorization_matches,
}
use magic_run.Coordinator.Receipt.{
  Opaque, GovernedExecutionAuditOutcome, CredentialExecutionFailure, GovernedAuthorizationAudit,
  GovernedExecutionAuditReceipt, authorization_audit, fields_of, credential_outcome_for_terminal,
  audit_outcome_for_terminal, governed_execution_coordinator_v1,
}
use magic_run.Coordinator.Host.{
  Point, GovernedExecutorMode, Call, RequestDigests, GovernedExecutionInvocation, Host, matches,
  wall_seconds_ceiling, jail_audit,
}
use magic_run.Coordinator.Attempt.{
  ExecutionBundle, Caught, Cells, unwound, unprepared, unmaterialized, unexecuted, executed,
  attempt,
}
use magic_run.Coordinator.Settle.{
  Run, failed_with, error_terminal, error_outcome, settle_error, called, refuse, refuse_cancelled,
  refuse_timed_out, unless_stopped,
}

module _ (o : Opaque) where
  module _ (h : Host o) (mode : GovernedExecutorMode o) (invocation : GovernedExecutionInvocation o)
      (request : GovernedAuthorizationRequest) where
    error_receipt :
        GovernedAuthorizationAudit
        → Cells
        → GovernedExecutionCoordinatorError
        → GovernedExecutionAuditReceipt o
    error_receipt authorization cells error =
        let terminal = error_terminal error cells.terminal in
        record {
          schema_version = governed_execution_coordinator_v1;
          context = invocation.context;
          fields = fields_of request;
          authorization = some authorization;
          outcome = error_outcome error;
          terminal = terminal;
          credential = record {
            call_id = invocation.context.call_id;
            plan = invocation.injection;
            outcome = credential_outcome_for_terminal terminal;
          };
          executable = cells.provenance;
          jail = jail_audit o mode;
          artifacts = none;
        }

    unfoldable pub audit_execution_error :
        GovernedAuthorizationAudit → Cells → GovernedExecutionCoordinatorError → Run o
    unfolding error_receipt
    audit_execution_error authorization cells error =
        settle_error o h (error_receipt authorization cells error) error.dispatch error

    unfoldable pub completion_receipt :
        GovernedAuthorizationAudit → ExecutionBundle o → GovernedExecutionAuditReceipt o
    completion_receipt authorization bundle = record {
      schema_version = governed_execution_coordinator_v1;
      context = invocation.context;
      fields = fields_of request;
      authorization = some authorization;
      outcome = audit_outcome_for_terminal bundle.result.terminal;
      terminal = bundle.result.terminal;
      credential = record {
        call_id = invocation.context.call_id;
        plan = invocation.injection;
        outcome = credential_outcome_for_terminal bundle.result.terminal;
      };
      executable = some bundle.provenance;
      jail = jail_audit o mode;
      artifacts = some bundle.result.artifact_metadata;
    }

    unfoldable pub complete : GovernedAuthorizationAudit → ExecutionBundle o → Run o
    complete authorization bundle =
        let receipt = completion_receipt authorization bundle in
        record {
          calls = Call.record_audit receipt ∷ [];
          result =
              if h.audit_sink receipt
              then ok (record { result = bundle.result; audit = receipt })
              else err (Errors.audit_failed bundle.result.terminal.dispatch);
        }

    -- The errors of the failures around the consumer.
    unfoldable pub unmaterialized_error : Cells → GovernedExecutionCoordinatorError
    unmaterialized_error cells =
        if holds (Dispatch-discrete cells.dispatch not_dispatched)
          && leb request.deadline (h.now Point.at_failure)
        then Errors.timed_out_before_dispatch
        else Errors.credential_materialization_failed cells.dispatch

    unfoldable pub unprepared_error : GovernedExecutionCoordinatorError
    unprepared_error =
        if leb request.deadline (h.now Point.at_failure)
        then Errors.timed_out_before_dispatch
        else Errors.credential_preparation_failed

    unfoldable pub finish : GovernedAuthorizationAudit → Cells → Caught o → Run o
    finish authorization cells (executed bundle) = complete authorization bundle
    finish authorization cells (unexecuted error) = audit_execution_error authorization cells error
    finish authorization cells unmaterialized =
        audit_execution_error authorization cells (unmaterialized_error cells)
    finish authorization cells unprepared =
        audit_execution_error authorization cells unprepared_error
    finish authorization cells unwound =
        audit_execution_error authorization cells (Errors.internal_failure cells.dispatch)

    abbrev launching : Bool → Run o → Run o
    launching true run = called o Call.launch run
    launching false run = run

    unfoldable pub credential_stage : GovernedAuthorizationAudit → Run o
    credential_stage authorization =
        let a = attempt o request.deadline h mode invocation.intent in
        called o Call.resolve (launching a.launched (finish authorization a.cells a.caught))

    unfoldable pub profile_stage : GovernedAuthorizationAudit → Option Bool → Run o
    profile_stage authorization profile =
        if h.cancelled Point.after_profile || leb request.deadline (h.now Point.after_profile)
        then (if h.cancelled Point.after_profile_again
            then refuse_cancelled o h invocation request (some authorization)
            else refuse_timed_out o h invocation request (some authorization))
        else elim profile [
          | some false ↦
              refuse o h invocation request (some authorization)
                GovernedExecutionAuditOutcome.preparation_failed launch_rejected_state
                (failed_with CredentialExecutionFailure.scoped_path_unavailable)
                Errors.profile_authority_unavailable
          | _ ↦ credential_stage authorization
        ]

    refuse_authorization :
        GovernedExecutionAuditOutcome
        → GovernedExecutionCoordinatorError
        → CredentialExecutionFailure
        → Run o
    refuse_authorization outcome error failure =
        refuse o h invocation request none outcome launch_rejected_state (failed_with failure) error

    unfoldable pub decision_stage : Option GovernedAuthorizationDecision → Run o
    unfolding refuse_authorization
    decision_stage (some (GovernedAuthorizationDecision.approved evidence)) =
        if authorization_matches request evidence
        then unless_stopped o h invocation Point.after_evidence request
            (some (authorization_audit evidence))
            (profile_stage (authorization_audit evidence) h.profile_authority)
        else refuse_authorization GovernedExecutionAuditOutcome.authorization_denied
            Errors.invalid_authorization_evidence CredentialExecutionFailure.authorization_denied
    decision_stage (some GovernedAuthorizationDecision.denied) =
        refuse_authorization GovernedExecutionAuditOutcome.authorization_denied
          Errors.authorization_denied CredentialExecutionFailure.authorization_denied
    decision_stage (some GovernedAuthorizationDecision.approval_required) =
        refuse_authorization GovernedExecutionAuditOutcome.approval_required
          Errors.approval_required CredentialExecutionFailure.approval_denied
    decision_stage (some GovernedAuthorizationDecision.unavailable) =
        refuse_authorization GovernedExecutionAuditOutcome.authorization_unavailable
          Errors.authorization_unavailable CredentialExecutionFailure.authorization_denied
    decision_stage none =
        refuse_authorization GovernedExecutionAuditOutcome.authorization_unavailable
          Errors.authorization_unavailable CredentialExecutionFailure.authorization_denied

    -- The part of `execute` that has a request.
    unfoldable pub admitted_run : Run o
    admitted_run = unless_stopped o h invocation Point.entry request none (
        if matches o mode invocation.intent.interaction
        then called o (Call.authorize request) (
            unless_stopped o h invocation Point.after_authorization request none
              (decision_stage (h.authorizer request)))
        else refuse o h invocation request none GovernedExecutionAuditOutcome.preparation_failed
            launch_rejected_state (failed_with CredentialExecutionFailure.internal)
            Errors.contract_mismatch)

  unfoldable pub wall_seconds : ℕ → Option ℕ → ℕ
  wall_seconds timeout none = timeout
  wall_seconds timeout (some ceiling) = min timeout ceiling

  unfoldable pub request_of :
      GovernedExecutionInvocation o → RequestDigests → ℕ → GovernedAuthorizationRequest
  request_of invocation digests deadline = record {
    context = invocation.context;
    policy_floor = invocation.policy_floor;
    request_digest = digests.request_digest;
    contract_digest = digests.contract_digest;
    credential_plan_digest = digests.credential_plan_digest;
    stdin_digest = digests.stdin_digest;
    deadline = deadline;
  }

  abbrev pub unaudited : GovernedExecutionCoordinatorError → Run o
  unaudited error = record { calls = []; result = err error }

  module _ (h : Host o) (mode : GovernedExecutorMode o)
      (invocation : GovernedExecutionInvocation o) where
    unfoldable pub digest_stage : ℕ → Option RequestDigests → Run o
    digest_stage deadline none = unaudited Errors.contract_mismatch
    digest_stage deadline (some digests) =
        admitted_run h mode invocation (request_of invocation digests deadline)

    unfoldable pub deadline_stage : Option ℕ → Run o
    deadline_stage none = unaudited (Errors.internal_failure not_dispatched)
    deadline_stage (some deadline) = digest_stage deadline h.digests

    -- With the flag of the thread's running execution, before and after.
    unfoldable pub execute : Bool → Run o × Bool
    unfolding deadline_stage digest_stage
    execute true = (unaudited Errors.reentrant_execution, true)
    execute false = (
      deadline_stage (
          h.checked_add (h.now Point.start)
            (wall_seconds invocation.intent.timeout_secs (wall_seconds_ceiling o mode))),
      false,
    )
