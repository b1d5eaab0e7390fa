-- ===== src/Coordinator/Settling.antt =====
-- The ends of a run of tool-runtime-core/src/governed_execution_coordinator.rs: each audits one
-- receipt, which agrees with the run's result.
use magic_run.Prelude.{
  ◌≡◌, ◌≢◌, ◌⊎◌, inl, inr, refl, true, false, Option, some, [], ◌∷◌, Result, ok, err, arith, leb,
  Bool-cases,
}
use magic_run.Execution.Terminal.{
  GovernedExecutionDispatch, GovernedExecutionTerminalState, not_dispatched,
}
use magic_run.Coordinator.Error.{GovernedExecutionCoordinatorError}
use magic_run.Coordinator.Evidence.{
  GovernedAuthorizationRequest, GovernedAuthorizationEvidence, GovernedAuthorizationDecision,
  authorization_matches,
}
use magic_run.Coordinator.Receipt.{
  Opaque, GovernedExecutionAuditOutcome, CredentialExecutionOutcome, GovernedAuthorizationAudit,
  GovernedExecutionAuditReceipt, GovernedExecutionSettlement, completed,
}
use magic_run.Coordinator.Host.{
  Point, GovernedExecutorMode, Call, GovernedExecutionInvocation, Host,
}
use magic_run.Coordinator.Attempt.{
  ExecutionBundle, Caught, Cells, unwound, unprepared, unmaterialized, unexecuted, executed,
}
use magic_run.Coordinator.Settle.{
  Run, error_outcome, settle_error, failure_receipt_from_parts, refuse, refuse_cancelled,
  refuse_timed_out, unless_stopped,
}
use magic_run.Coordinator.Execute.{audit_execution_error, complete, completion_receipt, finish}

module _ {o : Opaque} where
  -- A settlement holds the receipt that the sink took; an error was audited as a failure, or the
  -- sink did not take the receipt.
  abbrev pub Agrees :
      Host o
      → GovernedExecutionAuditReceipt o
      → Result GovernedExecutionCoordinatorError (GovernedExecutionSettlement o)
      → Type 0
  Agrees h receipt (ok settlement) =
      (settlement.audit ≡ receipt)
      × (h.audit_sink receipt ≡ true)
      × (settlement.result.terminal ≡ receipt.terminal)
  Agrees h receipt (err error) = (receipt.outcome ≢ completed) ⊎ (h.audit_sink receipt ≡ false)

  abbrev pub IsUndispatched :
      Result GovernedExecutionCoordinatorError (GovernedExecutionSettlement o) → Type 0
  IsUndispatched (ok settlement) = ⊥
  IsUndispatched (err error) = error.dispatch ≡ not_dispatched

  -- The authorizer approved this request with evidence that is bound to it.
  abbrev pub Approves : Host o → GovernedAuthorizationRequest → Type 0
  Approves h request =
      (evidence : GovernedAuthorizationEvidence) × (h.authorizer request
        ≡ some (GovernedAuthorizationDecision.approved evidence))
      × (authorization_matches request evidence ≡ true)

  -- A run that ends by auditing one receipt.
  pub record IsSettled (h : Host o) (run : Run o) : Type 0 where
    pub receipt : GovernedExecutionAuditReceipt o
    pub calls : run.calls ≡ Call.record_audit receipt ∷ []
    pub agrees : Agrees h receipt run.result

  -- A refusal before dispatch.
  pub record IsRefused (h : Host o) (run : Run o) : Type 0 where
    pub settled : IsSettled h run
    pub undispatched : IsUndispatched run.result

module _ (o : Opaque) (h : Host o) where
  settle_error-IsSettled :
      (receipt : GovernedExecutionAuditReceipt o) (d : GovernedExecutionDispatch)
      (error : GovernedExecutionCoordinatorError)
      → receipt.outcome ≢ completed
      → IsSettled h (settle_error o h receipt d error)
  unfolding settle_error
  settle_error-IsSettled receipt d error failed = record {
    receipt = receipt;
    calls = refl;
    agrees = elim (Bool-cases (h.audit_sink receipt)) [
      | inl took ↦ rw took (inl failed)
      | inr lost ↦ rw lost (inl failed)
    ];
  }

  settle_error-IsUndispatched :
      (receipt : GovernedExecutionAuditReceipt o) (error : GovernedExecutionCoordinatorError)
      → error.dispatch ≡ not_dispatched
      → IsUndispatched (settle_error o h receipt not_dispatched error).result
  unfolding settle_error
  settle_error-IsUndispatched receipt error e = elim (Bool-cases (h.audit_sink receipt)) [
    | inl took ↦ rw took e
    | inr lost ↦ rw lost
  ]

error_outcome-ne-completed :
    (error : GovernedExecutionCoordinatorError) → error_outcome error ≢ completed
unfolding error_outcome
error_outcome-ne-completed error e = ground arith

module _ (o : Opaque) (h : Host o) (invocation : GovernedExecutionInvocation o)
    (request : GovernedAuthorizationRequest) where
  pub refuse-IsRefused :
      (authorization : Option GovernedAuthorizationAudit) (outcome : GovernedExecutionAuditOutcome)
      (terminal : GovernedExecutionTerminalState) (credential : CredentialExecutionOutcome)
      (error : GovernedExecutionCoordinatorError)
      → outcome ≢ completed
      → error.dispatch ≡ not_dispatched
      → IsRefused h (refuse o h invocation request authorization outcome terminal credential error)
  unfolding refuse failure_receipt_from_parts
  refuse-IsRefused authorization outcome terminal credential error failed before = record {
    settled = settle_error-IsSettled o h _ not_dispatched error failed;
    undispatched = settle_error-IsUndispatched o h _ error before;
  }

  pub refuse_cancelled-IsRefused :
      (authorization : Option GovernedAuthorizationAudit)
      → IsRefused h (refuse_cancelled o h invocation request authorization)
  unfolding refuse_cancelled
  refuse_cancelled-IsRefused authorization = refuse-IsRefused authorization _ _ _ _ (λ e. cc) refl

  pub refuse_timed_out-IsRefused :
      (authorization : Option GovernedAuthorizationAudit)
      → IsRefused h (refuse_timed_out o h invocation request authorization)
  unfolding refuse_timed_out
  refuse_timed_out-IsRefused authorization = refuse-IsRefused authorization _ _ _ _ (λ e. cc) refl

  -- A check that stops leads to a refusal, and else the next step decides.
  pub unless_stopped-induction :
      (P : Run o → Type 0) (point : Point) (authorization : Option GovernedAuthorizationAudit)
      (next : Run o)
      → ((run : Run o) → IsRefused h run → P run)
      → P next
      → P (unless_stopped o h invocation point request authorization next)
  unfolding unless_stopped
  unless_stopped-induction P point authorization next refusal going =
      elim (Bool-cases (h.cancelled point)) [
        | inl c ↦ rw c (refusal _ (refuse_cancelled-IsRefused authorization))
        | inr c ↦ elim (Bool-cases (leb request.deadline (h.now point))) [
          | inl t ↦ rw (c, t) (refusal _ (refuse_timed_out-IsRefused authorization))
          | inr t ↦ rw (c, t) going
        ]
      ]

module _ (o : Opaque) (h : Host o) (mode : GovernedExecutorMode o)
    (invocation : GovernedExecutionInvocation o) (request : GovernedAuthorizationRequest) where
  complete-IsSettled :
      (authorization : GovernedAuthorizationAudit) (bundle : ExecutionBundle o)
      → IsSettled h (complete o h mode invocation request authorization bundle)
  unfolding complete completion_receipt
  complete-IsSettled authorization bundle = record {
    receipt = completion_receipt o h mode invocation request authorization bundle;
    calls = refl;
    agrees =
        elim (Bool-cases
          (h.audit_sink (completion_receipt o h mode invocation request authorization bundle))) [
            | inl took ↦ rw took (refl, took, refl)
            | inr lost ↦ rw lost (inr lost)
          ];
  }

  audit_execution_error-IsSettled :
      (authorization : GovernedAuthorizationAudit) (cells : Cells)
      (error : GovernedExecutionCoordinatorError)
      → IsSettled h (audit_execution_error o h mode invocation request authorization cells error)
  unfolding audit_execution_error
  audit_execution_error-IsSettled authorization cells error =
      settle_error-IsSettled o h _ error.dispatch error (error_outcome-ne-completed error)

  pub finish-IsSettled :
      (authorization : GovernedAuthorizationAudit) (cells : Cells) (caught : Caught o)
      → IsSettled h (finish o h mode invocation request authorization cells caught)
  unfolding finish
  finish-IsSettled authorization cells (executed bundle) = complete-IsSettled authorization bundle
  finish-IsSettled authorization cells (unexecuted error) =
      audit_execution_error-IsSettled authorization cells error
  finish-IsSettled authorization cells unmaterialized =
      audit_execution_error-IsSettled authorization cells _
  finish-IsSettled authorization cells unprepared =
      audit_execution_error-IsSettled authorization cells _
  finish-IsSettled authorization cells unwound =
      audit_execution_error-IsSettled authorization cells _
