-- ===== src/Coordinator/Answered.antt =====
-- What follows the authorizer in tool-runtime-core/src/governed_execution_coordinator.rs.
use magic_run.Prelude.{
  ◌≡◌, inl, inr, refl, ap, Bool, true, false, ◌||◌, Option, none, some, List, [], ◌∷◌, leb,
  Bool-cases, if_induction,
}
use magic_run.Execution.Terminal.{launch_rejected_state}
use magic_run.Coordinator.Errors
use magic_run.Coordinator.Evidence.{
  GovernedAuthorizationRequest, GovernedAuthorizationDecision, authorization_matches,
}
use magic_run.Coordinator.Receipt.{
  Opaque, GovernedExecutionAuditOutcome, CredentialExecutionFailure, GovernedAuthorizationAudit,
  GovernedExecutionAuditReceipt, authorization_audit,
}
use magic_run.Coordinator.Host.{
  Point, GovernedExecutorMode, Call, GovernedExecutionInvocation, Host,
}
use magic_run.Coordinator.Attempt.{attempt}
use magic_run.Coordinator.Settle.{Run, refuse, failed_with}
use magic_run.Coordinator.Execute.{credential_stage, profile_stage, decision_stage}
use magic_run.Coordinator.Settling.{
  Agrees, Approves, IsRefused, refuse-IsRefused, refuse_cancelled-IsRefused,
  refuse_timed_out-IsRefused, unless_stopped-induction, finish-IsSettled,
}

module _ (o : Opaque) (h : Host o) (mode : GovernedExecutorMode o)
    (invocation : GovernedExecutionInvocation o) (request : GovernedAuthorizationRequest) where
  -- What follows the authorizer's call.
  pub data IsAnswered (run : Run o) : Type 0 where
    denied : IsRefused h run → IsAnswered run
    resolving :
        (receipt : GovernedExecutionAuditReceipt o)
        → Approves h request
        → run.calls ≡ Call.resolve ∷ Call.record_audit receipt ∷ []
        → Agrees h receipt run.result
        → IsAnswered run
    launching :
        (receipt : GovernedExecutionAuditReceipt o)
        → Approves h request
        → run.calls ≡ Call.resolve ∷ Call.launch ∷ Call.record_audit receipt ∷ []
        → Agrees h receipt run.result
        → IsAnswered run

  credential_stage-IsAnswered :
      (authorization : GovernedAuthorizationAudit)
      → Approves h request
      → IsAnswered (credential_stage o h mode invocation request authorization)
  unfolding credential_stage
  credential_stage-IsAnswered authorization approves =
      let a = attempt o request.deadline h mode invocation.intent in
      let f = finish-IsSettled o h mode invocation request authorization a.cells a.caught in
      elim (Bool-cases a.launched) [
        | inl was ↦ rw was (
            launching f.receipt approves
              (ap (λ (l : List (Call o)). Call.resolve ∷ Call.launch ∷ l) f.calls) f.agrees)
        | inr not_yet ↦ rw not_yet (
            resolving f.receipt approves (ap (λ (l : List (Call o)). Call.resolve ∷ l) f.calls)
              f.agrees)
      ]

  profile_stage-IsAnswered :
      (authorization : GovernedAuthorizationAudit) (profile : Option Bool)
      → Approves h request
      → IsAnswered (profile_stage o h mode invocation request authorization profile)
  unfolding profile_stage
  profile_stage-IsAnswered authorization profile approves =
      if_induction IsAnswered
        (h.cancelled Point.after_profile || leb request.deadline (h.now Point.after_profile))
        (λ _.
          if_induction IsAnswered (h.cancelled Point.after_profile_again)
            (λ _. denied (refuse_cancelled-IsRefused o h invocation request (some authorization)))
            (λ _. denied (refuse_timed_out-IsRefused o h invocation request (some authorization))))
        (λ _. by_profile profile)
    where
      by_profile :
          (p : Option Bool)
          → IsAnswered (elim p [
            | some false ↦
                refuse o h invocation request
                  (some authorization)
                  GovernedExecutionAuditOutcome.preparation_failed
                  launch_rejected_state
                  (failed_with CredentialExecutionFailure.scoped_path_unavailable)
                  Errors.profile_authority_unavailable
            | _ ↦ credential_stage o h mode invocation request authorization
          ])
      by_profile none = credential_stage-IsAnswered authorization approves
      by_profile (some true) = credential_stage-IsAnswered authorization approves
      by_profile (some false) =
          denied
            (refuse-IsRefused o h invocation request (some authorization) _ _ _ _ (λ e. cc) refl)

  pub decision_stage-IsAnswered :
      (decision : Option GovernedAuthorizationDecision)
      → h.authorizer request ≡ decision
      → IsAnswered (decision_stage o h mode invocation request decision)
  unfolding decision_stage
  decision_stage-IsAnswered none e =
      denied (refuse-IsRefused o h invocation request none _ _ _ _ (λ q. cc) refl)
  decision_stage-IsAnswered (some GovernedAuthorizationDecision.denied) e =
      denied (refuse-IsRefused o h invocation request none _ _ _ _ (λ q. cc) refl)
  decision_stage-IsAnswered (some GovernedAuthorizationDecision.approval_required) e =
      denied (refuse-IsRefused o h invocation request none _ _ _ _ (λ q. cc) refl)
  decision_stage-IsAnswered (some GovernedAuthorizationDecision.unavailable) e =
      denied (refuse-IsRefused o h invocation request none _ _ _ _ (λ q. cc) refl)
  decision_stage-IsAnswered (some (GovernedAuthorizationDecision.approved evidence)) e =
      if_induction IsAnswered (authorization_matches request evidence)
        (λ bound.
          unless_stopped-induction o h invocation request IsAnswered Point.after_evidence
            (some (authorization_audit evidence)) _ (λ run. denied)
            (profile_stage-IsAnswered (authorization_audit evidence) h.profile_authority
              (evidence, e, bound)))
        (λ _. denied (refuse-IsRefused o h invocation request none _ _ _ _ (λ q. cc) refl))
