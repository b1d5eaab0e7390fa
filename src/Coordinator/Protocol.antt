-- ===== src/Coordinator/Protocol.antt =====
-- The order of the calls that `execute` of
-- tool-runtime-core/src/governed_execution_coordinator.rs makes.
use magic_run.Prelude.{
  ℕ, ◌≡◌, ◌⊎◌, inl, inr, refl, ap, Bool, true, false, Option, none, some, List, [], ◌∷◌,
  if_induction,
}
use magic_run.Coordinator.Evidence.{GovernedAuthorizationRequest}
use magic_run.Coordinator.Receipt.{Opaque, GovernedExecutionAuditReceipt}
use magic_run.Coordinator.Host.{
  Point, GovernedExecutorMode, Call, RequestDigests, GovernedExecutionInvocation, Host, matches,
  wall_seconds_ceiling,
}
use magic_run.Coordinator.Settle.{Run, called}
use magic_run.Coordinator.Execute.{
  admitted_run, wall_seconds, digest_stage, deadline_stage, execute,
}
use magic_run.Coordinator.Settling.{
  Agrees, IsUndispatched, Approves, IsRefused, refuse-IsRefused, unless_stopped-induction,
}
use magic_run.Coordinator.Answered.{IsAnswered, decision_stage-IsAnswered}

module _ {o : Opaque} where
  -- The shapes of a run.
  pub data IsProtocol (h : Host o) (run : Run o) : Type 0 where
    refused :
        (receipt : GovernedExecutionAuditReceipt o)
        → run.calls ≡ Call.record_audit receipt ∷ []
        → Agrees h receipt run.result
        → IsUndispatched run.result
        → IsProtocol h run
    asked :
        (request : GovernedAuthorizationRequest) (receipt : GovernedExecutionAuditReceipt o)
        → run.calls ≡ Call.authorize request ∷ Call.record_audit receipt ∷ []
        → Agrees h receipt run.result
        → IsUndispatched run.result
        → IsProtocol h run
    resolved :
        (request : GovernedAuthorizationRequest) (receipt : GovernedExecutionAuditReceipt o)
        → Approves h request
        → run.calls ≡ Call.authorize request ∷ Call.resolve ∷ Call.record_audit receipt ∷ []
        → Agrees h receipt run.result
        → IsProtocol h run
    launched :
        (request : GovernedAuthorizationRequest) (receipt : GovernedExecutionAuditReceipt o)
        → Approves h request
        → run.calls
          ≡ Call.authorize request ∷ Call.resolve ∷ Call.launch ∷ Call.record_audit receipt ∷ []
        → Agrees h receipt run.result
        → IsProtocol h run

module _ (o : Opaque) (h : Host o) (mode : GovernedExecutorMode o)
    (invocation : GovernedExecutionInvocation o) (request : GovernedAuthorizationRequest) where
  refused-IsProtocol : (run : Run o) → IsRefused h run → IsProtocol h run
  refused-IsProtocol run r =
      refused r.settled.receipt r.settled.calls r.settled.agrees r.undispatched

  answered-IsProtocol :
      (run : Run o)
      → IsAnswered o h mode invocation request run
      → IsProtocol h (called o (Call.authorize request) run)
  answered-IsProtocol run (IsAnswered.denied r) =
      asked request r.settled.receipt
        (ap (λ (l : List (Call o)). Call.authorize request ∷ l) r.settled.calls) r.settled.agrees
        r.undispatched
  answered-IsProtocol run (IsAnswered.resolving receipt approves calls agrees) =
      resolved request receipt approves
        (ap (λ (l : List (Call o)). Call.authorize request ∷ l) calls) agrees
  answered-IsProtocol run (IsAnswered.launching receipt approves calls agrees) =
      launched request receipt approves
        (ap (λ (l : List (Call o)). Call.authorize request ∷ l) calls) agrees

  admitted_run-IsProtocol : IsProtocol h (admitted_run o h mode invocation request)
  unfolding admitted_run
  admitted_run-IsProtocol =
      unless_stopped-induction o h invocation request (IsProtocol h) Point.entry none _
        refused-IsProtocol
        (if_induction (IsProtocol h) (matches o mode invocation.intent.interaction)
          (λ _. answered-IsProtocol _ (
            unless_stopped-induction o h invocation request (IsAnswered o h mode invocation request)
              Point.after_authorization none _ (λ run. IsAnswered.denied)
              (decision_stage-IsAnswered o h mode invocation request (h.authorizer request) refl)))
          (λ _.
            refused-IsProtocol _
              (refuse-IsRefused o h invocation request none _ _ _ _ (λ q. cc) refl)))

abbrev pub deadline_of :
    (o : Opaque) → Host o → GovernedExecutorMode o → GovernedExecutionInvocation o → Option ℕ
deadline_of o h mode invocation =
    h.checked_add (h.now Point.start)
      (wall_seconds o invocation.intent.timeout_secs (wall_seconds_ceiling o mode))

-- The three ways in which a run ends before it has a request.
abbrev pub IsUnbuilt :
    (o : Opaque) → Host o → GovernedExecutorMode o → GovernedExecutionInvocation o → Bool → Type 0
IsUnbuilt o h mode invocation active =
    (active ≡ true) ⊎ (deadline_of o h mode invocation ≡ none) ⊎ (h.digests ≡ none)

abbrev pub IsSilent : (o : Opaque) → Run o → Type 0
IsSilent o run = (run.calls ≡ []) × IsUndispatched run.result

-- Whatever the host, the mode and the invocation: a run that has no request, since it is nested
-- in another, its deadline overflows or a serializer fails, makes no call, so not even an audit, and
-- dispatches nothing. Every other run ends with its only audit. If it resolves credentials or
-- launches a process, it has first called the authorizer, which approved that same request with
-- evidence that matches it; otherwise it fails and has dispatched nothing. A settlement holds the
-- receipt that the sink took; a run that fails was not audited as completed, unless the sink refused
-- the receipt.
pub execute-IsProtocol :
    (o : Opaque) (h : Host o) (mode : GovernedExecutorMode o)
    (invocation : GovernedExecutionInvocation o) (active : Bool)
    → (IsUnbuilt o h mode invocation active × IsSilent o (execute o h mode invocation active).0)
      ⊎ ((IsUnbuilt o h mode invocation active → ⊥)
          × IsProtocol h (execute o h mode invocation active).0)
unfolding execute
execute-IsProtocol o h mode invocation true = inl (inl refl, (refl, refl))
execute-IsProtocol o h mode invocation false = by_deadline _ refl
  where
    has_request :
        (deadline : ℕ) (digests : RequestDigests)
        → deadline_of o h mode invocation ≡ some deadline
        → h.digests ≡ some digests
        → IsUnbuilt o h mode invocation false
        → ⊥
    has_request deadline digests d e (inl nested) = cc
    has_request deadline digests d e (inr (inl overflow)) = cc
    has_request deadline digests d e (inr (inr unserialized)) = cc

    by_digests :
        (deadline : ℕ) (digests : Option RequestDigests)
        → deadline_of o h mode invocation ≡ some deadline
        → h.digests ≡ digests
        → (IsUnbuilt o h mode invocation false
            × IsSilent o (digest_stage o h mode invocation deadline digests))
          ⊎ ((IsUnbuilt o h mode invocation false → ⊥)
              × IsProtocol h (digest_stage o h mode invocation deadline digests))
    by_digests deadline none d e = inl (inr (inr e), (refl, refl))
    by_digests deadline (some digests) d e =
        inr (has_request deadline digests d e, admitted_run-IsProtocol o h mode invocation _)

    by_deadline :
        (deadline : Option ℕ)
        → deadline_of o h mode invocation ≡ deadline
        → (IsUnbuilt o h mode invocation false
            × IsSilent o (deadline_stage o h mode invocation deadline))
          ⊎ ((IsUnbuilt o h mode invocation false → ⊥)
              × IsProtocol h (deadline_stage o h mode invocation deadline))
    by_deadline none e = inl (inr (inl e), (refl, refl))
    by_deadline (some deadline) e = by_digests deadline h.digests e refl
