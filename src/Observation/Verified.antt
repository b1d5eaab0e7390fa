-- ===== src/Observation/Verified.antt =====
-- What an execution-ready result of tool-runtime-core/src/credential_lifecycle_observation.rs has
-- been read from.
use magic_run.Prelude.{
  ℕ, ◌≡◌, ◌⊎◌, inl, inr, refl, sym, ap, subst, true, false, ◌&&◌, Option, some, List, [], ◌∷◌, Text,
  ok, ok_or, arith, keep, holds, holds→, holds_refl, ok-injective, bind_inversion, ok_or_inversion,
  guard_bind, ◌∙◌, Bool-cases,
}
use magic_run.Prelude.Finding.{In, In-keep, keep-In}
use magic_run.Manifest.Auth.{
  AuthState, LifecycleObservedAuthState, LifecycleStatusRule, LifecycleStatusObservation,
}
use magic_run.Manifest.Equality.{LifecycleObservedAuthState-discrete}
use magic_run.Manifest.Observed.{Lists}
use magic_run.Credentials.Plans.{
  CredentialLifecycleOperation, CredentialLifecyclePlan, Operation-discrete,
}
use magic_run.Observation.Errors.{wrong_operation, missing_status_contract}
use magic_run.Observation.Value.{Value}
use magic_run.Observation.Status.{CredentialLifecycleStatusResult, is_execution_ready}
use magic_run.Observation.Command.{
  CredentialLifecycleTermination, CredentialLifecycleCommandObservation,
}
use magic_run.Observation.Predicates.{max_lifecycle_status_evaluation_work}
use magic_run.Observation.Evaluate.{
  lists, auth_state, exit_code_of, payload_of, projected, rules_match, evaluate_lifecycle_status,
}
use magic_run.Observation.Rules.{fires, Has, Gathers, rules_match-Gathers}
use magic_run.Observation.Identity.{IsVerified, verify_identity-IsVerified}

projected-one :
    (states : List LifecycleObservedAuthState) (state : LifecycleObservedAuthState)
    → projected states ≡ ok state
    → states ≡ state ∷ []
unfolding projected
projected-one [] state e = cc
projected-one (s ∷ []) state e = ap (λ x. x ∷ []) (ok-injective e)
projected-one (s ∷ t ∷ states) state e = cc

exit_code_of-exited :
    (termination : CredentialLifecycleTermination) (code : ℕ)
    → exit_code_of termination ≡ ok code
    → termination ≡ CredentialLifecycleTermination.exited code
unfolding exit_code_of
exit_code_of-exited (CredentialLifecycleTermination.exited c) code e =
    ap CredentialLifecycleTermination.exited (ok-injective e)
exit_code_of-exited CredentialLifecycleTermination.signaled code e = cc
exit_code_of-exited CredentialLifecycleTermination.timed_out code e = cc
exit_code_of-exited CredentialLifecycleTermination.cancelled code e = cc
exit_code_of-exited CredentialLifecycleTermination.spawn_failed code e = cc

auth_state-ready :
    (state : LifecycleObservedAuthState)
    → auth_state state ≡ AuthState.ready
    → state ≡ LifecycleObservedAuthState.ready
auth_state-ready LifecycleObservedAuthState.missing e = cc
auth_state-ready LifecycleObservedAuthState.interaction_required e = cc
auth_state-ready LifecycleObservedAuthState.ready e = refl
auth_state-ready LifecycleObservedAuthState.expired e = cc
auth_state-ready LifecycleObservedAuthState.revoked e = cc
auth_state-ready LifecycleObservedAuthState.denied e = cc
auth_state-ready LifecycleObservedAuthState.error e = cc

module _ (pointer : Value → Text → Option Value) where
  -- The rules that list an exit code and hold of the output agree that the profile is ready.
  pub record AgreeReady (rules : List LifecycleStatusRule) (code : ℕ) (payload : Option Value)
      : Type 0 where
    pub witness : LifecycleStatusRule
    pub listed : In rules witness
    pub for_code : Lists witness code
    pub fired : fires pointer payload witness ≡ true
    pub all_ready :
        (rule : LifecycleStatusRule)
        → In rules rule
        → Lists rule code
        → fires pointer payload rule ≡ true
        → rule.state ≡ LifecycleObservedAuthState.ready

  only_one :
      (states : List LifecycleObservedAuthState) (first state : LifecycleObservedAuthState)
      → states ≡ first ∷ []
      → Has states state
      → state ≡ first
  only_one states first state one has =
      by_test (subst (λ l. Has l state) one has)
        (Bool-cases (holds (LifecycleObservedAuthState-discrete first state)))
    where
      by_test :
          Has (first ∷ []) state
          → (holds (LifecycleObservedAuthState-discrete first state) ≡ true)
            ⊎ (holds (LifecycleObservedAuthState-discrete first state) ≡ false)
          → state ≡ first
      by_test h (inl e) = sym (holds→ (LifecycleObservedAuthState-discrete first state) e)
      by_test h (inr e) = absurd (ground arith)

  projected-AgreeReady :
      (rules : List LifecycleStatusRule) (code : ℕ) (payload : Option Value)
      (states : List LifecycleObservedAuthState)
      → Gathers pointer (keep (lists code) rules) payload [] states
      → projected states ≡ ok LifecycleObservedAuthState.ready
      → AgreeReady rules code payload
  projected-AgreeReady rules code payload states gathered e =
      let one = projected-one states LifecycleObservedAuthState.ready e in
      let found : Has states LifecycleObservedAuthState.ready =
        subst (λ l. Has l LifecycleObservedAuthState.ready) (sym one)
          (alone LifecycleObservedAuthState.ready) in
      elim (gathered.only LifecycleObservedAuthState.ready found) [
        | inl before ↦ absurd cc
        | inr (rule, place, fired, ready) ↦
            let (listed, for_code) = keep-In (lists code) rules place in
            record {
              witness = rule;
              listed = listed;
              for_code = for_code;
              fired = fired;
              all_ready = λ other place' for_code' fired'.
                  only_one states LifecycleObservedAuthState.ready other.state one
                    (gathered.added other (In-keep (lists code) rules place' for_code') fired');
            }
      ]
    where
      alone : (state : LifecycleObservedAuthState) → Has (state ∷ []) state
      alone state = let same = holds_refl LifecycleObservedAuthState-discrete state in ground arith

module _ (pointer : Value → Text → Option Value) (parse : List ℕ → Option Value) where
  -- A run of the status command that shows that the profile is ready.
  pub record IsReadyRun (plan : CredentialLifecyclePlan)
      (observation : CredentialLifecycleCommandObservation) : Type 0 where
    pub planned : plan.operation ≡ CredentialLifecycleOperation.status
    pub observed : observation.operation ≡ CredentialLifecycleOperation.status
    pub contract : LifecycleStatusObservation
    pub declared : plan.status_observation ≡ some contract
    pub code : ℕ
    pub exited : observation.termination ≡ CredentialLifecycleTermination.exited code
    pub payload : Option Value
    pub output : payload_of parse contract.format observation.stdout ≡ ok payload
    pub agreed : AgreeReady pointer contract.rules code payload
    pub verified : IsVerified pointer plan payload plan.identity_contract

  -- An execution-ready result stands for a status run of a status plan whose process ended with an
  -- exit code: some rule of the observation contract lists that code, holds of the output and
  -- reports readiness, every rule that lists it and holds does so too, and where the profile names
  -- the identity, the output's text at the selector equals the expected one, or equals it in lower
  -- case where the selector says so.
  pub evaluate_lifecycle_status-IsReadyRun :
      (plan : CredentialLifecyclePlan) (observation : CredentialLifecycleCommandObservation)
      (result : CredentialLifecycleStatusResult)
      → evaluate_lifecycle_status pointer parse plan observation ≡ ok result
      → is_execution_ready result ≡ true
      → IsReadyRun plan observation
  unfolding evaluate_lifecycle_status
  evaluate_lifecycle_status-IsReadyRun plan observation result e ready =
      let (both, e) =
        guard_bind
          (holds (Operation-discrete plan.operation CredentialLifecycleOperation.status)
            && holds (Operation-discrete observation.operation CredentialLifecycleOperation.status))
          wrong_operation _ e in
      let (contract, declared, e) =
        bind_inversion (ok_or plan.status_observation missing_status_contract) _ e in
      let (code, exited, e) = bind_inversion (exit_code_of observation.termination) _ e in
      let (payload, output, e) =
        bind_inversion (payload_of parse contract.format observation.stdout) _ e in
      let (states, run, e) =
        bind_inversion
          (rules_match pointer (keep (lists code) contract.rules) payload []
            max_lifecycle_status_evaluation_work)
          _ e in
      let (state, one, e) = bind_inversion (projected states) _ e in
      let (is_ready, verified) =
        verify_identity-IsVerified pointer plan (auth_state state) payload result e ready in
      let state_ready = auth_state-ready state is_ready in
      record {
        planned = holds→ (Operation-discrete plan.operation _) (ground arith);
        observed = holds→ (Operation-discrete observation.operation _) (ground arith);
        contract = contract;
        declared = ok_or_inversion plan.status_observation missing_status_contract declared;
        code = code;
        exited = exit_code_of-exited observation.termination code exited;
        payload = payload;
        output = output;
        agreed =
            projected-AgreeReady pointer contract.rules code payload states
              (rules_match-Gathers pointer payload (keep (lists code) contract.rules) [] states
                max_lifecycle_status_evaluation_work run)
              (one ∙ ap ok state_ready);
        verified = verified;
      }
