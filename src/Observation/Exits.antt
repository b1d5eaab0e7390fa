-- ===== src/Observation/Exits.antt =====
-- Status observations by exit code: manifest validation and
-- tool-runtime-core/src/credential_lifecycle_observation.rs together.
use magic_run.Prelude.{
  ℕ, ◌≡◌, ◌∙◌, refl, sym, ap, subst, false, Option, none, some, List, [], ◌∷◌, Text, ok, err, ◌>>=◌,
  arith, keep, find, holds, holds→, →holds, Bool-cases, inl, inr,
}
use magic_run.Prelude.Finding.{to_list, keep-find}
use magic_run.Manifest.Auth.{
  AuthState, IdentityContract, LifecycleObservedAuthState, LifecycleStatusOutputFormat,
  LifecycleStatusRule, LifecycleStatusObservation,
}
use magic_run.Manifest.Equality.{AuthState-discrete}
use magic_run.Manifest.Lifecycles.{expects_profile, validate_lifecycle_status_observation}
use magic_run.Credentials.Plans.{
  CredentialLifecycleOperation, CredentialLifecyclePlan, Operation-discrete,
}
use magic_run.Observation.Errors.{unmapped_status}
use magic_run.Observation.Value.{Value}
use magic_run.Observation.Status.{CredentialLifecycleStatusResult, CredentialIdentityVerification}
use magic_run.Observation.Command.{
  CredentialLifecycleTermination, CredentialLifecycleCommandObservation,
}
use magic_run.Observation.Predicates.{
  Evaluated, max_lifecycle_status_evaluation_work, consume, predicates_match,
}
use magic_run.Observation.Evaluate.{
  lists, auth_state, status_result, expected_identity_of, exit_code_of, payload_of, projected,
  rules_match, verify_ready, verify_identity, evaluate_lifecycle_status,
}
use magic_run.Observation.ByCode.{IsBare, unprofiled, excluded, found-IsBare}

-- The answer that the rule for an exit code gives, if there is one.
abbrev pub Answers : Option LifecycleStatusRule → Evaluated CredentialLifecycleStatusResult → Type 0
Answers none outcome = outcome ≡ err unmapped_status
Answers (some rule) outcome =
    (result : CredentialLifecycleStatusResult) × (outcome ≡ ok result)
    × (result.state ≡ auth_state rule.state)

abbrev states_of : Option LifecycleStatusRule → List LifecycleObservedAuthState
states_of none = []
states_of (some rule) = rule.state ∷ []

module _ (pointer : Value → Text → Option Value) where
  -- What follows the loop over the rules.
  abbrev conclude :
      CredentialLifecyclePlan
      → List LifecycleObservedAuthState
      → Evaluated CredentialLifecycleStatusResult
  conclude plan states =
      projected states >>= λ state. verify_identity pointer plan (auth_state state) none

  rules_match-to_list :
      (found : Option LifecycleStatusRule)
      → ((rule : LifecycleStatusRule) → found ≡ some rule → IsBare rule)
      → rules_match pointer (to_list found) none [] max_lifecycle_status_evaluation_work
        ≡ ok (states_of found)
  unfolding rules_match consume predicates_match
  rules_match-to_list none bare = refl
  rules_match-to_list (some rule) bare = rw (bare rule refl) refl

  verify_ready-unprofiled :
      (plan : CredentialLifecyclePlan) (identity : IdentityContract) (payload : Option Value)
      → expects_profile identity ≡ false
      → (result : CredentialLifecycleStatusResult) × (verify_ready pointer plan identity payload
          ≡ ok result)
        × (result.state ≡ AuthState.ready)
  unfolding verify_ready
  verify_ready-unprofiled plan IdentityContract.nothing payload plain = (_, refl, refl)
  verify_ready-unprofiled plan (IdentityContract.unverified reason) payload plain = (_, refl, refl)
  verify_ready-unprofiled plan (IdentityContract.profile_expected selector) payload plain = cc

  -- Where no identity is expected, the state stands.
  verify_identity-unprofiled :
      (plan : CredentialLifecyclePlan) (state : AuthState) (payload : Option Value)
      → expects_profile plan.identity_contract ≡ false
      → (result : CredentialLifecycleStatusResult) × (verify_identity pointer plan state payload
          ≡ ok result)
        × (result.state ≡ state)
  unfolding verify_identity
  verify_identity-unprofiled plan state payload plain =
      elim (Bool-cases (holds (AuthState-discrete state AuthState.ready))) [
        | inl is_ready ↦
            let (result, e, same) =
              verify_ready-unprofiled plan plan.identity_contract payload plain in
            (
              result,
              ground arith,
              same ∙ sym (holds→ (AuthState-discrete state AuthState.ready) is_ready),
            )
        | inr other ↦ (
          status_result plan state CredentialIdentityVerification.not_evaluated
              (expected_identity_of plan) none,
          ground arith,
          refl,
        )
      ]

  module _ (parse : List ℕ → Option Value) (plan : CredentialLifecyclePlan)
      (observation : CredentialLifecycleCommandObservation) (contract : LifecycleStatusObservation)
      (code : ℕ) where
    conclude-Answers :
        (found : Option LifecycleStatusRule)
        → expects_profile plan.identity_contract ≡ false
        → Answers found (conclude plan (states_of found))
    unfolding projected
    conclude-Answers none plain = refl
    conclude-Answers (some rule) plain =
        verify_identity-unprofiled plan (auth_state rule.state) none plain

    run_of :
        plan.operation ≡ CredentialLifecycleOperation.status
        → observation.operation ≡ CredentialLifecycleOperation.status
        → plan.status_observation ≡ some contract
        → contract.format ≡ LifecycleStatusOutputFormat.exit_code
        → observation.termination ≡ CredentialLifecycleTermination.exited code
        → evaluate_lifecycle_status pointer parse plan observation ≡ (
            rules_match pointer
              (keep (lists code) contract.rules)
              none
              []
              max_lifecycle_status_evaluation_work
            >>= conclude plan)
    unfolding evaluate_lifecycle_status exit_code_of payload_of
    run_of planned observed declared by_code exited =
        let planned' = →holds (Operation-discrete plan.operation _) planned in
        let observed' = →holds (Operation-discrete observation.operation _) observed in
        rw (planned', observed', declared, exited, by_code) refl

    -- A status run that ends with an exit code, for an observation by exit codes that manifest
    -- validation lets through with the plan's identity contract, is answered by the one rule that
    -- lists the code, with the state of that rule, and is unmapped where no rule lists it: it is
    -- never ambiguous and never runs out of its budget.
    pub evaluate_lifecycle_status-Answers :
        plan.operation ≡ CredentialLifecycleOperation.status
        → observation.operation ≡ CredentialLifecycleOperation.status
        → plan.status_observation ≡ some contract
        → contract.format ≡ LifecycleStatusOutputFormat.exit_code
        → observation.termination ≡ CredentialLifecycleTermination.exited code
        → validate_lifecycle_status_observation contract plan.identity_contract ≡ ok tt
        → Answers
            (find (lists code) contract.rules)
            (evaluate_lifecycle_status pointer parse plan observation)
    evaluate_lifecycle_status-Answers planned observed declared by_code exited valid =
        let plain = unprofiled contract plan.identity_contract by_code valid in
        let one =
          keep-find (lists code) contract.rules
            (excluded contract plan.identity_contract code by_code valid) in
        let found = find (lists code) contract.rules in
        let matched =
          rules_match-to_list found
            (found-IsBare contract plan.identity_contract code by_code valid) in
        let run =
          run_of planned observed declared by_code exited
          ∙ ap
              (λ rules.
                rules_match pointer rules none [] max_lifecycle_status_evaluation_work
                >>= conclude plan)
              one
          ∙ ap (λ states. states >>= conclude plan) matched in
        subst (Answers found) (sym run) (conclude-Answers found plain)
