-- ===== src/Observation/Evaluate.antt =====
-- `evaluate_lifecycle_status` of tool-runtime-core/src/credential_lifecycle_observation.rs.
use magic_run.Prelude.{
  ℕ, Bool, true, false, ◌&&◌, Option, none, some, List, [], ◌∷◌, Text, ok, err, ok_or, or_err,
  guard, ◌>>=◌, ◌>>◌, ◌==◌, any, keep, holds, Text-discrete, if◌then◌else◌,
}
use magic_run.Prelude.Sets.{eq_ignore_ascii_case}
use magic_run.Manifest.Auth.{
  AuthState, IdentityContract, IdentitySelector, LifecycleObservedAuthState,
  LifecycleStatusOutputFormat, LifecycleStatusRule,
}
use magic_run.Manifest.Equality.{AuthState-discrete, LifecycleObservedAuthState-discrete}
use magic_run.Credentials.Plans.{
  CredentialLifecycleOperation, CredentialLifecycleTarget, CredentialLifecyclePlan,
  Operation-discrete,
}
use magic_run.Credentials.Identities.{validate_expected_identity}
use magic_run.Observation.Errors.{
  wrong_operation, missing_status_contract, cancelled, timed_out, process_failed, unmapped_status,
  ambiguous_status, missing_identity, invalid_identity,
}
use magic_run.Observation.Value.{Value, as_str}
use magic_run.Observation.Status.{CredentialIdentityVerification, CredentialLifecycleStatusResult}
use magic_run.Observation.Command.{
  CredentialLifecycleTermination, CredentialLifecycleCommandObservation,
}
use magic_run.Observation.Json.{parse_bounded_json}
use magic_run.Observation.Predicates.{
  Evaluated, max_lifecycle_status_evaluation_work, consume, predicates_match,
}

abbrev pub auth_state : LifecycleObservedAuthState → AuthState
auth_state LifecycleObservedAuthState.missing = AuthState.missing
auth_state LifecycleObservedAuthState.interaction_required = AuthState.interaction_required
auth_state LifecycleObservedAuthState.ready = AuthState.ready
auth_state LifecycleObservedAuthState.expired = AuthState.expired
auth_state LifecycleObservedAuthState.revoked = AuthState.revoked
auth_state LifecycleObservedAuthState.denied = AuthState.denied
auth_state LifecycleObservedAuthState.error = AuthState.error

-- The exit code of a process that ran to its end.
unfoldable pub exit_code_of : CredentialLifecycleTermination → Evaluated ℕ
exit_code_of (CredentialLifecycleTermination.exited code) = ok code
exit_code_of CredentialLifecycleTermination.cancelled = err cancelled
exit_code_of CredentialLifecycleTermination.timed_out = err timed_out
exit_code_of CredentialLifecycleTermination.signaled = err process_failed
exit_code_of CredentialLifecycleTermination.spawn_failed = err process_failed

unfoldable pub payload_of :
    (List ℕ → Option Value) → LifecycleStatusOutputFormat → List ℕ → Evaluated (Option Value)
payload_of parse LifecycleStatusOutputFormat.exit_code stdout = ok none
payload_of parse LifecycleStatusOutputFormat.json stdout =
    parse_bounded_json parse stdout >>= λ value. ok (some value)

-- The exit code is one of the rule's.
abbrev pub lists : ℕ → LifecycleStatusRule → Bool
lists code rule = any (λ c. c == code) rule.exit_codes

-- `BTreeSet::insert`
abbrev pub insert_state :
    LifecycleObservedAuthState → List LifecycleObservedAuthState → List LifecycleObservedAuthState
insert_state state states =
    if any (λ s. holds (LifecycleObservedAuthState-discrete s state)) states
    then states
    else state ∷ states

-- The one state that the rules agree on.
unfoldable pub projected : List LifecycleObservedAuthState → Evaluated LifecycleObservedAuthState
projected [] = err unmapped_status
projected (state ∷ []) = ok state
projected (state ∷ other ∷ states) = err ambiguous_status

abbrev pub expected_identity_of : CredentialLifecyclePlan → Option Text
expected_identity_of plan = elim plan.target [
  | CredentialLifecycleTarget.profile key revision expected ↦ expected
  | CredentialLifecycleTarget.implicit scope provider binding ↦ none
]

-- `ObservedCredentialIdentity::from_status`
unfoldable pub from_status : Text → Evaluated Text
from_status value = do or_err (validate_expected_identity value) invalid_identity; ok value

abbrev pub status_result :
    CredentialLifecyclePlan
    → AuthState
    → CredentialIdentityVerification
    → Option Text
    → Option Text
    → CredentialLifecycleStatusResult
status_result plan state verification expected actual = record {
  plan = plan;
  state = state;
  identity_verification = verification;
  expected_identity = expected;
  actual_identity = actual;
}

abbrev pub selector_pointer : IdentitySelector → Text
selector_pointer (IdentitySelector.json_pointer path) = path
selector_pointer (IdentitySelector.json_pointer_ascii_case_insensitive path) = path

abbrev pub same_identity : IdentitySelector → Text → Text → Bool
same_identity (IdentitySelector.json_pointer path) expected actual =
    holds (Text-discrete expected actual)
same_identity (IdentitySelector.json_pointer_ascii_case_insensitive path) expected actual =
    eq_ignore_ascii_case expected actual

-- The result for an identity that was read.
abbrev pub compared : CredentialLifecyclePlan → Text → Text → Bool → CredentialLifecycleStatusResult
compared plan expected actual true =
    status_result plan AuthState.ready CredentialIdentityVerification.matched (some expected)
      (some actual)
compared plan expected actual false =
    status_result plan AuthState.identity_mismatch CredentialIdentityVerification.mismatched
      (some expected) (some actual)

abbrev pub text_of : Option Value → Option Text
text_of none = none
text_of (some value) = as_str value

-- `pointer` is `Value::pointer` and `parse` is `serde_json::from_slice`.
module _ (pointer : Value → Text → Option Value) where
  -- The loop over the rules that list the exit code.
  unfoldable pub rules_match :
      List LifecycleStatusRule
      → Option Value
      → List LifecycleObservedAuthState
      → ℕ
      → Evaluated (List LifecycleObservedAuthState)
  rules_match [] payload states budget = ok states
  rules_match (rule ∷ rest) payload states budget = consume budget 1 >>= λ left.
      predicates_match pointer rule.all payload left >>= λ (matches, remaining).
      rules_match rest payload (if matches then insert_state rule.state states else states)
        remaining

  unfoldable pub verify_profile_identity :
      CredentialLifecyclePlan
      → IdentitySelector
      → Option Value
      → Evaluated CredentialLifecycleStatusResult
  verify_profile_identity plan selector payload = do
    expected ← ok_or (expected_identity_of plan) missing_identity
    value ← ok_or payload missing_identity
    text ← ok_or (text_of (pointer value (selector_pointer selector))) missing_identity
    actual ← from_status text
    ok (compared plan expected actual (same_identity selector expected actual))

  unfoldable pub verify_ready :
      CredentialLifecyclePlan
      → IdentityContract
      → Option Value
      → Evaluated CredentialLifecycleStatusResult
  verify_ready plan IdentityContract.nothing payload =
      ok (status_result plan AuthState.ready CredentialIdentityVerification.not_declared none none)
  verify_ready plan (IdentityContract.unverified reason) payload = ok (
      status_result plan AuthState.ready CredentialIdentityVerification.provider_unverified none
        none)
  verify_ready plan (IdentityContract.profile_expected selector) payload =
      verify_profile_identity plan selector payload

  unfoldable pub verify_identity :
      CredentialLifecyclePlan → AuthState → Option Value → Evaluated CredentialLifecycleStatusResult
  verify_identity plan state payload = elim (holds (AuthState-discrete state AuthState.ready)) [
    | false ↦ ok (
        status_result plan state CredentialIdentityVerification.not_evaluated
          (expected_identity_of plan) none)
    | true ↦ verify_ready plan plan.identity_contract payload
  ]

  unfoldable pub evaluate_lifecycle_status :
      (List ℕ → Option Value)
      → CredentialLifecyclePlan
      → CredentialLifecycleCommandObservation
      → Evaluated CredentialLifecycleStatusResult
  evaluate_lifecycle_status parse plan observation = do
    guard
        (holds (Operation-discrete plan.operation CredentialLifecycleOperation.status)
          && holds (Operation-discrete observation.operation CredentialLifecycleOperation.status))
        wrong_operation
    contract ← ok_or plan.status_observation missing_status_contract
    exit_code ← exit_code_of observation.termination
    payload ← payload_of parse contract.format observation.stdout
    states ←
        rules_match (keep (lists exit_code) contract.rules) payload []
          max_lifecycle_status_evaluation_work
    state ← projected states
    verify_identity plan (auth_state state) payload
