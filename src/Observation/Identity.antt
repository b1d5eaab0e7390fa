-- ===== src/Observation/Identity.antt =====
-- The identity that an execution-ready result of
-- tool-runtime-core/src/credential_lifecycle_observation.rs has verified.
use magic_run.Prelude.{
  Text-discrete, ◌≡◌, inl, inr, refl, sym, ap, subst, Bool, true, false, Option, none, some, Text,
  ok, ok_or, arith, holds, holds→, ok-injective, bind_inversion, ok_or_inversion, checked_inversion,
  ◌∙◌, or_err, Bool-cases,
}
use magic_run.Prelude.Sets.{to_ascii_lowercase, eq_ignore_ascii_case}
use magic_run.Manifest.Auth.{AuthState, IdentityContract, IdentitySelector}
use magic_run.Manifest.Equality.{AuthState-discrete}
use magic_run.Credentials.Plans.{CredentialLifecyclePlan}
use magic_run.Credentials.Identities.{validate_expected_identity}
use magic_run.Observation.Errors.{missing_identity, invalid_identity}
use magic_run.Observation.Value.{Value}
use magic_run.Observation.Status.{
  CredentialIdentityVerification, CredentialLifecycleStatusResult, is_execution_ready,
}
use magic_run.Observation.Evaluate.{
  expected_identity_of, from_status, selector_pointer, same_identity, compared, status_result,
  text_of, verify_profile_identity, verify_ready, verify_identity,
}

from_status_same : (text actual : Text) → from_status text ≡ ok actual → text ≡ actual
unfolding from_status
from_status_same text actual e =
    (checked_inversion (or_err (validate_expected_identity text) invalid_identity) text e).1

compared_ready :
    (plan : CredentialLifecyclePlan) (expected actual : Text) (same : Bool)
    (result : CredentialLifecycleStatusResult)
    → compared plan expected actual same ≡ result
    → is_execution_ready result ≡ true
    → same ≡ true
unfolding is_execution_ready AuthState-discrete
compared_ready plan expected actual true result e ready = refl
compared_ready plan expected actual false result e ready =
    let mismatch = subst (λ r. is_execution_ready r ≡ true) (sym e) ready in absurd cc

not_evaluated_lem :
    (first result : CredentialLifecycleStatusResult)
    → first ≡ result
    → first.identity_verification ≡ CredentialIdentityVerification.not_evaluated
    → is_execution_ready result ≡ true
    → ⊥
unfolding is_execution_ready
not_evaluated_lem first result e open_state ready =
    let verification : result.identity_verification ≡ CredentialIdentityVerification.not_evaluated =
      subst (λ r. r.identity_verification ≡ CredentialIdentityVerification.not_evaluated) e
        open_state in
    ground arith

-- The texts that a selector takes for the same identity: equal, or equal in lower case.
abbrev pub IsSame : IdentitySelector → Text → Text → Type 0
IsSame (IdentitySelector.json_pointer path) expected actual = expected ≡ actual
IsSame (IdentitySelector.json_pointer_ascii_case_insensitive path) expected actual =
    to_ascii_lowercase expected ≡ to_ascii_lowercase actual

same_identity-IsSame :
    (selector : IdentitySelector) (expected actual : Text)
    → same_identity selector expected actual ≡ true
    → IsSame selector expected actual
unfolding eq_ignore_ascii_case
same_identity-IsSame (IdentitySelector.json_pointer path) expected actual h =
    holds→ (Text-discrete expected actual) h
same_identity-IsSame (IdentitySelector.json_pointer_ascii_case_insensitive path) expected actual h =
    holds→ (Text-discrete (to_ascii_lowercase expected) (to_ascii_lowercase actual)) h

module _ (pointer : Value → Text → Option Value) where
  -- The output names the identity that the profile expects, as the selector compares them.
  pub record Names (plan : CredentialLifecyclePlan) (payload : Option Value)
      (selector : IdentitySelector) : Type 0 where
    pub value : Value
    pub output : payload ≡ some value
    pub expected : Text
    pub profile : expected_identity_of plan ≡ some expected
    pub actual : Text
    pub selected : text_of (pointer value (selector_pointer selector)) ≡ some actual
    pub same : IsSame selector expected actual

  abbrev pub IsVerified : CredentialLifecyclePlan → Option Value → IdentityContract → Type 0
  IsVerified plan payload IdentityContract.nothing = Unit
  IsVerified plan payload (IdentityContract.unverified reason) = Unit
  IsVerified plan payload (IdentityContract.profile_expected selector) = Names plan payload selector

  profile-Names :
      (plan : CredentialLifecyclePlan) (selector : IdentitySelector) (payload : Option Value)
      (result : CredentialLifecycleStatusResult)
      → verify_profile_identity pointer plan selector payload ≡ ok result
      → is_execution_ready result ≡ true
      → Names plan payload selector
  unfolding verify_profile_identity
  profile-Names plan selector payload result e ready =
      let (expected, profile, e) = bind_inversion (ok_or (expected_identity_of plan) _) _ e in
      let (value, output, e) = bind_inversion (ok_or payload _) _ e in
      let (text, selected, e) =
        bind_inversion (ok_or (text_of (pointer value (selector_pointer selector))) _) _ e in
      let (actual, checked, e) = bind_inversion (from_status text) _ e in
      let text_read = from_status_same text actual checked in
      record {
        value = value;
        output = ok_or_inversion payload missing_identity output;
        expected = expected;
        profile = ok_or_inversion (expected_identity_of plan) missing_identity profile;
        actual = actual;
        selected =
            ok_or_inversion (text_of (pointer value (selector_pointer selector))) missing_identity
              selected
            ∙ ap some text_read;
        same = same_identity-IsSame selector expected actual (
            compared_ready plan expected actual (same_identity selector expected actual) result
              (ok-injective e) ready);
      }

  verify_ready-IsVerified :
      (plan : CredentialLifecyclePlan) (identity : IdentityContract) (payload : Option Value)
      (result : CredentialLifecycleStatusResult)
      → verify_ready pointer plan identity payload ≡ ok result
      → is_execution_ready result ≡ true
      → IsVerified plan payload identity
  unfolding verify_ready
  verify_ready-IsVerified plan IdentityContract.nothing payload result e ready = tt
  verify_ready-IsVerified plan (IdentityContract.unverified reason) payload result e ready = tt
  verify_ready-IsVerified plan (IdentityContract.profile_expected selector) payload result e ready =
      profile-Names plan selector payload result e ready

  pub verify_identity-IsVerified :
      (plan : CredentialLifecyclePlan) (state : AuthState) (payload : Option Value)
      (result : CredentialLifecycleStatusResult)
      → verify_identity pointer plan state payload ≡ ok result
      → is_execution_ready result ≡ true
      → (state ≡ AuthState.ready) × IsVerified plan payload plan.identity_contract
  unfolding verify_identity is_execution_ready
  verify_identity-IsVerified plan state payload result e ready =
      elim (Bool-cases (holds (AuthState-discrete state AuthState.ready))) [
        | inl is_ready ↦ (
          holds→ (AuthState-discrete state AuthState.ready) is_ready,
          verify_ready-IsVerified plan plan.identity_contract payload result (ground arith) ready,
        )
        | inr other ↦ absurd (
            not_evaluated_lem
              (status_result plan state CredentialIdentityVerification.not_evaluated
                (expected_identity_of plan) none)
              result (ground arith) refl ready)
      ]
