-- ===== src/Observation/Status.antt =====
-- What a status observation of tool-runtime-core/src/credential_lifecycle_observation.rs reports. The
-- schema version is the same for every result, and left out.
use magic_run.Prelude.{Bool, true, false, ◌&&◌, Option, Text, holds}
use magic_run.Manifest.Auth.{AuthState}
use magic_run.Manifest.Equality.{AuthState-discrete}
use magic_run.Credentials.Plans.{CredentialLifecyclePlan}

pub data CredentialIdentityVerification : Type 0 where
  not_evaluated not_declared provider_unverified : CredentialIdentityVerification
  matched mismatched : CredentialIdentityVerification

pub record CredentialLifecycleStatusResult : Type 0 where
  pub plan : CredentialLifecyclePlan
  pub state : AuthState
  pub identity_verification : CredentialIdentityVerification
  pub expected_identity : Option Text
  pub actual_identity : Option Text

-- `NotDeclared | ProviderUnverified | Matched`
abbrev pub permits_execution : CredentialIdentityVerification → Bool
permits_execution CredentialIdentityVerification.not_evaluated = false
permits_execution CredentialIdentityVerification.not_declared = true
permits_execution CredentialIdentityVerification.provider_unverified = true
permits_execution CredentialIdentityVerification.matched = true
permits_execution CredentialIdentityVerification.mismatched = false

unfoldable pub is_execution_ready : CredentialLifecycleStatusResult → Bool
is_execution_ready result =
    holds (AuthState-discrete result.state AuthState.ready)
    && permits_execution result.identity_verification
