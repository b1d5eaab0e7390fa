-- ===== src/Credentials/Plans.antt =====
-- The lifecycle plan of tool-runtime-core/src/credential_lifecycle.rs and its projections.
use native.Mathlib.Decide.{ℕ_discrete}
use magic_run.Prelude.{ℕ, Option, none, some, List, Text}
use magic_run.Manifest.Mcp.{CliInteraction}
use magic_run.Manifest.Auth.{
  AuthKind, IdentityContract, LifecycleStatusObservation, SkillRuntimeContract,
}
use magic_run.Credentials.Keys.{CredentialScope, CredentialProfileKey, CredentialProfileBinding}

pub data CredentialLifecycleOperation : Type 0 where
  status login logout refresh : CredentialLifecycleOperation

pub data CredentialLifecycleTarget : Type 0 where
  profile : CredentialProfileKey → ℕ → Option Text → CredentialLifecycleTarget
  implicit : CredentialScope → Text → CredentialProfileBinding → CredentialLifecycleTarget

-- The schema version is the same for every plan, and left out.
pub record CredentialLifecyclePlan : Type 0 where
  pub contract : SkillRuntimeContract
  pub operation : CredentialLifecycleOperation
  pub target : CredentialLifecycleTarget
  pub auth_kind : AuthKind
  pub executable : Text
  pub args : List Text
  pub interaction : CliInteraction
  pub timeout_secs : Option ℕ
  pub status_observation : Option LifecycleStatusObservation
  pub identity_contract : IdentityContract

unfoldable pub Operation-discrete : Discrete CredentialLifecycleOperation
Operation-discrete = hlevel

unfoldable pub Plan-discrete : Discrete CredentialLifecyclePlan
Plan-discrete = hlevel ℕ_discrete

unfoldable pub Revision-discrete : Discrete (Option ℕ)
Revision-discrete = hlevel ℕ_discrete

abbrev pub selected_profile_key : CredentialLifecyclePlan → Option CredentialProfileKey
selected_profile_key plan = elim plan.target [
  | CredentialLifecycleTarget.profile key revision expected ↦ some key
  | CredentialLifecycleTarget.implicit scope provider binding ↦ none
]

abbrev pub selected_profile_revision : CredentialLifecyclePlan → Option ℕ
selected_profile_revision plan = elim plan.target [
  | CredentialLifecycleTarget.profile key revision expected ↦ some revision
  | CredentialLifecycleTarget.implicit scope provider binding ↦ none
]

abbrev pub implicit_identity : CredentialLifecyclePlan → Option (Text × CredentialProfileBinding)
implicit_identity plan = elim plan.target [
  | CredentialLifecycleTarget.profile key revision expected ↦ none
  | CredentialLifecycleTarget.implicit scope provider binding ↦ some (provider, binding)
]

abbrev pub scope : CredentialLifecyclePlan → CredentialScope
scope plan = elim plan.target [
  | CredentialLifecycleTarget.profile key revision expected ↦ key.scope
  | CredentialLifecycleTarget.implicit owner provider binding ↦ owner
]
