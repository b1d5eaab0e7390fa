-- ===== src/Lifecycle/Compile.antt =====
-- `for_profile` and `for_implicit` of tool-runtime-core/src/credential_lifecycle.rs.
use magic_run.Prelude.{
  Bool, true, false, ◌&&◌, not, Option, none, Text, Result, ok, ◌>>=◌, ◌>>◌, guard, ok_or, first,
  holds, is_some, Text-discrete,
}
use magic_run.Manifest.Auth.{
  AuthKind, IdentityContract, LifecycleHook, LifecycleStatusObservation, ProfileSelection,
  SkillRuntimeContract,
}
use magic_run.Manifest.Mcp.{RuntimeProtocol}
use magic_run.Credentials.Keys.{
  CredentialScope, CredentialProfileKey, CredentialProfileBinding, CredentialProfileKey-discrete,
}
use magic_run.Credentials.Plans.{
  CredentialLifecyclePlan, CredentialLifecycleOperation, CredentialLifecycleTarget,
}
use magic_run.Credentials.Profiles.{
  CredentialProfileStatus, CredentialProfileAvailability, validate_provider,
}
use magic_run.Lifecycle.Error.{CredentialLifecycleError}
use magic_run.Lifecycle.Errors.{
  unsupported_contract, target_mismatch, profile_disabled, profile_not_found, registry_unavailable,
  hook_unavailable, missing_expected_identity,
}

abbrev pub has_lifecycle : AuthKind → Bool
has_lifecycle AuthKind.cli_profile = true
has_lifecycle AuthKind.oauth_session = true
has_lifecycle _ = false

abbrev pub is_cli : RuntimeProtocol → Bool
is_cli (RuntimeProtocol.cli _ _ _ _ _) = true
is_cli (RuntimeProtocol.mcp _ _ _) = false

unfoldable pub lifecycle_executable : SkillRuntimeContract → Result CredentialLifecycleError Text
lifecycle_executable contract = do
  guard (has_lifecycle contract.auth.kind && is_cli contract.runtime) unsupported_contract
  ok_or (first contract.requires.bins) unsupported_contract

abbrev pub profile_selection_accepts_key : ProfileSelection → CredentialProfileKey → Bool
profile_selection_accepts_key (ProfileSelection.selectable _) key = true
profile_selection_accepts_key (ProfileSelection.fixed alias) key =
    holds (Text-discrete key.alias alias)
profile_selection_accepts_key ProfileSelection.nothing key = false
profile_selection_accepts_key ProfileSelection.implicit key = false

abbrev pub hook_of : SkillRuntimeContract → CredentialLifecycleOperation → Option LifecycleHook
hook_of contract CredentialLifecycleOperation.status = contract.auth.lifecycle.status
hook_of contract CredentialLifecycleOperation.login = contract.auth.lifecycle.login
hook_of contract CredentialLifecycleOperation.logout = contract.auth.lifecycle.logout
hook_of contract CredentialLifecycleOperation.refresh = contract.auth.lifecycle.refresh

unfoldable pub lifecycle_hook :
    SkillRuntimeContract
    → CredentialLifecycleOperation
    → Result CredentialLifecycleError LifecycleHook
lifecycle_hook contract operation = ok_or (hook_of contract operation) hook_unavailable

abbrev pub observation_of :
    CredentialLifecycleOperation → SkillRuntimeContract → Option LifecycleStatusObservation
observation_of CredentialLifecycleOperation.status contract =
    contract.auth.lifecycle.status_observation
observation_of _ contract = none

abbrev pub from_hook :
    CredentialLifecycleOperation
    → CredentialLifecycleTarget
    → SkillRuntimeContract
    → Text
    → LifecycleHook
    → CredentialLifecyclePlan
from_hook operation target contract executable hook = record {
  contract = contract;
  operation = operation;
  target = target;
  auth_kind = contract.auth.kind;
  executable = executable;
  args = hook.args;
  interaction = hook.interaction;
  timeout_secs = hook.timeout_secs;
  status_observation = observation_of operation contract;
  identity_contract = contract.auth.identity;
}

-- A disabled profile can be asked for its status, and logged out.
abbrev pub is_refused : CredentialProfileAvailability → CredentialLifecycleOperation → Bool
is_refused CredentialProfileAvailability.disabled CredentialLifecycleOperation.login = true
is_refused CredentialProfileAvailability.disabled CredentialLifecycleOperation.refresh = true
is_refused _ _ = false

abbrev pub expects_identity : IdentityContract → Bool
expects_identity (IdentityContract.profile_expected _) = true
expects_identity _ = false

abbrev pub is_provider_binding : CredentialProfileBinding → Bool
is_provider_binding CredentialProfileBinding.provider = true
is_provider_binding (CredentialProfileBinding.mcp_oauth _ _) = false

abbrev pub target_of : CredentialProfileStatus → CredentialLifecycleTarget
target_of profile =
    CredentialLifecycleTarget.profile profile.metadata.key profile.metadata.revision
      profile.metadata.expected_identity

unfoldable pub for_registry_status :
    SkillRuntimeContract
    → Text
    → CredentialProfileStatus
    → CredentialLifecycleOperation
    → Result CredentialLifecycleError CredentialLifecyclePlan
for_registry_status contract executable profile operation = do
  guard (not (is_refused profile.metadata.availability operation)) profile_disabled
  guard
      (not (
        expects_identity contract.auth.identity
        && not (is_some profile.metadata.expected_identity)))
      missing_expected_identity
  hook ← lifecycle_hook contract operation
  ok (from_hook operation (target_of profile) contract executable hook)

-- The registry fails, has no such profile, or has its status.
abbrev pub Registry : Type 0
Registry = CredentialProfileKey → Option (Option CredentialProfileStatus)

unfoldable pub for_profile :
    Registry
    → SkillRuntimeContract
    → CredentialProfileKey
    → CredentialLifecycleOperation
    → Result CredentialLifecycleError CredentialLifecyclePlan
for_profile registry contract key operation = do
  executable ← lifecycle_executable contract
  provider ← ok_or contract.auth.provider unsupported_contract
  guard
      (holds (Text-discrete key.provider provider)
        && is_provider_binding key.binding
        && profile_selection_accepts_key contract.auth.profile_selection key)
      target_mismatch
  answer ← ok_or (registry key) registry_unavailable
  profile ← ok_or answer profile_not_found
  guard (holds (CredentialProfileKey-discrete profile.metadata.key key)) registry_unavailable
  for_registry_status contract executable profile operation

abbrev is_implicit : ProfileSelection → Bool
is_implicit ProfileSelection.implicit = true
is_implicit _ = false

unfoldable pub for_implicit :
    SkillRuntimeContract
    → CredentialScope
    → CredentialLifecycleOperation
    → Result CredentialLifecycleError CredentialLifecyclePlan
for_implicit contract scope operation = do
  executable ← lifecycle_executable contract
  guard (is_implicit contract.auth.profile_selection) target_mismatch
  provider ← ok_or contract.auth.provider unsupported_contract
  guard (validate_provider provider) unsupported_contract
  hook ← lifecycle_hook contract operation
  ok (
      from_hook operation
        (CredentialLifecycleTarget.implicit scope provider CredentialProfileBinding.provider)
        contract executable hook)
