-- ===== src/Selection/Choice.antt =====
-- The selection of tool-runtime-core/src/profile_selection.rs.
use magic_run.Prelude.{
  Bool, true, false, Option, none, some, List, Text, Text-discrete, Result, ok, err, guard, ok_or,
  ◌>>=◌, ◌>>◌, find, keep, holds, if◌then◌else◌,
}
use magic_run.Manifest.Auth.{AuthState}
use magic_run.Credentials.Error.{CredentialProfileError, CredentialProfileErrorCode}
use magic_run.Credentials.Keys.{CredentialScope, CredentialProfileBinding, CredentialScope-discrete}
use magic_run.Credentials.Profiles.{CredentialProfileStatus}
use magic_run.Credentials.Registry.{
  CredentialProfileRegistrySnapshot, Group-discrete, group_of, is_disabled,
}
use magic_run.Selection.Error.{CredentialProfileSelectionError}
use magic_run.Selection.Errors.{
  invalid_policy, missing_provider, missing_profile_selection, profile_not_found, profile_disabled,
  snapshot_scope_mismatch, registry_unavailable,
}
use magic_run.Selection.Request.{
  ValidatedProfileSelection, CredentialProfileSelectionRequest, CredentialProfileSelectionDecision,
  CredentialProfileSelectionSource, CredentialProfileReadiness, CredentialProfileSelectionMode,
  credential_profile_selection_v1,
}

abbrev pub Answer : Type 0 → Type 0
Answer = Result CredentialProfileSelectionError

abbrev pub none_decision : CredentialProfileSelectionRequest → CredentialProfileSelectionDecision
none_decision request =
    CredentialProfileSelectionDecision.nothing credential_profile_selection_v1 request.scope

abbrev pub implicit_decision :
    CredentialProfileSelectionRequest → Answer CredentialProfileSelectionDecision
implicit_decision request = ok_or request.provider missing_provider >>= λ provider. ok (
    CredentialProfileSelectionDecision.implicit credential_profile_selection_v1 request.scope
      provider request.binding)

abbrev pub readiness : AuthState → CredentialProfileReadiness
readiness AuthState.ready = CredentialProfileReadiness.ready
readiness AuthState.unknown = CredentialProfileReadiness.verification_required
readiness AuthState.missing = CredentialProfileReadiness.authentication_required
readiness AuthState.interaction_required = CredentialProfileReadiness.authentication_required
readiness AuthState.expired = CredentialProfileReadiness.authentication_required
readiness AuthState.authenticating = CredentialProfileReadiness.authentication_in_progress
readiness AuthState.revoked = CredentialProfileReadiness.blocked
readiness AuthState.identity_mismatch = CredentialProfileReadiness.blocked
readiness AuthState.denied = CredentialProfileReadiness.blocked
readiness AuthState.error = CredentialProfileReadiness.blocked

unfoldable pub selected_decision :
    CredentialProfileStatus
    → CredentialProfileSelectionSource
    → Answer CredentialProfileSelectionDecision
selected_decision profile source =
    if is_disabled profile.metadata.availability
    then err profile_disabled
    else ok (
        CredentialProfileSelectionDecision.selected credential_profile_selection_v1 source
          (readiness profile.auth_state) profile)

-- The profiles of the request's provider and binding.
unfoldable pub candidates_of :
    Text → CredentialProfileBinding → List CredentialProfileStatus → List CredentialProfileStatus
candidates_of provider binding profiles =
    keep (λ profile. holds (Group-discrete (group_of profile) (provider, binding))) profiles

unfoldable pub by_alias :
    List CredentialProfileStatus
    → Text
    → CredentialProfileSelectionSource
    → Answer CredentialProfileSelectionDecision
by_alias candidates alias source =
    ok_or (find (λ profile. holds (Text-discrete profile.metadata.key.alias alias)) candidates)
      profile_not_found
    >>= λ profile. selected_decision profile source

unfoldable pub by_default : List CredentialProfileStatus → Answer CredentialProfileSelectionDecision
by_default candidates =
    ok_or (find (λ profile. profile.metadata.is_default) candidates) missing_profile_selection
    >>= λ profile. selected_decision profile CredentialProfileSelectionSource.registry_default

-- The alias that was asked for, then the contract's, then the registry's default.
unfoldable pub by_policy :
    ValidatedProfileSelection
    → Option Text
    → List CredentialProfileStatus
    → Answer CredentialProfileSelectionDecision
by_policy (ValidatedProfileSelection.selectable default) (some alias) candidates =
    by_alias candidates alias CredentialProfileSelectionSource.requested
by_policy (ValidatedProfileSelection.selectable (some alias)) none candidates =
    by_alias candidates alias CredentialProfileSelectionSource.contract_default
by_policy (ValidatedProfileSelection.selectable none) none candidates = by_default candidates
by_policy (ValidatedProfileSelection.fixed alias) requested candidates =
    by_alias candidates alias CredentialProfileSelectionSource.fixed
by_policy ValidatedProfileSelection.nothing requested candidates = err invalid_policy
by_policy ValidatedProfileSelection.implicit requested candidates = err invalid_policy

unfoldable pub from_registry :
    CredentialProfileSelectionRequest
    → CredentialProfileRegistrySnapshot
    → Answer CredentialProfileSelectionDecision
from_registry request snapshot = do
  guard (holds (CredentialScope-discrete snapshot.scope request.scope)) snapshot_scope_mismatch
  provider ← ok_or request.provider missing_provider
  by_policy request.policy request.requested_alias
      (candidates_of provider request.binding snapshot.profiles)

unfoldable pub select_credential_profile_from_snapshot :
    CredentialProfileSelectionRequest
    → CredentialProfileRegistrySnapshot
    → Answer CredentialProfileSelectionDecision
select_credential_profile_from_snapshot request snapshot = elim request.policy [
  | ValidatedProfileSelection.nothing ↦ ok (none_decision request)
  | ValidatedProfileSelection.implicit ↦ implicit_decision request
  | ValidatedProfileSelection.selectable default ↦ from_registry request snapshot
  | ValidatedProfileSelection.fixed alias ↦ from_registry request snapshot
]

abbrev pub is_scope_mismatch : CredentialProfileErrorCode → Bool
is_scope_mismatch CredentialProfileErrorCode.scope_mismatch = true
is_scope_mismatch _ = false

abbrev pub map_registry_error : {A : Type 0} → Result CredentialProfileError A → Answer A
map_registry_error (ok value) = ok value
map_registry_error (err error) =
    if is_scope_mismatch error.code then err snapshot_scope_mismatch else err registry_unavailable

unfoldable pub select_credential_profile :
    (CredentialScope → Result CredentialProfileError CredentialProfileRegistrySnapshot)
    → CredentialProfileSelectionRequest
    → Answer CredentialProfileSelectionDecision
select_credential_profile registry request = elim request.policy [
  | ValidatedProfileSelection.nothing ↦ ok (none_decision request)
  | ValidatedProfileSelection.implicit ↦ implicit_decision request
  | ValidatedProfileSelection.selectable default ↦
      map_registry_error (registry request.scope)
      >>= select_credential_profile_from_snapshot request
  | ValidatedProfileSelection.fixed alias ↦
      map_registry_error (registry request.scope)
      >>= select_credential_profile_from_snapshot request
]

abbrev pub decision_scope : CredentialProfileSelectionDecision → CredentialScope
decision_scope (CredentialProfileSelectionDecision.nothing version scope) = scope
decision_scope (CredentialProfileSelectionDecision.implicit version scope provider binding) = scope
decision_scope (CredentialProfileSelectionDecision.selected version source state profile) =
    profile.metadata.key.scope

abbrev pub mode : CredentialProfileSelectionDecision → CredentialProfileSelectionMode
mode (CredentialProfileSelectionDecision.nothing version scope) =
    CredentialProfileSelectionMode.nothing
mode (CredentialProfileSelectionDecision.implicit version scope provider binding) =
    CredentialProfileSelectionMode.implicit
mode (CredentialProfileSelectionDecision.selected version source state profile) =
    CredentialProfileSelectionMode.selected

abbrev pub selected_profile : CredentialProfileSelectionDecision → Option CredentialProfileStatus
selected_profile (CredentialProfileSelectionDecision.selected version source state profile) =
    some profile
selected_profile _ = none

abbrev pub decision_readiness :
    CredentialProfileSelectionDecision → Option CredentialProfileReadiness
decision_readiness (CredentialProfileSelectionDecision.selected version source state profile) =
    some state
decision_readiness _ = none

abbrev pub decision_source :
    CredentialProfileSelectionDecision → Option CredentialProfileSelectionSource
decision_source (CredentialProfileSelectionDecision.selected version source state profile) =
    some source
decision_source _ = none

abbrev pub decision_implicit_identity :
    CredentialProfileSelectionDecision → Option (Text × CredentialProfileBinding)
decision_implicit_identity
      (CredentialProfileSelectionDecision.implicit version scope provider binding) =
    some (provider, binding)
decision_implicit_identity _ = none
