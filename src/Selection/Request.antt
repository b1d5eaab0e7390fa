-- ===== src/Selection/Request.antt =====
-- The request and the decision of tool-runtime-core/src/profile_selection.rs.
use magic_run.Prelude.{
  Bool, true, false, ◌&&◌, not, Option, none, some, String, Text, Result, ok, err, guard, ◌>>=◌,
  ◌>>◌, is_some, if◌then◌else◌,
}
use magic_run.Manifest.Auth.{ProfileSelection}
use magic_run.Credentials.Keys.{CredentialScope, CredentialProfileBinding}
use magic_run.Credentials.Profiles.{CredentialProfileStatus, validate_provider}
use magic_run.Selection.Error.{CredentialProfileSelectionError}
use magic_run.Selection.Errors.{
  unexpected_requested_profile, invalid_provider, invalid_policy, missing_provider,
  invalid_requested_profile,
}

abbrev pub credential_profile_selection_v1 : String
credential_profile_selection_v1 = "tool-runtime.credential-profile-selection.v1"

pub data ValidatedProfileSelection : Type 0 where
  nothing : ValidatedProfileSelection
  selectable : Option Text → ValidatedProfileSelection
  fixed : Text → ValidatedProfileSelection
  implicit : ValidatedProfileSelection

pub record CredentialProfileSelectionRequest : Type 0 where
  pub scope : CredentialScope
  pub provider : Option Text
  pub binding : CredentialProfileBinding
  pub policy : ValidatedProfileSelection
  pub requested_alias : Option Text

-- Providers and aliases have the same rule.
unfoldable pub validate_profile_alias : Text → Bool
validate_profile_alias value = validate_provider value

-- `value.map(new).transpose().map_err(|_| failure)?`
unfoldable pub checked :
    (Text → Bool)
    → Option Text
    → CredentialProfileSelectionError
    → Result CredentialProfileSelectionError (Option Text)
checked test none failure = ok none
checked test (some value) failure = if test value then ok (some value) else err failure

abbrev pub is_selectable : ProfileSelection → Bool
is_selectable (ProfileSelection.selectable default) = true
is_selectable _ = false

unfoldable pub validate_policy :
    ProfileSelection → Result CredentialProfileSelectionError ValidatedProfileSelection
validate_policy ProfileSelection.nothing = ok ValidatedProfileSelection.nothing
validate_policy (ProfileSelection.selectable default) =
    checked validate_profile_alias default invalid_policy >>= λ alias.
    ok (ValidatedProfileSelection.selectable alias)
validate_policy (ProfileSelection.fixed alias) =
    if validate_profile_alias alias
    then ok (ValidatedProfileSelection.fixed alias)
    else err invalid_policy
validate_policy ProfileSelection.implicit = ok ValidatedProfileSelection.implicit

abbrev pub is_nothing : ValidatedProfileSelection → Bool
is_nothing ValidatedProfileSelection.nothing = true
is_nothing _ = false

unfoldable pub request_new :
    CredentialScope
    → Option Text
    → CredentialProfileBinding
    → ProfileSelection
    → Option Text
    → Result CredentialProfileSelectionError CredentialProfileSelectionRequest
request_new scope provider binding policy requested_alias = do
  guard (not (is_some requested_alias && not (is_selectable policy))) unexpected_requested_profile
  provider ← checked validate_provider provider invalid_provider
  policy ← validate_policy policy
  guard (not (not (is_nothing policy) && not (is_some provider))) missing_provider
  requested_alias ← checked validate_profile_alias requested_alias invalid_requested_profile
  ok (record {
    scope = scope;
    provider = provider;
    binding = binding;
    policy = policy;
    requested_alias = requested_alias;
  })

pub data CredentialProfileSelectionSource : Type 0 where
  requested contract_default registry_default fixed : CredentialProfileSelectionSource

pub data CredentialProfileReadiness : Type 0 where
  ready verification_required authentication_required authentication_in_progress blocked :
      CredentialProfileReadiness

pub data CredentialProfileSelectionDecision : Type 0 where
  nothing : String → CredentialScope → CredentialProfileSelectionDecision
  implicit :
      String
      → CredentialScope
      → Text
      → CredentialProfileBinding
      → CredentialProfileSelectionDecision
  selected :
      String
      → CredentialProfileSelectionSource
      → CredentialProfileReadiness
      → CredentialProfileStatus
      → CredentialProfileSelectionDecision

pub data CredentialProfileSelectionMode : Type 0 where
  nothing implicit selected : CredentialProfileSelectionMode
