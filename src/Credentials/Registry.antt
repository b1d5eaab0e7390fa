-- ===== src/Credentials/Registry.antt =====
-- The constructors of profile metadata, states and registry snapshots of
-- tool-runtime-core/src/credential_profiles.rs. A `BTreeSet` is the list of what was inserted.
use native.Mathlib.Decide.{ℕ_discrete}
use magic_run.Prelude.{
  ℕ, Bool, true, false, ◌&&◌, ◌||◌, not, Option, List, [], ◌∷◌, String, Text, Result, ok, guard,
  ◌>>◌, ltb, ◌==◌, any, length, holds, if◌then◌else◌,
}
use magic_run.Prelude.Sorting.{sort}
use magic_run.Manifest.Auth.{AuthState}
use magic_run.Credentials.Error.{CredentialProfileError}
use magic_run.Credentials.Errors.{
  invalid_status, snapshot_too_large, profile_scope_mismatch, duplicate_profile, multiple_defaults,
}
use magic_run.Credentials.Keys.{
  CredentialScope, CredentialProfileKey, CredentialProfileBinding, CredentialScope-discrete,
  CredentialProfileKey-discrete,
}
use magic_run.Credentials.Profiles.{
  CredentialProfileMetadata, CredentialProfileStatus, CredentialProfileAvailability,
}

abbrev pub max_profiles_per_scope : ℕ
max_profiles_per_scope = 256

abbrev pub credential_profile_registry_v1 : String
credential_profile_registry_v1 = "tool-runtime.credential-profile-registry.v1"

abbrev pub is_disabled : CredentialProfileAvailability → Bool
is_disabled CredentialProfileAvailability.enabled = false
is_disabled CredentialProfileAvailability.disabled = true

abbrev pub is_denied : AuthState → Bool
is_denied AuthState.denied = true
is_denied _ = false

unfoldable pub metadata_new :
    CredentialProfileKey
    → Option Text
    → Bool
    → CredentialProfileAvailability
    → ℕ
    → Result CredentialProfileError CredentialProfileMetadata
metadata_new key expected_identity is_default availability revision = do
  guard (not (is_default && is_disabled availability)) invalid_status
  ok (record {
    key = key;
    expected_identity = expected_identity;
    is_default = is_default;
    availability = availability;
    revision = revision;
  })

unfoldable pub status_new :
    CredentialProfileMetadata → AuthState → Result CredentialProfileError CredentialProfileStatus
status_new metadata auth_state = do
  guard (not (is_disabled metadata.availability && not (is_denied auth_state))) invalid_status
  ok (record { metadata = metadata; auth_state = auth_state })

pub record CredentialProfileRegistrySnapshot : Type 0 where
  pub schema_version : String
  pub scope : CredentialScope
  pub profiles : List CredentialProfileStatus

-- A provider and a binding share one default.
abbrev pub Group : Type 0
Group = Text × CredentialProfileBinding

unfoldable pub Group-discrete : Discrete Group
Group-discrete = hlevel ℕ_discrete

abbrev pub group_of : CredentialProfileStatus → Group
group_of profile = (profile.metadata.key.provider, profile.metadata.key.binding)

unfoldable pub has_key : CredentialProfileKey → List CredentialProfileKey → Bool
has_key key keys = any (λ other. holds (CredentialProfileKey-discrete key other)) keys

unfoldable pub has_group : Group → List Group → Bool
has_group group groups = any (λ other. holds (Group-discrete group other)) groups

abbrev pub with_default : CredentialProfileStatus → List Group → List Group
with_default profile defaults =
    if profile.metadata.is_default then group_of profile ∷ defaults else defaults

unfoldable pub check_profiles :
    CredentialScope
    → List CredentialProfileKey
    → List Group
    → List CredentialProfileStatus
    → Result CredentialProfileError (Unit {0})
check_profiles scope keys defaults [] = ok tt
check_profiles scope keys defaults (profile ∷ rest) =
    guard (holds (CredentialScope-discrete profile.metadata.key.scope scope)) profile_scope_mismatch
    >> (guard (not (has_key profile.metadata.key keys)) duplicate_profile
        >> (guard (not (profile.metadata.is_default && has_group (group_of profile) defaults))
              multiple_defaults
            >> check_profiles scope (profile.metadata.key ∷ keys) (with_default profile defaults)
                rest))

-- The derived orders of strings and of the parts of a key.
unfoldable pub text_compare : Text → Text → Bool → Bool
text_compare [] [] same = same
text_compare [] (b ∷ right) same = true
text_compare (a ∷ left) [] same = false
text_compare (a ∷ left) (b ∷ right) same =
    let rest = text_compare left right same in ltb a b || (a == b && rest)

abbrev pub binding_le : CredentialProfileBinding → CredentialProfileBinding → Bool
binding_le CredentialProfileBinding.provider right = true
binding_le (CredentialProfileBinding.mcp_oauth url issuer) CredentialProfileBinding.provider = false
binding_le (CredentialProfileBinding.mcp_oauth url issuer)
      (CredentialProfileBinding.mcp_oauth url' issuer') =
    text_compare url url' (text_compare issuer issuer' true)

-- `left.key().cmp(right.key())` is not greater.
unfoldable pub key_le : CredentialProfileStatus → CredentialProfileStatus → Bool
key_le left right =
    let a = left.metadata.key in
    let b = right.metadata.key in
    text_compare a.scope.principal b.scope.principal (
      text_compare a.scope.workspace b.scope.workspace (
        text_compare a.provider b.provider
          (text_compare a.alias b.alias (binding_le a.binding b.binding))))

unfoldable pub snapshot_new :
    CredentialScope
    → List CredentialProfileStatus
    → Result CredentialProfileError CredentialProfileRegistrySnapshot
snapshot_new scope profiles = do
  guard (not (ltb max_profiles_per_scope (length profiles))) snapshot_too_large
  check_profiles scope [] [] profiles
  ok (record {
    schema_version = credential_profile_registry_v1;
    scope = scope;
    profiles = sort key_le profiles;
  })
