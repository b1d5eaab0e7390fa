-- ===== src/Tests/Selection.antt =====
-- Runs of the selection of tool-runtime-core/src/profile_selection.rs.
use native.Mathlib.Decide.{ℕ_discrete}
use magic_run.Prelude.{
  ◌≡◌, ◌↔◌, refl, Bool, true, false, none, some, List, [], ◌∷◌, Text, ok, codes,
}
use magic_run.Prelude.Sorting.{sort, insert_sorted}
use magic_run.Manifest.Auth.{AuthState}
use magic_run.Credentials.Keys.{
  CredentialScope, CredentialProfileBinding, CredentialScope-discrete,
  CredentialProfileKey-discrete,
}
use magic_run.Credentials.Profiles.{CredentialProfileStatus, CredentialProfileAvailability}
use magic_run.Credentials.Registry.{
  CredentialProfileRegistrySnapshot, has_key, has_group, check_profiles, text_compare, key_le,
  snapshot_new, credential_profile_registry_v1,
}
use magic_run.Credentials.Snapshots.{IsSnapshot, snapshot_new-IsSnapshot}
use magic_run.Selection.Request.{
  ValidatedProfileSelection, CredentialProfileSelectionRequest, CredentialProfileSelectionSource,
}
use magic_run.Selection.Choice.{select_credential_profile_from_snapshot}
use magic_run.Selection.Selected.{chosen}
use magic_run.Selection.Deciding.{IsChosen}
use magic_run.Selection.Selecting.{select_iff}

abbrev scope : CredentialScope
scope = record { principal = codes "ada"; workspace = codes "main" }

abbrev profile : Text → Bool → CredentialProfileStatus
profile alias is_default = record {
  metadata = record {
    key = record {
      scope = scope;
      provider = codes "gh";
      alias = alias;
      binding = CredentialProfileBinding.provider;
    };
    expected_identity = none;
    is_default = is_default;
    availability = CredentialProfileAvailability.enabled;
    revision = 1;
  };
  auth_state = AuthState.ready;
}

abbrev profiles : List CredentialProfileStatus
profiles = profile (codes "work") true ∷ profile (codes "home") false ∷ []

abbrev snapshot : CredentialProfileRegistrySnapshot
snapshot = record {
  schema_version = credential_profile_registry_v1;
  scope = scope;
  profiles = profile (codes "home") false ∷ profile (codes "work") true ∷ [];
}

taken : snapshot_new scope profiles ≡ ok snapshot
unfolding snapshot_new check_profiles has_key has_group sort insert_sorted key_le text_compare
    CredentialScope-discrete ℕ_discrete CredentialProfileKey-discrete
taken = refl

abbrev request : CredentialProfileSelectionRequest
request = record {
  scope = scope;
  provider = some (codes "gh");
  binding = CredentialProfileBinding.provider;
  policy = ValidatedProfileSelection.selectable none;
  requested_alias = none;
}

snapshot_new-IsSnapshot_example :
    (snapshot.scope ≡ scope)
    × (snapshot.profiles ≡ sort key_le profiles)
    × IsSnapshot snapshot.scope snapshot.profiles
snapshot_new-IsSnapshot_example = snapshot_new-IsSnapshot scope profiles snapshot taken

select_iff_example :
    (select_credential_profile_from_snapshot request snapshot
      ≡ ok (chosen CredentialProfileSelectionSource.registry_default (profile (codes "work") true)))
    ↔ IsChosen request snapshot CredentialProfileSelectionSource.registry_default
        (profile (codes "work") true)
select_iff_example =
    select_iff request scope profiles snapshot CredentialProfileSelectionSource.registry_default
      (profile (codes "work") true) taken
