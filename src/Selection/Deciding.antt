-- ===== src/Selection/Deciding.antt =====
-- When tool-runtime-core/src/profile_selection.rs selects a profile from a snapshot.
use magic_run.Prelude.{
  ◌≡◌, ◌↔◌, sym, ap, ◌∙◌, Bool, true, false, ◌&&◌, Option, none, some, arith, Text, Text-discrete,
  ok, guard, ok_or, ◌>>=◌, holds, holds→, →holds, bind_inversion, guard_inversion, ok_or_inversion,
}
use magic_run.Prelude.Finding.{In}
use magic_run.Credentials.Keys.{CredentialProfileBinding, CredentialScope-discrete}
use magic_run.Credentials.Profiles.{CredentialProfileStatus}
use magic_run.Credentials.Registry.{
  CredentialProfileRegistrySnapshot, Group, Group-discrete, group_of, is_disabled,
}
use magic_run.Credentials.Snapshots.{IsSnapshot}
use magic_run.Selection.Errors.{
  profile_not_found, missing_profile_selection, snapshot_scope_mismatch, missing_provider,
}
use magic_run.Selection.Request.{
  ValidatedProfileSelection, CredentialProfileSelectionRequest, CredentialProfileSelectionDecision,
  CredentialProfileSelectionSource,
}
use magic_run.Selection.Choice.{
  Answer, candidates_of, by_alias, by_default, by_policy, from_registry,
}
use magic_run.Selection.Selected.{
  chosen, Names, picks_iff, one_alias, one_default, both, in_group, has_alias,
}

-- The profile that a request chooses from a snapshot, and why.
pub record IsChosen (request : CredentialProfileSelectionRequest)
    (snapshot : CredentialProfileRegistrySnapshot) (source : CredentialProfileSelectionSource)
    (profile : CredentialProfileStatus) : Type 0 where
  pub scoped : snapshot.scope ≡ request.scope
  pub listed : In snapshot.profiles profile
  pub provided : request.provider ≡ some profile.metadata.key.provider
  pub bound : profile.metadata.key.binding ≡ request.binding
  pub named : Names request.policy request.requested_alias profile source
  pub enabled : is_disabled profile.metadata.availability ≡ false

module _ (snapshot : CredentialProfileRegistrySnapshot)
    (is_snapshot : IsSnapshot snapshot.scope snapshot.profiles) (provider : Text)
    (binding : CredentialProfileBinding) (source : CredentialProfileSelectionSource)
    (profile : CredentialProfileStatus) where
  abbrev group : Group
  group = (provider, binding)

  abbrev Found : Type 0 → Type 0
  Found Named =
      In snapshot.profiles profile
      × (group_of profile ≡ group)
      × Named
      × (is_disabled profile.metadata.availability ≡ false)

  and_true : (x y : Bool) → x ≡ true → y ≡ true → (x && y) ≡ true
  and_true x y h g = ground arith

  by_alias_iff :
      (alias : Text) (from : CredentialProfileSelectionSource)
      → (by_alias (candidates_of provider binding snapshot.profiles) alias from
          ≡ ok (chosen source profile))
        ↔ Found ((profile.metadata.key.alias ≡ alias) × (source ≡ from))
  unfolding by_alias candidates_of
  by_alias_iff alias from =
      let inside = in_group snapshot is_snapshot group in
      let named = has_alias snapshot is_snapshot group alias in
      let picks =
        picks_iff snapshot.profiles named inside profile_not_found
          (one_alias snapshot is_snapshot group alias) from source profile in
      (
        λ h.
            let ((listed, tests), origin, enabled) = picks.0 h in
            let (grouped, same) =
              both snapshot is_snapshot group (inside profile) (named profile) tests in
            (
              listed,
              holds→ (Group-discrete (group_of profile) group) grouped,
              (holds→ (Text-discrete profile.metadata.key.alias alias) same, origin),
              enabled,
            ),
        λ h.
            let (listed, grouped, (same, origin), enabled) = h in
            picks.1 (
              (
                listed,
                and_true (inside profile) (named profile)
                    (→holds (Group-discrete (group_of profile) group) grouped)
                    (→holds (Text-discrete profile.metadata.key.alias alias) same),
              ),
              origin,
              enabled,
            ),
      )

  by_default_iff :
      (by_default (candidates_of provider binding snapshot.profiles) ≡ ok (chosen source profile))
      ↔ Found (
          (profile.metadata.is_default ≡ true)
          × (source ≡ CredentialProfileSelectionSource.registry_default))
  unfolding by_default candidates_of
  by_default_iff =
      let inside = in_group snapshot is_snapshot group in
      let picks =
        picks_iff snapshot.profiles (λ p. p.metadata.is_default) inside missing_profile_selection
          (one_default snapshot is_snapshot group) CredentialProfileSelectionSource.registry_default
          source profile in
      (
        λ h.
            let ((listed, tests), origin, enabled) = picks.0 h in
            let (grouped, same) =
              both snapshot is_snapshot group (inside profile) profile.metadata.is_default tests in
            (
              listed,
              holds→ (Group-discrete (group_of profile) group) grouped,
              (same, origin),
              enabled,
            ),
        λ h.
            let (listed, grouped, (same, origin), enabled) = h in
            picks.1 (
              (
                listed,
                and_true (inside profile) profile.metadata.is_default
                    (→holds (Group-discrete (group_of profile) group) grouped) same,
              ),
              origin,
              enabled,
            ),
      )

  by_policy_iff :
      (policy : ValidatedProfileSelection) (asked : Option Text)
      → (by_policy policy asked (candidates_of provider binding snapshot.profiles)
          ≡ ok (chosen source profile))
        ↔ Found (Names policy asked profile source)
  unfolding by_policy
  by_policy_iff (ValidatedProfileSelection.selectable default) (some alias) =
      by_alias_iff alias CredentialProfileSelectionSource.requested
  by_policy_iff (ValidatedProfileSelection.selectable (some alias)) none =
      by_alias_iff alias CredentialProfileSelectionSource.contract_default
  by_policy_iff (ValidatedProfileSelection.selectable none) none = by_default_iff
  by_policy_iff (ValidatedProfileSelection.fixed alias) asked =
      by_alias_iff alias CredentialProfileSelectionSource.fixed
  by_policy_iff ValidatedProfileSelection.nothing asked = (λ h. cc, λ h. absurd (h.2))
  by_policy_iff ValidatedProfileSelection.implicit asked = (λ h. cc, λ h. absurd (h.2))

module _ (request : CredentialProfileSelectionRequest)
    (snapshot : CredentialProfileRegistrySnapshot)
    (is_snapshot : IsSnapshot snapshot.scope snapshot.profiles)
    (source : CredentialProfileSelectionSource) (profile : CredentialProfileStatus) where
  pub from_registry_iff :
      (from_registry request snapshot ≡ ok (chosen source profile))
      ↔ IsChosen request snapshot source profile
  unfolding from_registry
  from_registry_iff =
      let test = holds (CredentialScope-discrete snapshot.scope request.scope) in
      let last : Text → Answer CredentialProfileSelectionDecision = λ provider.
        by_policy request.policy request.requested_alias
          (candidates_of provider request.binding snapshot.profiles) in
      (
        λ h.
            let (u, one, h1) =
              bind_inversion (guard test snapshot_scope_mismatch)
                (λ _. ok_or request.provider missing_provider >>= last) h in
            let (provider, two, h2) =
              bind_inversion (ok_or request.provider missing_provider) last h1 in
            let (listed, grouped, named, enabled) =
              (by_policy_iff snapshot is_snapshot provider request.binding source profile
                  request.policy request.requested_alias).0
                h2 in
            record {
              scoped =
                  holds→ (CredentialScope-discrete snapshot.scope request.scope)
                    (guard_inversion test snapshot_scope_mismatch one);
              listed = listed;
              provided =
                  ok_or_inversion request.provider missing_provider two
                  ∙ ap some (sym (ap (λ g. g.0) grouped));
              bound = ap (λ g. g.1) grouped;
              named = named;
              enabled = enabled;
            },
        λ c.
            let on = →holds (CredentialScope-discrete snapshot.scope request.scope) c.scoped in
            let provider = profile.metadata.key.provider in
            let decided =
              (by_policy_iff snapshot is_snapshot provider request.binding source profile
                  request.policy request.requested_alias).1
                (c.listed, ap (λ b. (provider, b)) c.bound, c.named, c.enabled) in
            rw on (rw c.provided decided),
      )
