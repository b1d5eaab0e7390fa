-- ===== src/Selection/Selecting.antt =====
-- What the selection of tool-runtime-core/src/profile_selection.rs selects.
use magic_run.Prelude.{
  ◌≡◌, ◌↔◌, refl, sym, ◌∙◌, subst, Option, none, some, List, Text, ok, ok_or, ◌>>=◌,
}
use magic_run.Credentials.Keys.{CredentialScope}
use magic_run.Credentials.Profiles.{CredentialProfileStatus}
use magic_run.Credentials.Registry.{CredentialProfileRegistrySnapshot, snapshot_new}
use magic_run.Credentials.Snapshots.{IsSnapshot, snapshot_new-IsSnapshot}
use magic_run.Selection.Errors.{missing_provider}
use magic_run.Selection.Request.{
  ValidatedProfileSelection, CredentialProfileSelectionRequest, CredentialProfileSelectionDecision,
  CredentialProfileSelectionSource, credential_profile_selection_v1,
}
use magic_run.Selection.Choice.{
  Answer, none_decision, implicit_decision, from_registry, select_credential_profile_from_snapshot,
}
use magic_run.Selection.Selected.{chosen, Names}
use magic_run.Selection.Deciding.{IsChosen, from_registry_iff}

implicit-chosen :
    (request : CredentialProfileSelectionRequest) (provider : Option Text)
    (source : CredentialProfileSelectionSource) (profile : CredentialProfileStatus)
    → (ok_or provider missing_provider >>= λ p. ok (
        CredentialProfileSelectionDecision.implicit credential_profile_selection_v1 request.scope p
          request.binding))
      ≡ ok (chosen source profile)
    → ⊥
implicit-chosen request none source profile h = cc
implicit-chosen request (some provider) source profile h = cc

none-chosen :
    (request : CredentialProfileSelectionRequest) (source : CredentialProfileSelectionSource)
    (profile : CredentialProfileStatus)
    → ◌≡◌ {A = Answer CredentialProfileSelectionDecision}
        (ok (none_decision request))
        (ok (chosen source profile))
    → ⊥
none-chosen request source profile h = cc

module _ (request : CredentialProfileSelectionRequest)
    (snapshot : CredentialProfileRegistrySnapshot)
    (is_snapshot : IsSnapshot snapshot.scope snapshot.profiles)
    (source : CredentialProfileSelectionSource) (profile : CredentialProfileStatus) where
  abbrev Named : ValidatedProfileSelection → Type 0
  Named policy = Names policy request.requested_alias profile source

  -- What is done for a policy.
  abbrev branch : ValidatedProfileSelection → Answer CredentialProfileSelectionDecision
  branch ValidatedProfileSelection.nothing = ok (none_decision request)
  branch ValidatedProfileSelection.implicit = implicit_decision request
  branch (ValidatedProfileSelection.selectable default) = from_registry request snapshot
  branch (ValidatedProfileSelection.fixed alias) = from_registry request snapshot

  abbrev Agrees : ValidatedProfileSelection → Type 0
  Agrees policy =
      (branch policy ≡ ok (chosen source profile)) ↔ IsChosen request snapshot source profile

  by_cases_iff : (policy : ValidatedProfileSelection) → request.policy ≡ policy → Agrees policy
  by_cases_iff (ValidatedProfileSelection.selectable default) same =
      from_registry_iff request snapshot is_snapshot source profile
  by_cases_iff (ValidatedProfileSelection.fixed alias) same =
      from_registry_iff request snapshot is_snapshot source profile
  by_cases_iff ValidatedProfileSelection.nothing same =
      (λ h. absurd (none-chosen request source profile h), λ c. absurd (subst Named same c.named))
  by_cases_iff ValidatedProfileSelection.implicit same = (
    λ h. absurd (implicit-chosen request request.provider source profile h),
    λ c. absurd (subst Named same c.named),
  )

select-branch :
    (request : CredentialProfileSelectionRequest) (snapshot : CredentialProfileRegistrySnapshot)
    (is_snapshot : IsSnapshot snapshot.scope snapshot.profiles)
    (source : CredentialProfileSelectionSource) (profile : CredentialProfileStatus)
    (policy : ValidatedProfileSelection)
    → (elim policy [
      | ValidatedProfileSelection.nothing ↦ ok (none_decision request)
      | ValidatedProfileSelection.implicit ↦ implicit_decision request
      | ValidatedProfileSelection.selectable default ↦ from_registry request snapshot
      | ValidatedProfileSelection.fixed alias ↦ from_registry request snapshot
    ])
      ≡ branch request snapshot is_snapshot source profile policy
select-branch request snapshot is_snapshot source profile ValidatedProfileSelection.nothing = refl
select-branch request snapshot is_snapshot source profile ValidatedProfileSelection.implicit = refl
select-branch request snapshot is_snapshot source profile
      (ValidatedProfileSelection.selectable default) =
    refl
select-branch request snapshot is_snapshot source profile (ValidatedProfileSelection.fixed alias) =
    refl

-- From a snapshot that the registry's constructor made, exactly that profile is selected which is
-- enabled, is of the request's scope, provider and binding, and has the alias that was requested,
-- or else the contract's default alias, or else is the registry's default, or has the fixed alias.
pub select_iff :
    (request : CredentialProfileSelectionRequest) (scope : CredentialScope)
    (profiles : List CredentialProfileStatus) (snapshot : CredentialProfileRegistrySnapshot)
    (source : CredentialProfileSelectionSource) (profile : CredentialProfileStatus)
    → snapshot_new scope profiles ≡ ok snapshot
    → (select_credential_profile_from_snapshot request snapshot ≡ ok (chosen source profile))
      ↔ IsChosen request snapshot source profile
unfolding select_credential_profile_from_snapshot
select_iff request scope profiles snapshot source profile made =
    let (same_scope, same_profiles, is_snapshot) =
      snapshot_new-IsSnapshot scope profiles snapshot made in
    let (forth, back) =
      by_cases_iff request snapshot is_snapshot source profile request.policy refl in
    let same = select-branch request snapshot is_snapshot source profile request.policy in
    (λ h. forth (sym same ∙ h), λ c. same ∙ back c)
