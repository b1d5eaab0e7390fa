-- ===== src/Selection/Selected.antt =====
-- Which profile tool-runtime-core/src/profile_selection.rs selects from a snapshot.
use magic_run.Prelude.{
  ◌≡◌, ◌↔◌, refl, sym, ap, ◌∙◌, Bool, true, false, ◌&&◌, Option, none, some, List, arith, Text,
  Text-discrete, ok, err, ok_or, ◌>>=◌, find, keep, holds, holds→, bind_inversion, ok_or_inversion,
  if◌then◌else◌,
}
use magic_run.Prelude.Sorting.{IsPairwise}
use magic_run.Prelude.Finding.{In, Excludes, picked_iff, IsPairwise-map}
use magic_run.Credentials.Keys.{CredentialProfileKey}
use magic_run.Credentials.Profiles.{CredentialProfileStatus}
use magic_run.Credentials.Registry.{
  CredentialProfileRegistrySnapshot, Group, Group-discrete, group_of, is_disabled,
}
use magic_run.Credentials.Snapshots.{IsSnapshot, HaveKeys, ShareDefault}
use magic_run.Selection.Error.{CredentialProfileSelectionError}
use magic_run.Selection.Errors.{profile_disabled}
use magic_run.Selection.Request.{
  ValidatedProfileSelection, CredentialProfileSelectionDecision, CredentialProfileSelectionSource,
  credential_profile_selection_v1,
}
use magic_run.Selection.Choice.{Answer, readiness, selected_decision}

abbrev pub chosen :
    CredentialProfileSelectionSource → CredentialProfileStatus → CredentialProfileSelectionDecision
chosen source profile =
    CredentialProfileSelectionDecision.selected credential_profile_selection_v1 source
      (readiness profile.auth_state) profile

-- The profile that a policy and a requested alias name, and where the name is from.
abbrev pub Names :
    ValidatedProfileSelection
    → Option Text
    → CredentialProfileStatus
    → CredentialProfileSelectionSource
    → Type 0
Names (ValidatedProfileSelection.selectable default) (some alias) profile source =
    (profile.metadata.key.alias ≡ alias) × (source ≡ CredentialProfileSelectionSource.requested)
Names (ValidatedProfileSelection.selectable (some alias)) none profile source =
    (profile.metadata.key.alias ≡ alias)
    × (source ≡ CredentialProfileSelectionSource.contract_default)
Names (ValidatedProfileSelection.selectable none) none profile source =
    (profile.metadata.is_default ≡ true)
    × (source ≡ CredentialProfileSelectionSource.registry_default)
Names (ValidatedProfileSelection.fixed alias) requested profile source =
    (profile.metadata.key.alias ≡ alias) × (source ≡ CredentialProfileSelectionSource.fixed)
Names ValidatedProfileSelection.nothing requested profile source = ⊥
Names ValidatedProfileSelection.implicit requested profile source = ⊥

decision_parts :
    (picked profile : CredentialProfileStatus) (from source : CredentialProfileSelectionSource)
    (off : Bool)
    → ◌≡◌ {A = Answer CredentialProfileSelectionDecision}
        (if off then err profile_disabled else ok (chosen from picked))
        (ok (chosen source profile))
    → (picked ≡ profile) × (source ≡ from) × (off ≡ false)
decision_parts picked profile from source true h = cc
decision_parts picked profile from source false h = (cc, cc, refl)

selected_decision_iff :
    (picked profile : CredentialProfileStatus) (from source : CredentialProfileSelectionSource)
    → (selected_decision picked from ≡ ok (chosen source profile))
      ↔ ((picked ≡ profile) × (source ≡ from) × (is_disabled profile.metadata.availability ≡ false))
unfolding selected_decision
selected_decision_iff picked profile from source = (
  λ h.
      let (same, origin, enabled) =
        decision_parts picked profile from source (is_disabled picked.metadata.availability) h in
      (same, origin, sym (ap (λ p. is_disabled p.metadata.availability) same) ∙ enabled),
  λ h.
      let (same, origin, enabled) = h in
      let on = ap (λ p. is_disabled p.metadata.availability) same ∙ enabled in
      rw on (ap ok (ap (λ s. chosen s picked) (sym origin) ∙ ap (chosen source) same)),
)

module _ (profiles : List CredentialProfileStatus) (test within : CredentialProfileStatus → Bool)
    (failure : CredentialProfileSelectionError)
    (only : IsPairwise (Excludes (λ y. within y && test y)) profiles) where
  -- The one profile that passes both tests.
  abbrev pub Picked : CredentialProfileStatus → Type 0
  Picked profile = In profiles profile × ((within profile && test profile) ≡ true)

  pub picks_iff :
      (from source : CredentialProfileSelectionSource) (profile : CredentialProfileStatus)
      → ((ok_or (find test (keep within profiles)) failure >>= λ picked.
            selected_decision picked from)
          ≡ ok (chosen source profile))
        ↔ (Picked profile × (source ≡ from) × (is_disabled profile.metadata.availability ≡ false))
  picks_iff from source profile = (
    λ h.
        let (picked, one, two) =
          bind_inversion (ok_or (find test (keep within profiles)) failure)
            (λ picked. selected_decision picked from) h in
        let (same, origin, enabled) = (selected_decision_iff picked profile from source).0 two in
        let found = ok_or_inversion (find test (keep within profiles)) failure one ∙ ap some same in
        ((picked_iff test within profiles profile only).0 found, origin, enabled),
    λ h.
        let (picked, origin, enabled) = h in
        let found = (picked_iff test within profiles profile only).1 picked in
        rw found ((selected_decision_iff profile profile from source).1 (refl, origin, enabled)),
  )

module _ (snapshot : CredentialProfileRegistrySnapshot)
    (is_snapshot : IsSnapshot snapshot.scope snapshot.profiles) (group : Group) where
  abbrev pub in_group : CredentialProfileStatus → Bool
  in_group profile = holds (Group-discrete (group_of profile) group)

  abbrev pub has_alias : Text → CredentialProfileStatus → Bool
  has_alias alias profile = holds (Text-discrete profile.metadata.key.alias alias)

  key_ext :
      (a b : CredentialProfileKey)
      → a.scope ≡ b.scope
      → a.provider ≡ b.provider
      → a.binding ≡ b.binding
      → a.alias ≡ b.alias
      → a ≡ b
  key_ext a b s p d l = cc

  same_group :
      (a b : CredentialProfileStatus)
      → in_group a ≡ true
      → in_group b ≡ true
      → group_of a ≡ group_of b
  same_group a b x y =
      holds→ (Group-discrete (group_of a) group) x
      ∙ sym (holds→ (Group-discrete (group_of b) group) y)

  pub both : (x y : Bool) → (x && y) ≡ true → (x ≡ true) × (y ≡ true)
  both x y h = (ground (arith), ground (arith))

  pub one_alias :
      (alias : Text)
      → IsPairwise (Excludes (λ y. in_group y && has_alias alias y)) snapshot.profiles
  one_alias alias =
      IsPairwise-map (λ p. p.metadata.key.scope ≡ snapshot.scope) HaveKeys _
        (λ a b sa sb differ x y.
          let (ga, la) = both (in_group a) (has_alias alias a) x in
          let (gb, lb) = both (in_group b) (has_alias alias b) y in
          let group_same = same_group a b ga gb in
          let alias_same =
            holds→ (Text-discrete a.metadata.key.alias alias) la
            ∙ sym (holds→ (Text-discrete b.metadata.key.alias alias) lb) in
          differ (
            key_ext a.metadata.key b.metadata.key (sa ∙ sym sb) (ap (λ g. g.0) group_same)
              (ap (λ g. g.1) group_same) alias_same))
        snapshot.profiles is_snapshot.scoped is_snapshot.distinct

  pub one_default :
      IsPairwise (Excludes (λ y. in_group y && y.metadata.is_default)) snapshot.profiles
  one_default =
      IsPairwise-map (λ p. p.metadata.key.scope ≡ snapshot.scope) ShareDefault _
        (λ a b sa sb differ x y.
          let (ga, da) = both (in_group a) a.metadata.is_default x in
          let (gb, db) = both (in_group b) b.metadata.is_default y in
          differ da db (same_group a b ga gb))
        snapshot.profiles is_snapshot.scoped is_snapshot.one_default
