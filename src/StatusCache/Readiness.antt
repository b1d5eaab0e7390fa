-- ===== src/StatusCache/Readiness.antt =====
-- What a hit of `lookup` of tool-runtime-core/src/credential_status_cache.rs shows.
use magic_run.Prelude.{
  ℕ, ◌<◌, ◌≡◌, ◌≢◌, refl, Bool, true, Option, none, some, ok, arith, holds→, →holds, ap, subst, ◌↔◌,
}
use magic_run.Credentials.Plans.{
  CredentialLifecycleOperation, Operation-discrete, CredentialLifecyclePlan, Plan-discrete,
  Revision-discrete, selected_profile_revision,
}
use magic_run.Credentials.Paths.{ScopedPath}
use magic_run.Observation.Status.{CredentialIdentityVerification}
use magic_run.StatusCache.State.{
  CredentialStatusCacheEntry, CredentialStatusCacheState, get, cache_target,
}
use magic_run.StatusCache.Operations.{
  CredentialStatusCacheMissReason, hit, is_status_plan, directory_is_valid,
}
use magic_run.StatusCache.Lookups.{miss_reason, found_stage, entry_stage, lookup}
use magic_run.StatusCache.Invariant.{IsWellFormed, IsSound, IsCacheable}
use magic_run.StatusCache.Entries.{All-get}
use magic_run.StatusCache.Places.{
  IsSamePath, same_directory-IsSamePath, IsSamePath-same_directory, IsOwnDirectory,
  directory_is_valid_iff,
}

-- An entry that is stored for exactly this question, and has not expired.
pub record IsFresh (plan : CredentialLifecyclePlan) (directory : ScopedPath) (revision now : ℕ)
    (state : CredentialStatusCacheState) (entry : CredentialStatusCacheEntry) : Type 0 where
  pub plan_agrees : entry.plan ≡ plan
  pub directory_agrees : IsSamePath entry.directory directory
  pub revision_agrees : entry.directory_revision ≡ revision
  pub epoch_agrees : entry.process_epoch ≡ state.process_epoch
  pub policy_agrees : entry.policy_revision ≡ state.policy_revision
  pub unexpired : now < entry.expires_at

module _ (plan : CredentialLifecyclePlan) (directory : ScopedPath) (revision now : ℕ)
    (state : CredentialStatusCacheState) where
  miss_reason-IsFresh :
      (entry : CredentialStatusCacheEntry)
      → miss_reason plan directory revision now state entry ≡ none
      → IsFresh plan directory revision now state entry
  unfolding miss_reason
  miss_reason-IsFresh entry e = record {
    plan_agrees = holds→ (Plan-discrete entry.plan plan) (ground (arith));
    directory_agrees = same_directory-IsSamePath entry.directory directory (ground (arith));
    revision_agrees = ground (arith);
    epoch_agrees = ground (arith);
    policy_agrees = ground (arith);
    unexpired = ground (arith);
  }

  IsFresh-miss_reason :
      (entry : CredentialStatusCacheEntry)
      → IsFresh plan directory revision now state entry
      → miss_reason plan directory revision now state entry ≡ none
  unfolding miss_reason
  IsFresh-miss_reason entry fresh =
      let plans = →holds (Plan-discrete entry.plan plan) fresh.plan_agrees in
      let revisions =
        →holds
          (Revision-discrete (selected_profile_revision entry.plan)
            (selected_profile_revision plan))
          (ap selected_profile_revision fresh.plan_agrees) in
      let places = IsSamePath-same_directory entry.directory directory fresh.directory_agrees in
      let revision_same = fresh.revision_agrees in
      let epoch_same = fresh.epoch_agrees in
      let policy_same = fresh.policy_agrees in let time = fresh.unexpired in ground (arith)

  -- All that a hit with this verification takes.
  pub record IsHit (there : Bool) (verification : CredentialIdentityVerification) : Type 0 where
    pub status : plan.operation ≡ CredentialLifecycleOperation.status
    pub valid : IsOwnDirectory plan.target directory
    pub revalidated : there ≡ true
    pub entry : CredentialStatusCacheEntry
    pub found : get (cache_target plan) state.entries ≡ some entry
    pub fresh : IsFresh plan directory revision now state entry
    pub agrees : entry.identity_verification ≡ verification

  module _ (verification : CredentialIdentityVerification)
      (after : CredentialStatusCacheState) where
    found_stage-hit :
        (entry : CredentialStatusCacheEntry) (reason : Option CredentialStatusCacheMissReason)
        → found_stage plan entry reason state ≡ (ok (hit verification), after)
        → (reason ≡ none) × (entry.identity_verification ≡ verification) × (after ≡ state)
    unfolding found_stage
    found_stage-hit entry none e = (refl, cc, cc)
    found_stage-hit entry (some reason) e = cc

    entry_stage-hit :
        (found : Option CredentialStatusCacheEntry)
        → entry_stage plan directory revision now found state ≡ (ok (hit verification), after)
        → (entry : CredentialStatusCacheEntry) × (found ≡ some entry)
          × IsFresh plan directory revision now state entry
          × (entry.identity_verification ≡ verification)
          × (after ≡ state)
    unfolding entry_stage
    entry_stage-hit none e = cc
    entry_stage-hit (some entry) e =
        let (useful, agrees, kept) = found_stage-hit entry _ e in
        (entry, refl, miss_reason-IsFresh entry useful, agrees, kept)

    lookup_guards :
        (there : Bool)
        → lookup plan directory revision now there state ≡ (ok (hit verification), after)
        → (is_status_plan plan ≡ true)
          × (directory_is_valid plan directory ≡ true)
          × (there ≡ true)
          × (entry_stage plan directory revision now (get (cache_target plan) state.entries) state
              ≡ (ok (hit verification), after))
    unfolding lookup is_status_plan
    lookup_guards there e = ground (arith)

    lookup-IsHit :
        (there : Bool)
        → lookup plan directory revision now there state ≡ (ok (hit verification), after)
        → (after ≡ state) × IsHit there verification
    unfolding is_status_plan
    lookup-IsHit there e =
        let (status, valid, revalidated, answer) = lookup_guards there e in
        let (entry, found, fresh, agrees, kept) = entry_stage-hit _ answer in
        (
          kept,
          record {
            status = holds→ (Operation-discrete plan.operation _) status;
            valid = (directory_is_valid_iff plan directory).0 valid;
            revalidated = revalidated;
            entry = entry;
            found = found;
            fresh = fresh;
            agrees = agrees;
          },
        )

    IsHit-lookup :
        (there : Bool)
        → (after ≡ state) × IsHit there verification
        → lookup plan directory revision now there state ≡ (ok (hit verification), after)
    unfolding lookup is_status_plan entry_stage found_stage
    IsHit-lookup there (kept, h) =
        rw
          (
            →holds (Operation-discrete plan.operation _) h.status,
            (directory_is_valid_iff plan directory).1 h.valid,
            h.revalidated,
            h.found,
            IsFresh-miss_reason h.entry h.fresh,
            h.agrees,
            kept,
          )
          refl

-- A lookup answers with a hit exactly when the plan is a status plan, the directory belongs to
-- its target and still stands, and the cache holds an entry for that target which is stored for
-- this whole plan, this directory identity and revision, the cache's epoch and policy, and has
-- not expired. The hit tells the entry's verification, and changes nothing.
pub lookup_hit_iff :
    (plan : CredentialLifecyclePlan) (directory : ScopedPath) (revision now : ℕ) (there : Bool)
    (state after : CredentialStatusCacheState) (verification : CredentialIdentityVerification)
    → (lookup plan directory revision now there state ≡ (ok (hit verification), after))
      ↔ ((after ≡ state) × IsHit plan directory revision now state there verification)
lookup_hit_iff plan directory revision now there state after verification = (
  lookup-IsHit plan directory revision now state verification after there,
  IsHit-lookup plan directory revision now state verification after there,
)

-- In a well-formed state a hit is a verified one, under a key that is present.
hit-IsCacheable :
    (plan : CredentialLifecyclePlan) (directory : ScopedPath) (revision now : ℕ) (there : Bool)
    (state : CredentialStatusCacheState) (verification : CredentialIdentityVerification)
    → IsWellFormed state
    → IsHit plan directory revision now state there verification
    → IsCacheable verification
hit-IsCacheable plan directory revision now there state verification wf h =
    let sound =
      All-get (IsSound state.process_epoch state.policy_revision) (cache_target plan) state.entries
        h.entry wf.sound h.found in
    subst IsCacheable h.agrees sound.cacheable

miss_reason-epoch :
    (plan : CredentialLifecyclePlan) (directory : ScopedPath) (revision now : ℕ)
    (state : CredentialStatusCacheState) (entry : CredentialStatusCacheEntry)
    → entry.process_epoch ≡ state.process_epoch
    → entry.policy_revision ≡ state.policy_revision
    → (miss_reason plan directory revision now state entry
        ≢ some CredentialStatusCacheMissReason.process_epoch_changed)
      × (miss_reason plan directory revision now state entry
          ≢ some CredentialStatusCacheMissReason.policy_changed)
unfolding miss_reason
miss_reason-epoch plan directory revision now state entry epoch policy =
    (λ e. ground (arith), λ e. ground (arith))
