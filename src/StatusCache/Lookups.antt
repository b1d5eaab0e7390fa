-- ===== src/StatusCache/Lookups.antt =====
-- Lookups and invalidations of the verified-status cache of
-- tool-runtime-core/src/credential_status_cache.rs, and the runs of its operations.
use magic_run.Prelude.{
  ℕ, ◌-◌, Bool, not, Option, none, some, [], ok, err, leb, ◌==◌, keep, length, holds, if◌then◌else◌,
}
use magic_run.Credentials.Plans.{
  CredentialLifecyclePlan, Plan-discrete, Revision-discrete, selected_profile_revision,
}
use magic_run.Credentials.Paths.{ScopedPath, has_same_directory_identity}
use magic_run.StatusCache.Errors.{
  wrong_operation, directory_target_mismatch, process_epoch_mismatch,
}
use magic_run.StatusCache.State.{
  CredentialStatusCacheEntry, CredentialStatusCacheState, get, advance_mutation_generation,
  cache_target,
}
use magic_run.StatusCache.Operations.{
  Outcome, CredentialStatusCacheMissReason, CredentialStatusCacheLookup, hit, miss, is_status_plan,
  directory_is_valid, invalidate_target,
}

-- What makes an entry useless, in the order of the code.
unfoldable pub miss_reason :
    CredentialLifecyclePlan
    → ScopedPath
    → ℕ
    → ℕ
    → CredentialStatusCacheState
    → CredentialStatusCacheEntry
    → Option CredentialStatusCacheMissReason
miss_reason plan directory directory_revision now state entry =
    if leb entry.expires_at now
    then some CredentialStatusCacheMissReason.expired
    else if not (entry.process_epoch == state.process_epoch)
    then some CredentialStatusCacheMissReason.process_epoch_changed
    else if not (entry.policy_revision == state.policy_revision)
    then some CredentialStatusCacheMissReason.policy_changed
    else if not (
        holds (
          Revision-discrete (selected_profile_revision entry.plan)
            (selected_profile_revision plan)))
    then some CredentialStatusCacheMissReason.profile_revision_changed
    else if not (holds (Plan-discrete entry.plan plan))
    then some CredentialStatusCacheMissReason.lifecycle_contract_changed
    else if not (entry.directory_revision == directory_revision)
    then some CredentialStatusCacheMissReason.directory_revision_changed
    else if not (has_same_directory_identity entry.directory directory)
    then some CredentialStatusCacheMissReason.directory_changed
    else none

unfoldable pub found_stage :
    CredentialLifecyclePlan
    → CredentialStatusCacheEntry
    → Option CredentialStatusCacheMissReason
    → CredentialStatusCacheState
    → Outcome CredentialStatusCacheLookup
found_stage plan entry none state = (ok (hit entry.identity_verification), state)
found_stage plan entry (some reason) state =
    (ok (miss reason), (invalidate_target (cache_target plan) state).1)

unfoldable pub entry_stage :
    CredentialLifecyclePlan
    → ScopedPath
    → ℕ
    → ℕ
    → Option CredentialStatusCacheEntry
    → CredentialStatusCacheState
    → Outcome CredentialStatusCacheLookup
entry_stage plan directory directory_revision now none state =
    (ok (miss CredentialStatusCacheMissReason.absent), state)
entry_stage plan directory directory_revision now (some entry) state =
    found_stage plan entry (miss_reason plan directory directory_revision now state entry) state

unfoldable pub lookup :
    CredentialLifecyclePlan
    → ScopedPath
    → ℕ
    → ℕ
    → Bool
    → CredentialStatusCacheState
    → Outcome CredentialStatusCacheLookup
lookup plan directory directory_revision now revalidated state =
    if not (is_status_plan plan)
    then (err wrong_operation, state)
    else if not (directory_is_valid plan directory)
    then (err directory_target_mismatch, state)
    else if not revalidated
    then (
      ok (miss CredentialStatusCacheMissReason.directory_changed),
      (invalidate_target (cache_target plan) state).1,
    )
    else entry_stage plan directory directory_revision now (get (cache_target plan) state.entries)
        state

unfoldable pub invalidate_after_auth_failure :
    CredentialLifecyclePlan → CredentialStatusCacheState → Outcome Bool
invalidate_after_auth_failure plan state =
    let (removed, after) = invalidate_target (cache_target plan) state in (ok removed, after)

unfoldable pub invalidate_after_lifecycle_mutation :
    CredentialLifecyclePlan → CredentialStatusCacheState → Outcome Bool
invalidate_after_lifecycle_mutation plan state =
    let (removed, after) = invalidate_target (cache_target plan) state in
    if is_status_plan plan then (err wrong_operation, state) else (ok removed, after)

unfoldable pub invalidate_after_lifecycle_mutation_for_process_epoch :
    CredentialLifecyclePlan → ℕ → CredentialStatusCacheState → Outcome Bool
invalidate_after_lifecycle_mutation_for_process_epoch plan expected_process_epoch state =
    let (removed, after) = invalidate_target (cache_target plan) state in
    if is_status_plan plan
    then (err wrong_operation, state)
    else if not (state.process_epoch == expected_process_epoch)
    then (err process_epoch_mismatch, state)
    else (ok removed, after)

unfoldable pub invalidate_directory : ScopedPath → CredentialStatusCacheState → Outcome ℕ
invalidate_directory directory state =
    let kept =
      keep (λ e. not (has_same_directory_identity e.1.directory directory)) state.entries in
    (
      ok (length state.entries - length kept),
      advance_mutation_generation (record state { entries = kept }),
    )

unfoldable pub replace_process_epoch : ℕ → CredentialStatusCacheState → Outcome ℕ
replace_process_epoch process_epoch state =
    if state.process_epoch == process_epoch then (ok 0, state) else (
      ok (length state.entries),
      advance_mutation_generation (record state { process_epoch = process_epoch; entries = [] }),
    )

unfoldable pub replace_policy_revision : ℕ → CredentialStatusCacheState → Outcome ℕ
replace_policy_revision policy_revision state =
    if state.policy_revision == policy_revision then (ok 0, state) else (
      ok (length state.entries),
      advance_mutation_generation
          (record state { policy_revision = policy_revision; entries = [] }),
    )
