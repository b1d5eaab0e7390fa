-- ===== src/StatusCache/Operations.antt =====
-- The operations of the verified-status cache of
-- tool-runtime-core/src/credential_status_cache.rs, each with the state that it leaves. The lock
-- is not poisoned, since nothing that runs under it panics; each operation holds it once.
use magic_run.Prelude.{
  ℕ, Bool, true, false, ◌&&◌, not, Option, none, some, Result, ok, err, guard, ◌>>◌, ltb, leb, ◌==◌,
  keep, length, holds, is_some, if◌then◌else◌,
}
use magic_run.Manifest.Auth.{AuthState}
use magic_run.Manifest.Equality.{AuthState-discrete}
use magic_run.Credentials.Keys.{CredentialScope-discrete, Selected-discrete}
use magic_run.Credentials.Plans.{
  CredentialLifecyclePlan, CredentialLifecycleOperation, Operation-discrete, Plan-discrete,
  selected_profile_key, implicit_identity, scope,
}
use magic_run.Credentials.Paths.{ScopedPath, ScopedPathKind, Kind-discrete, kind, profile_key}
use magic_run.StatusCache.Error.{CredentialStatusCacheError}
use magic_run.StatusCache.Errors.{
  wrong_operation, directory_target_mismatch, directory_unavailable, observation_plan_mismatch,
  uncacheable_status, invalid_ttl, stale_observation, capacity_exceeded,
}
use magic_run.Observation.Status.{CredentialIdentityVerification, CredentialLifecycleStatusResult}
use magic_run.StatusCache.State.{
  CredentialStatusCacheTarget, CredentialStatusObservationTicket, CredentialStatusCacheEntry,
  CredentialStatusCacheState, max_credential_status_cache_entries, remove, insert, contains_key,
  advance_mutation_generation, cache_target,
}

abbrev pub Outcome : Type 0 → Type 0
Outcome A = Result CredentialStatusCacheError A × CredentialStatusCacheState

pub data CredentialStatusCacheMissReason : Type 0 where
  absent expired process_epoch_changed policy_changed : CredentialStatusCacheMissReason
  profile_revision_changed lifecycle_contract_changed : CredentialStatusCacheMissReason
  directory_revision_changed directory_changed : CredentialStatusCacheMissReason

pub data CredentialStatusCacheLookup : Type 0 where
  hit : CredentialIdentityVerification → CredentialStatusCacheLookup
  miss : CredentialStatusCacheMissReason → CredentialStatusCacheLookup

unfoldable pub is_status_plan : CredentialLifecyclePlan → Bool
is_status_plan plan = holds (Operation-discrete plan.operation CredentialLifecycleOperation.status)

unfoldable pub ensure_status_plan :
    CredentialLifecyclePlan → Result CredentialStatusCacheError (Unit {0})
ensure_status_plan plan = guard (is_status_plan plan) wrong_operation

unfoldable pub directory_is_valid : CredentialLifecyclePlan → ScopedPath → Bool
directory_is_valid plan directory = elim (selected_profile_key plan) [
  | some key ↦
      holds (Kind-discrete (kind directory) ScopedPathKind.credential_profile)
      && holds (Selected-discrete (profile_key directory) (some key))
  | none ↦
      is_some (implicit_identity plan)
      && holds (Kind-discrete (kind directory) ScopedPathKind.auth)
      && holds (CredentialScope-discrete directory.scope (scope plan))
]

unfoldable pub validate_directory_target :
    CredentialLifecyclePlan → ScopedPath → Result CredentialStatusCacheError (Unit {0})
validate_directory_target plan directory =
    guard (directory_is_valid plan directory) directory_target_mismatch

abbrev pub ticket_of :
    CredentialLifecyclePlan
    → ScopedPath
    → ℕ
    → CredentialStatusCacheState
    → CredentialStatusObservationTicket
ticket_of plan directory directory_revision state = record {
  process_epoch = state.process_epoch;
  policy_revision = state.policy_revision;
  mutation_generation = state.mutation_generation;
  target = cache_target plan;
  plan = plan;
  directory = directory;
  directory_revision = directory_revision;
}

unfoldable pub begin_observation :
    CredentialLifecyclePlan
    → ScopedPath
    → ℕ
    → Bool
    → CredentialStatusCacheState
    → Result CredentialStatusCacheError CredentialStatusObservationTicket
begin_observation plan directory directory_revision revalidated state = do
  ensure_status_plan plan
  validate_directory_target plan directory
  guard revalidated directory_unavailable
  ok (ticket_of plan directory directory_revision state)

unfoldable pub invalidate_target :
    CredentialStatusCacheTarget → CredentialStatusCacheState → Bool × CredentialStatusCacheState
invalidate_target target state = (
  contains_key target state.entries,
  advance_mutation_generation (record state { entries = remove target state.entries }),
)

abbrev pub is_cacheable : CredentialIdentityVerification → Bool
is_cacheable CredentialIdentityVerification.not_declared = true
is_cacheable CredentialIdentityVerification.matched = true
is_cacheable _ = false

-- The ticket is of the cache's present epoch, policy and generation.
unfoldable pub is_current : CredentialStatusObservationTicket → CredentialStatusCacheState → Bool
is_current ticket state =
    state.process_epoch == ticket.process_epoch
    && state.policy_revision == ticket.policy_revision
    && state.mutation_generation == ticket.mutation_generation

abbrev pub entry_of :
    CredentialStatusObservationTicket
    → CredentialIdentityVerification
    → ℕ
    → CredentialStatusCacheState
    → CredentialStatusCacheEntry
entry_of ticket verification expires_at state = record {
  process_epoch = state.process_epoch;
  policy_revision = state.policy_revision;
  plan = ticket.plan;
  directory = ticket.directory;
  directory_revision = ticket.directory_revision;
  identity_verification = verification;
  expires_at = expires_at;
}

-- The part of `store_ready` under the lock.
unfoldable pub publish :
    CredentialStatusObservationTicket
    → CredentialIdentityVerification
    → ℕ
    → ℕ
    → CredentialStatusCacheState
    → Outcome (Unit {0})
publish ticket verification observed_at expires_at state =
    let live = keep (λ e. ltb observed_at e.1.expires_at) state.entries in
    if not (is_current ticket state)
    then (err stale_observation, state)
    else if not (contains_key ticket.target live)
        && leb max_credential_status_cache_entries (length live)
    then (err capacity_exceeded, record state { entries = live })
    else (
      ok tt,
      record state {
        entries = insert ticket.target (entry_of ticket verification expires_at state) live;
      },
    )

-- With the sum of the instant and the time to live, `none` where it overflows.
unfoldable pub store_ready :
    CredentialStatusObservationTicket
    → CredentialLifecycleStatusResult
    → ℕ
    → Option ℕ
    → Bool
    → CredentialStatusCacheState
    → Outcome (Unit {0})
store_ready ticket result observed_at expires_at revalidated state =
    if not (holds (Plan-discrete result.plan ticket.plan))
    then (err observation_plan_mismatch, state)
    else if not (
        holds (AuthState-discrete result.state AuthState.ready)
        && is_cacheable result.identity_verification)
    then (err uncacheable_status, state)
    else if not revalidated
    then (err directory_unavailable, (invalidate_target ticket.target state).1)
    else elim expires_at [
      | none ↦ (err invalid_ttl, state)
      | some e ↦ publish ticket result.identity_verification observed_at e state
    ]
