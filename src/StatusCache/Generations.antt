-- ===== src/StatusCache/Generations.antt =====
-- The mutation generation of tool-runtime-core/src/credential_status_cache.rs only grows, and an
-- observation that began before an invalidation is never published after it.
use magic_run.Prelude.{
  ℕ, ◌+◌, ◌^◌, ◌≤◌, ◌<◌, ◌≡◌, ◌≢◌, ◌⊎◌, ap, Bool, false, Option, none, some, List, [], ◌∷◌, ok,
  arith, length,
}
use magic_run.Credentials.Plans.{CredentialLifecyclePlan}
use magic_run.Credentials.Paths.{ScopedPath}
use magic_run.Observation.Status.{CredentialLifecycleStatusResult}
use magic_run.StatusCache.State.{
  CredentialStatusCacheTarget, CredentialStatusObservationTicket, CredentialStatusCacheState,
  CredentialStatusCacheEntry, get, advance_mutation_generation, cache_target,
}
use magic_run.StatusCache.Operations.{
  Outcome, CredentialStatusCacheMissReason, is_current, is_status_plan, begin_observation,
  invalidate_target, publish, store_ready,
}
use magic_run.StatusCache.Lookups.{
  found_stage, entry_stage, lookup, invalidate_after_auth_failure,
  invalidate_after_lifecycle_mutation, invalidate_after_lifecycle_mutation_for_process_epoch,
  invalidate_directory, replace_process_epoch, replace_policy_revision,
}
use magic_run.StatusCache.Runs.{
  Operation, store, look_up, auth_failure, mutation, mutation_for_epoch, directory_change,
  epoch_change, policy_change, step, run,
}
use magic_run.StatusCache.Tickets.{begin_observation-ticket_of}

-- The generation stays, or moves on by one.
abbrev Moves : CredentialStatusCacheState → CredentialStatusCacheState → Type 0
Moves state after =
    (state.mutation_generation ≤ after.mutation_generation)
    × (after.mutation_generation ≤ state.mutation_generation + 1)

advance_lem :
    (state : CredentialStatusCacheState)
    → state.mutation_generation + 1 < 2 ^ 64
    → (advance_mutation_generation state).mutation_generation ≡ state.mutation_generation + 1
unfolding advance_mutation_generation
advance_lem state room = ground (arith)

invalidate_target_lem :
    (target : CredentialStatusCacheTarget) (state : CredentialStatusCacheState)
    → state.mutation_generation + 1 < 2 ^ 64
    → (invalidate_target target state).1.mutation_generation ≡ state.mutation_generation + 1
unfolding invalidate_target
invalidate_target_lem target state room = advance_lem _ room

invalidate_directory_lem :
    (directory : ScopedPath) (state : CredentialStatusCacheState)
    → state.mutation_generation + 1 < 2 ^ 64
    → (invalidate_directory directory state).1.mutation_generation ≡ state.mutation_generation + 1
unfolding invalidate_directory
invalidate_directory_lem directory state room = advance_lem _ room

store_ready-Moves :
    (ticket : CredentialStatusObservationTicket) (result : CredentialLifecycleStatusResult)
    (observed_at : ℕ) (expires_at : Option ℕ) (there : Bool) (state : CredentialStatusCacheState)
    → state.mutation_generation + 1 < 2 ^ 64
    → Moves state (store_ready ticket result observed_at expires_at there state).1
unfolding store_ready publish
store_ready-Moves ticket result observed_at none there state room =
    let gone = invalidate_target_lem ticket.target state room in ground (arith)
store_ready-Moves ticket result observed_at (some e) there state room =
    let gone = invalidate_target_lem ticket.target state room in ground (arith)

module _ (plan : CredentialLifecyclePlan) (directory : ScopedPath) (revision now : ℕ)
    (state : CredentialStatusCacheState) (room : state.mutation_generation + 1 < 2 ^ 64) where
  found_stage-Moves :
      (entry : CredentialStatusCacheEntry) (reason : Option CredentialStatusCacheMissReason)
      → Moves state (found_stage plan entry reason state).1
  unfolding found_stage
  found_stage-Moves entry none = (omega arith, omega arith)
  found_stage-Moves entry (some reason) =
      let gone = invalidate_target_lem (cache_target plan) state room in (omega arith, omega arith)

  entry_stage-Moves :
      (found : Option CredentialStatusCacheEntry)
      → Moves state (entry_stage plan directory revision now found state).1
  unfolding entry_stage
  entry_stage-Moves none = (omega arith, omega arith)
  entry_stage-Moves (some entry) = found_stage-Moves entry _

  lookup-Moves : (there : Bool) → Moves state (lookup plan directory revision now there state).1
  unfolding lookup
  lookup-Moves there =
      let gone = invalidate_target_lem (cache_target plan) state room in
      let found = entry_stage-Moves (get (cache_target plan) state.entries) in ground (arith)

step-Moves :
    (operation : Operation) (state : CredentialStatusCacheState)
    → state.mutation_generation + 1 < 2 ^ 64
    → Moves state (step operation state)
unfolding step invalidate_after_auth_failure invalidate_after_lifecycle_mutation
    invalidate_after_lifecycle_mutation_for_process_epoch invalidate_directory replace_process_epoch
    replace_policy_revision
step-Moves (store ticket result observed_at expires_at there) state room =
    store_ready-Moves ticket result observed_at expires_at there state room
step-Moves (look_up plan directory revision now there) state room =
    lookup-Moves plan directory revision now state room there
step-Moves (auth_failure plan) state room =
    let gone = invalidate_target_lem (cache_target plan) state room in (omega arith, omega arith)
step-Moves (mutation plan) state room =
    let gone = invalidate_target_lem (cache_target plan) state room in ground (arith)
step-Moves (mutation_for_epoch plan epoch) state room =
    let gone = invalidate_target_lem (cache_target plan) state room in ground (arith)
step-Moves (directory_change directory) state room =
    let moved = invalidate_directory_lem directory state room in (omega arith, omega arith)
step-Moves (epoch_change epoch) state room =
    let moved =
      advance_lem
        (record {
          process_epoch = epoch;
          policy_revision = state.policy_revision;
          mutation_generation = state.mutation_generation;
          entries = [];
        })
        room in
    ground (arith)
step-Moves (policy_change policy) state room =
    let moved =
      advance_lem
        (record {
          process_epoch = state.process_epoch;
          policy_revision = policy;
          mutation_generation = state.mutation_generation;
          entries = [];
        })
        room in
    ground (arith)

run_bounds :
    (operations : List Operation) (state : CredentialStatusCacheState)
    → state.mutation_generation + length operations < 2 ^ 64
    → (state.mutation_generation ≤ (run operations state).mutation_generation)
      × ((run operations state).mutation_generation ≤ state.mutation_generation + length operations)
unfolding run
run_bounds [] state room = (omega arith, omega arith)
run_bounds (operation ∷ rest) state room =
    let (up, by_one) = step-Moves operation state (omega arith) in
    let (low, high) = run_bounds rest (step operation state) (omega arith) in
    (omega arith, omega arith)

-- The operations that take readiness away, whatever the state.
abbrev pub IsInvalidation : Operation → Type 0
IsInvalidation (auth_failure plan) = Unit
IsInvalidation (mutation plan) = is_status_plan plan ≡ false
IsInvalidation (directory_change directory) = Unit
IsInvalidation _ = ⊥

invalidation_moves :
    (operation : Operation) (state : CredentialStatusCacheState)
    → IsInvalidation operation
    → state.mutation_generation + 1 < 2 ^ 64
    → (step operation state).mutation_generation ≡ state.mutation_generation + 1
unfolding step invalidate_after_auth_failure invalidate_after_lifecycle_mutation
invalidation_moves (auth_failure plan) state h room =
    invalidate_target_lem (cache_target plan) state room
invalidation_moves (mutation plan) state h room =
    let gone = invalidate_target_lem (cache_target plan) state room in ground (arith)
invalidation_moves (directory_change directory) state h room =
    invalidate_directory_lem directory state room
invalidation_moves (store _ _ _ _ _) state h room = absurd h
invalidation_moves (look_up _ _ _ _ _) state h room = absurd h
invalidation_moves (mutation_for_epoch _ _) state h room = absurd h
invalidation_moves (epoch_change _) state h room = absurd h
invalidation_moves (policy_change _) state h room = absurd h

-- A ticket of another generation publishes nothing.
store_ready_stale :
    (ticket : CredentialStatusObservationTicket) (result : CredentialLifecycleStatusResult)
    (observed_at : ℕ) (expires_at : Option ℕ) (there : Bool) (state : CredentialStatusCacheState)
    → ticket.mutation_generation < state.mutation_generation
    → ((store_ready ticket result observed_at expires_at there state).0 ≢ ok tt)
      × (((store_ready ticket result observed_at expires_at there state).1 ≡ state)
          ⊎ ((store_ready ticket result observed_at expires_at there state).1
              ≡ (invalidate_target ticket.target state).1))
unfolding store_ready publish is_current
store_ready_stale ticket result observed_at none there state older =
    (λ e. ground (arith), ground (arith))
store_ready_stale ticket result observed_at (some e) there state older =
    (λ e. ground (arith), ground (arith))

-- Take any cache state, a status probe that begins at it, any operations, an invalidation (an
-- authentication failure, a login, logout or refresh, or a change of a directory), and again any
-- operations, fewer together than the generations that are left. Whatever the probe then reports,
-- and whenever, publishing it fails, and leaves the cache as it is or with less in it.
pub begin-store_ready_stale :
    (plan : CredentialLifecyclePlan) (directory : ScopedPath) (revision : ℕ) (there : Bool)
    (state : CredentialStatusCacheState) (ticket : CredentialStatusObservationTicket)
    (earlier later : List Operation) (invalidation : Operation)
    (result : CredentialLifecycleStatusResult) (observed_at : ℕ) (expires_at : Option ℕ)
    (still_there : Bool)
    → begin_observation plan directory revision there state ≡ ok ticket
    → IsInvalidation invalidation
    → state.mutation_generation + length earlier + 1 + length later < 2 ^ 64
    → let now : CredentialStatusCacheState = run later (step invalidation (run earlier state)) in
      let stored : Outcome (Unit {0}) =
        store_ready ticket result observed_at expires_at still_there now in
      (stored.0 ≢ ok tt) × ((stored.1 ≡ now) ⊎ (stored.1 ≡ (invalidate_target ticket.target now).1))
begin-store_ready_stale plan directory revision there state ticket earlier later invalidation result
      observed_at expires_at still_there begun invalid room =
    let (status, same) = begin_observation-ticket_of plan directory revision there state begun in
    let generation : state.mutation_generation ≡ ticket.mutation_generation =
      ap (λ t. t.mutation_generation) same in
    let (low, high) = run_bounds earlier state (omega arith) in
    let moved = invalidation_moves invalidation (run earlier state) invalid (omega arith) in
    let (kept, most) = run_bounds later (step invalidation (run earlier state)) (omega arith) in
    store_ready_stale ticket result observed_at expires_at still_there
      (run later (step invalidation (run earlier state))) (omega arith)
