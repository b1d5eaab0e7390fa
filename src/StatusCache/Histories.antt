-- ===== src/StatusCache/Histories.antt =====
-- Every history of the cache of tool-runtime-core/src/credential_status_cache.rs keeps its
-- invariant.
use magic_run.Prelude.{ℕ, ◌≡◌, true, List, [], ◌∷◌, ok, arith, All, ◌==◌, Bool-cases, inl, inr}
use magic_run.Credentials.Plans.{CredentialLifecyclePlan}
use magic_run.Credentials.Paths.{ScopedPath}
use magic_run.StatusCache.State.{CredentialStatusCacheState, cache_new, cache_target}
use magic_run.StatusCache.Operations.{is_status_plan, begin_observation}
use magic_run.StatusCache.Lookups.{
  invalidate_after_auth_failure, invalidate_after_lifecycle_mutation,
  invalidate_after_lifecycle_mutation_for_process_epoch, invalidate_directory,
  replace_process_epoch, replace_policy_revision,
}
use magic_run.StatusCache.Runs.{
  Operation, store, look_up, auth_failure, mutation, mutation_for_epoch, directory_change,
  epoch_change, policy_change, step, run,
}
use magic_run.StatusCache.Invariant.{
  IsWellFormed, cache_new-IsWellFormed, advance-IsWellFormed, kept-IsWellFormed,
  invalidate_target-IsWellFormed, store_ready-IsWellFormed, lookup-IsWellFormed,
}
use magic_run.StatusCache.Tickets.{begin_observation-IsTicket}

-- An observation that is stored has a ticket that `begin_observation` gave, at whatever state.
abbrev pub IsIssued : Operation → Type 0
IsIssued (store ticket _ _ _ _) =
    (plan : CredentialLifecyclePlan) × (directory : ScopedPath) × (revision : ℕ)
    × (state : CredentialStatusCacheState) × (begin_observation plan directory revision true state
        ≡ ok ticket)
IsIssued _ = Unit

emptied-IsWellFormed :
    (epoch policy : ℕ) (state : CredentialStatusCacheState)
    → IsWellFormed state
    → IsWellFormed (record {
      process_epoch = epoch;
      policy_revision = policy;
      mutation_generation = state.mutation_generation;
      entries = [];
    })
emptied-IsWellFormed epoch policy state wf = record {
  sound = tt;
  few = omega arith;
  positive = wf.positive;
  bounded = wf.bounded;
}

mutation-IsWellFormed :
    (plan : CredentialLifecyclePlan) (state : CredentialStatusCacheState)
    → IsWellFormed state
    → IsWellFormed (invalidate_after_lifecycle_mutation plan state).1
unfolding invalidate_after_lifecycle_mutation
mutation-IsWellFormed plan state wf = elim (Bool-cases (is_status_plan plan)) [
  | inl status ↦ rw status wf
  | inr other ↦ rw other (invalidate_target-IsWellFormed (cache_target plan) state wf)
]

mutation_for_epoch-IsWellFormed :
    (plan : CredentialLifecyclePlan) (epoch : ℕ) (state : CredentialStatusCacheState)
    → IsWellFormed state
    → IsWellFormed (invalidate_after_lifecycle_mutation_for_process_epoch plan epoch state).1
unfolding invalidate_after_lifecycle_mutation_for_process_epoch
mutation_for_epoch-IsWellFormed plan epoch state wf = elim (Bool-cases (is_status_plan plan)) [
  | inl status ↦ rw status wf
  | inr other ↦ elim (Bool-cases (state.process_epoch == epoch)) [
    | inr moved ↦ rw other (rw moved wf)
    | inl same ↦ rw other (rw same (invalidate_target-IsWellFormed (cache_target plan) state wf))
  ]
]

replace_process_epoch-IsWellFormed :
    (epoch : ℕ) (state : CredentialStatusCacheState)
    → IsWellFormed state
    → IsWellFormed (replace_process_epoch epoch state).1
unfolding replace_process_epoch
replace_process_epoch-IsWellFormed epoch state wf =
    elim (Bool-cases (state.process_epoch == epoch)) [
      | inl same ↦ rw same wf
      | inr moved ↦
          rw moved
            (advance-IsWellFormed _ (emptied-IsWellFormed epoch state.policy_revision state wf))
    ]

replace_policy_revision-IsWellFormed :
    (policy : ℕ) (state : CredentialStatusCacheState)
    → IsWellFormed state
    → IsWellFormed (replace_policy_revision policy state).1
unfolding replace_policy_revision
replace_policy_revision-IsWellFormed policy state wf =
    elim (Bool-cases (state.policy_revision == policy)) [
      | inl same ↦ rw same wf
      | inr moved ↦
          rw moved
            (advance-IsWellFormed _ (emptied-IsWellFormed state.process_epoch policy state wf))
    ]

step-IsWellFormed :
    (operation : Operation) (state : CredentialStatusCacheState)
    → IsIssued operation
    → IsWellFormed state
    → IsWellFormed (step operation state)
unfolding step invalidate_after_auth_failure invalidate_directory
step-IsWellFormed (store ticket result observed_at expires_at revalidated) state
      (plan, directory, revision, earlier, issued) wf =
    store_ready-IsWellFormed ticket result observed_at expires_at revalidated state
      (begin_observation-IsTicket plan directory revision true earlier issued) wf
step-IsWellFormed (look_up plan directory revision now revalidated) state issued wf =
    lookup-IsWellFormed plan directory revision now revalidated state wf
step-IsWellFormed (auth_failure plan) state issued wf =
    invalidate_target-IsWellFormed (cache_target plan) state wf
step-IsWellFormed (mutation plan) state issued wf = mutation-IsWellFormed plan state wf
step-IsWellFormed (mutation_for_epoch plan epoch) state issued wf =
    mutation_for_epoch-IsWellFormed plan epoch state wf
step-IsWellFormed (directory_change directory) state issued wf =
    advance-IsWellFormed _ (kept-IsWellFormed state _ wf)
step-IsWellFormed (epoch_change epoch) state issued wf =
    replace_process_epoch-IsWellFormed epoch state wf
step-IsWellFormed (policy_change policy) state issued wf =
    replace_policy_revision-IsWellFormed policy state wf

run_preserves :
    (operations : List Operation) (state : CredentialStatusCacheState)
    → All IsIssued operations
    → IsWellFormed state
    → IsWellFormed (run operations state)
unfolding run
run_preserves [] state issued wf = wf
run_preserves (operation ∷ rest) state (first, later) wf =
    run_preserves rest (step operation state) later (step-IsWellFormed operation state first wf)

-- After any sequence of operations on a new cache that stores only under issued tickets: every
-- entry has the cache's epoch and policy, the key of its own status plan, and the verification that
-- no identity is declared or that it is the expected one; there are at most 256 entries, and the
-- generation is positive and fits 64 bits.
pub run-IsWellFormed :
    (epoch policy : ℕ) (operations : List Operation)
    → All IsIssued operations
    → IsWellFormed (run operations (cache_new epoch policy))
run-IsWellFormed epoch policy operations issued =
    run_preserves operations (cache_new epoch policy) issued (cache_new-IsWellFormed epoch policy)
