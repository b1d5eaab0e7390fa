-- ===== src/StatusCache/Runs.antt =====
-- Sequences of the operations that write the state of the cache of
-- tool-runtime-core/src/credential_status_cache.rs, in the order of its lock.
use magic_run.Prelude.{ℕ, Bool, Option, List, [], ◌∷◌}
use magic_run.Credentials.Plans.{CredentialLifecyclePlan}
use magic_run.Credentials.Paths.{ScopedPath}
use magic_run.Observation.Status.{CredentialLifecycleStatusResult}
use magic_run.StatusCache.State.{CredentialStatusObservationTicket, CredentialStatusCacheState}
use magic_run.StatusCache.Operations.{store_ready}
use magic_run.StatusCache.Lookups.{
  lookup, invalidate_after_auth_failure, invalidate_after_lifecycle_mutation,
  invalidate_after_lifecycle_mutation_for_process_epoch, invalidate_directory,
  replace_process_epoch, replace_policy_revision,
}

pub data Operation : Type 0 where
  store :
      CredentialStatusObservationTicket
      → CredentialLifecycleStatusResult
      → ℕ
      → Option ℕ
      → Bool
      → Operation
  look_up : CredentialLifecyclePlan → ScopedPath → ℕ → ℕ → Bool → Operation
  auth_failure mutation : CredentialLifecyclePlan → Operation
  mutation_for_epoch : CredentialLifecyclePlan → ℕ → Operation
  directory_change : ScopedPath → Operation
  epoch_change policy_change : ℕ → Operation

unfoldable pub step : Operation → CredentialStatusCacheState → CredentialStatusCacheState
step (store ticket result observed_at expires_at revalidated) state =
    (store_ready ticket result observed_at expires_at revalidated state).1
step (look_up plan directory revision now revalidated) state =
    (lookup plan directory revision now revalidated state).1
step (auth_failure plan) state = (invalidate_after_auth_failure plan state).1
step (mutation plan) state = (invalidate_after_lifecycle_mutation plan state).1
step (mutation_for_epoch plan epoch) state =
    (invalidate_after_lifecycle_mutation_for_process_epoch plan epoch state).1
step (directory_change directory) state = (invalidate_directory directory state).1
step (epoch_change epoch) state = (replace_process_epoch epoch state).1
step (policy_change policy) state = (replace_policy_revision policy state).1

unfoldable pub run : List Operation → CredentialStatusCacheState → CredentialStatusCacheState
run [] state = state
run (operation ∷ rest) state = run rest (step operation state)
