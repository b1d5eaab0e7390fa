-- ===== src/StatusCache/State.antt =====
-- The state of the verified-status cache of tool-runtime-core/src/credential_status_cache.rs.
use native.Mathlib.Decide.{ℕ_discrete}
use magic_run.Prelude.{
  ℕ, ◌+◌, ◌-◌, ◌^◌, ◌*◌, String, Bool, ◌||◌, not, Option, none, some, List, [], ◌∷◌, Text, Result,
  ok, guard, ◌>>◌, ltb, ◌==◌, keep, holds, is_some, if◌then◌else◌,
}
use magic_run.Credentials.Keys.{CredentialScope, CredentialProfileKey, CredentialProfileBinding}
use magic_run.Credentials.Plans.{CredentialLifecyclePlan, CredentialLifecycleTarget}
use magic_run.Credentials.Paths.{ScopedPath}
use magic_run.Observation.Status.{CredentialIdentityVerification}
use magic_run.StatusCache.Error.{CredentialStatusCacheError}
use magic_run.StatusCache.Errors.{
  invalid_process_epoch, invalid_policy_revision, invalid_directory_revision, invalid_ttl,
}

abbrev pub credential_verified_status_cache_v1 : String
credential_verified_status_cache_v1 = "tool-runtime.credential-verified-status-cache.v1"

abbrev pub max_credential_status_cache_entries : ℕ
max_credential_status_cache_entries = 256

-- In nanoseconds.
abbrev pub max_credential_status_cache_ttl : ℕ
max_credential_status_cache_ttl = 5 * 60 * 1000000000

-- The three revisions of `nonzero_revision!`.
unfoldable pub process_epoch_new : ℕ → Result CredentialStatusCacheError ℕ
process_epoch_new value = do guard (not (value == 0)) invalid_process_epoch; ok value

unfoldable pub policy_revision_new : ℕ → Result CredentialStatusCacheError ℕ
policy_revision_new value = do guard (not (value == 0)) invalid_policy_revision; ok value

unfoldable pub directory_revision_new : ℕ → Result CredentialStatusCacheError ℕ
directory_revision_new value = do guard (not (value == 0)) invalid_directory_revision; ok value

unfoldable pub ttl_new : ℕ → Result CredentialStatusCacheError ℕ
ttl_new value = do
  guard (not (value == 0 || ltb max_credential_status_cache_ttl value)) invalid_ttl
  ok value

pub data CredentialStatusCacheTarget : Type 0 where
  profile : CredentialProfileKey → CredentialStatusCacheTarget
  implicit : CredentialScope → Text → CredentialProfileBinding → CredentialStatusCacheTarget

unfoldable pub Target-discrete : Discrete CredentialStatusCacheTarget
Target-discrete = hlevel ℕ_discrete

pub record CredentialStatusObservationTicket : Type 0 where
  pub process_epoch : ℕ
  pub policy_revision : ℕ
  pub mutation_generation : ℕ
  pub target : CredentialStatusCacheTarget
  pub plan : CredentialLifecyclePlan
  pub directory : ScopedPath
  pub directory_revision : ℕ

pub record CredentialStatusCacheEntry : Type 0 where
  pub process_epoch : ℕ
  pub policy_revision : ℕ
  pub plan : CredentialLifecyclePlan
  pub directory : ScopedPath
  pub directory_revision : ℕ
  pub identity_verification : CredentialIdentityVerification
  pub expires_at : ℕ

abbrev pub Entries : Type 0
Entries = List (CredentialStatusCacheTarget × CredentialStatusCacheEntry)

pub record CredentialStatusCacheState : Type 0 where
  pub process_epoch : ℕ
  pub policy_revision : ℕ
  pub mutation_generation : ℕ
  pub entries : Entries

-- `BTreeMap::get`, `remove`, `insert` and `contains_key`
abbrev pub get : CredentialStatusCacheTarget → Entries → Option CredentialStatusCacheEntry
get target [] = none
get target ((key, entry) ∷ rest) =
    if holds (Target-discrete key target) then some entry else get target rest

abbrev pub remove : CredentialStatusCacheTarget → Entries → Entries
remove target = keep (λ e. not (holds (Target-discrete e.0 target)))

abbrev pub insert : CredentialStatusCacheTarget → CredentialStatusCacheEntry → Entries → Entries
insert target entry entries = (target, entry) ∷ remove target entries

abbrev pub contains_key : CredentialStatusCacheTarget → Entries → Bool
contains_key target entries = is_some (get target entries)

unfoldable pub cache_new : ℕ → ℕ → CredentialStatusCacheState
cache_new process_epoch policy_revision = record {
  process_epoch = process_epoch;
  policy_revision = policy_revision;
  mutation_generation = 1;
  entries = [];
}

unfoldable pub advance_mutation_generation : CredentialStatusCacheState → CredentialStatusCacheState
advance_mutation_generation state =
    if ltb state.mutation_generation (2 ^ 64 - 1)
    then record state { mutation_generation = state.mutation_generation + 1 }
    else record state { mutation_generation = 1; entries = [] }

unfoldable pub cache_target : CredentialLifecyclePlan → CredentialStatusCacheTarget
cache_target plan = elim plan.target [
  | CredentialLifecycleTarget.profile key revision expected ↦
      CredentialStatusCacheTarget.profile key
  | CredentialLifecycleTarget.implicit scope provider binding ↦
      CredentialStatusCacheTarget.implicit scope provider binding
]
