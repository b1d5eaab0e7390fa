-- ===== src/Tests/StatusCache.antt =====
-- Runs of the cache of tool-runtime-core/src/credential_status_cache.rs.
use native.Mathlib.Decide.{ℕ_discrete}
use magic_run.Prelude.{
  ◌+◌, ◌<◌, ◌^◌, ◌≡◌, ◌≢◌, ◌⊎◌, ◌↔◌, refl, true, none, some, [], ◌∷◌, codes, ok, arith, length,
}
use magic_run.Manifest.Mcp.{CliInteraction}
use magic_run.Manifest.Auth.{AuthKind, AuthState, IdentityContract}
use magic_run.Tests.Execution.{contract}
use magic_run.Credentials.Keys.{CredentialScope, CredentialProfileBinding, CredentialScope-discrete}
use magic_run.Credentials.Plans.{
  CredentialLifecyclePlan, CredentialLifecycleOperation, CredentialLifecycleTarget,
  Operation-discrete,
}
use magic_run.Credentials.Paths.{ScopedPath, ScopedPathLocator, DirectoryIdentity, Kind-discrete}
use magic_run.Observation.Status.{CredentialLifecycleStatusResult, CredentialIdentityVerification}
use magic_run.StatusCache.State.{
  CredentialStatusObservationTicket, CredentialStatusCacheState, cache_new,
}
use magic_run.StatusCache.Operations.{
  Outcome, hit, begin_observation, ticket_of, store_ready, invalidate_target, ensure_status_plan,
  is_status_plan, validate_directory_target, directory_is_valid,
}
use magic_run.StatusCache.Lookups.{lookup}
use magic_run.StatusCache.Runs.{Operation, store, look_up, auth_failure, step, run}
use magic_run.StatusCache.Invariant.{IsWellFormed}
use magic_run.StatusCache.Histories.{run-IsWellFormed}
use magic_run.StatusCache.Readiness.{IsHit, lookup_hit_iff}
use magic_run.StatusCache.Generations.{begin-store_ready_stale}

abbrev scope : CredentialScope
scope = record { principal = codes "ada"; workspace = codes "main" }

abbrev plan : CredentialLifecyclePlan
plan = record {
  contract = contract;
  operation = CredentialLifecycleOperation.status;
  target = CredentialLifecycleTarget.implicit scope (codes "gh") CredentialProfileBinding.provider;
  auth_kind = AuthKind.cli_profile;
  executable = codes "gh";
  args = codes "auth" ∷ codes "status" ∷ [];
  interaction = CliInteraction.batch;
  timeout_secs = none;
  status_observation = none;
  identity_contract = IdentityContract.nothing;
}

abbrev identity : DirectoryIdentity
identity = record { device = 1; inode = 42; owner = 501 }

abbrev directory : ScopedPath
directory = record {
  authority = record { scopes_root = codes "/scopes"; root_identity = identity; owner = 501 };
  scope = scope;
  locator = ScopedPathLocator.auth;
  canonical_path = codes "/scopes/ada/main/auth";
  identity = identity;
}

abbrev fresh : CredentialStatusCacheState
fresh = cache_new 7 3

abbrev ticket : CredentialStatusObservationTicket
ticket = ticket_of plan directory 5 fresh

abbrev ready : CredentialLifecycleStatusResult
ready = record {
  plan = plan;
  state = AuthState.ready;
  identity_verification = CredentialIdentityVerification.matched;
  expected_identity = none;
  actual_identity = none;
}

begun : begin_observation plan directory 5 true fresh ≡ ok ticket
unfolding begin_observation ensure_status_plan is_status_plan validate_directory_target
    directory_is_valid Operation-discrete Kind-discrete CredentialScope-discrete ℕ_discrete
begun = refl

abbrev stored : Operation
stored = store ticket ready 100 (some 400) true

abbrev asked : Operation
asked = look_up plan directory 5 200 true

run-IsWellFormed_example : IsWellFormed (run (stored ∷ asked ∷ []) (cache_new 7 3))
run-IsWellFormed_example =
    run-IsWellFormed 7 3 (stored ∷ asked ∷ []) ((plan, directory, 5, fresh, begun), (tt, tt))

lookup_hit_iff_example :
    (lookup plan directory 5 200 true (step stored fresh)
      ≡ (ok (hit CredentialIdentityVerification.matched), step stored fresh))
    ↔ ((step stored fresh ≡ step stored fresh)
        × IsHit plan directory 5 200
            (step stored fresh)
            true
            CredentialIdentityVerification.matched)
lookup_hit_iff_example =
    lookup_hit_iff plan directory 5 200 true (step stored fresh) (step stored fresh)
      CredentialIdentityVerification.matched

room : 1 + length (asked ∷ []) + 1 + length (asked ∷ []) < 2 ^ 64
room = omega arith

begin-store_ready_stale_example :
    let now : CredentialStatusCacheState =
      run (asked ∷ []) (step (auth_failure plan) (run (asked ∷ []) fresh)) in
    let late : Outcome (Unit {0}) = store_ready ticket ready 100 (some 400) true now in
    (late.0 ≢ ok tt) × ((late.1 ≡ now) ⊎ (late.1 ≡ (invalidate_target ticket.target now).1))
unfolding cache_new
begin-store_ready_stale_example =
    begin-store_ready_stale plan directory 5 true fresh ticket (asked ∷ []) (asked ∷ [])
      (auth_failure plan) ready 100 (some 400) true begun tt room
