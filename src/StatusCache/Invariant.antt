-- ===== src/StatusCache/Invariant.antt =====
-- Every entry of the cache of tool-runtime-core/src/credential_status_cache.rs belongs to the
-- cache's epoch and policy.
use magic_run.Prelude.{
  ℕ, ◌-◌, ◌^◌, ◌≤◌, ◌<◌, ◌≡◌, ◌⊎◌, refl, Bool, true, ◌&&◌, not, Option, none, some, err, arith, ltb,
  leb, keep, length, length-keep, All, holds, Bool-cases, if_induction, inl, inr,
}
use magic_run.Credentials.Plans.{CredentialLifecyclePlan, Plan-discrete}
use magic_run.Manifest.Auth.{AuthState}
use magic_run.Manifest.Equality.{AuthState-discrete}
use magic_run.Credentials.Paths.{ScopedPath}
use magic_run.Observation.Status.{CredentialIdentityVerification, CredentialLifecycleStatusResult}
use magic_run.StatusCache.State.{
  CredentialStatusCacheTarget, CredentialStatusObservationTicket, CredentialStatusCacheEntry,
  CredentialStatusCacheState, get, contains_key, cache_new, advance_mutation_generation,
  cache_target,
}
use magic_run.StatusCache.Errors.{invalid_ttl}
use magic_run.StatusCache.Entries.{All-keep, length-insert}
use magic_run.StatusCache.Operations.{
  entry_of, is_current, directory_is_valid, Outcome, CredentialStatusCacheMissReason,
  is_status_plan, invalidate_target, is_cacheable, publish, store_ready,
}
use magic_run.StatusCache.Lookups.{found_stage, entry_stage, lookup}

-- The verifications that are kept: the contract declares no identity, or the identity is the
-- expected one.
abbrev pub IsCacheable : CredentialIdentityVerification → Type 0
IsCacheable verification =
    (verification ≡ CredentialIdentityVerification.not_declared)
    ⊎ (verification ≡ CredentialIdentityVerification.matched)

is_cacheable-IsCacheable :
    (verification : CredentialIdentityVerification)
    → is_cacheable verification ≡ true
    → IsCacheable verification
is_cacheable-IsCacheable verification h = ground arith

-- An entry of this epoch and policy, under its own key, from a verified status.
pub record IsSound (epoch policy : ℕ) (e : CredentialStatusCacheTarget × CredentialStatusCacheEntry)
    : Type 0 where
  pub epoch_agrees : e.1.process_epoch ≡ epoch
  pub policy_agrees : e.1.policy_revision ≡ policy
  pub target_agrees : e.0 ≡ cache_target e.1.plan
  pub status : is_status_plan e.1.plan ≡ true
  pub cacheable : IsCacheable e.1.identity_verification

pub record IsWellFormed (state : CredentialStatusCacheState) : Type 0 where
  pub sound : All (IsSound state.process_epoch state.policy_revision) state.entries
  pub few : length state.entries ≤ 256
  pub positive : 1 ≤ state.mutation_generation
  pub bounded : state.mutation_generation < 2 ^ 64

pub cache_new-IsWellFormed : (epoch policy : ℕ) → IsWellFormed (cache_new epoch policy)
unfolding cache_new
cache_new-IsWellFormed epoch policy = record {
  sound = tt;
  few = omega arith;
  positive = omega arith;
  bounded = omega arith;
}

pub advance-IsWellFormed :
    (state : CredentialStatusCacheState)
    → IsWellFormed state
    → IsWellFormed (advance_mutation_generation state)
unfolding advance_mutation_generation
advance-IsWellFormed state wf =
    if_induction IsWellFormed (ltb state.mutation_generation (2 ^ 64 - 1))
      (λ below. record {
        sound = wf.sound;
        few = wf.few;
        positive = omega arith;
        bounded = ground (arith);
      })
      (λ above. record {
        sound = tt;
        few = omega arith;
        positive = omega arith;
        bounded = omega arith;
      })

pub kept-IsWellFormed :
    (state : CredentialStatusCacheState)
    (p : CredentialStatusCacheTarget × CredentialStatusCacheEntry → Bool)
    → IsWellFormed state
    → IsWellFormed (record state { entries = keep p state.entries })
kept-IsWellFormed state p wf = record {
  sound = All-keep (IsSound state.process_epoch state.policy_revision) p state.entries wf.sound;
  few = omega (arith, wf.few, length-keep p state.entries);
  positive = wf.positive;
  bounded = wf.bounded;
}

pub invalidate_target-IsWellFormed :
    (target : CredentialStatusCacheTarget) (state : CredentialStatusCacheState)
    → IsWellFormed state
    → IsWellFormed (invalidate_target target state).1
unfolding invalidate_target
invalidate_target-IsWellFormed target state wf =
    advance-IsWellFormed _ (kept-IsWellFormed state _ wf)

-- What `begin_observation` has checked of its ticket.
pub record IsTicket (ticket : CredentialStatusObservationTicket) : Type 0 where
  pub target_agrees : ticket.target ≡ cache_target ticket.plan
  pub status : is_status_plan ticket.plan ≡ true

publish-IsWellFormed :
    (ticket : CredentialStatusObservationTicket) (verification : CredentialIdentityVerification)
    (observed_at expires_at : ℕ) (state : CredentialStatusCacheState)
    → IsTicket ticket
    → is_cacheable verification ≡ true
    → IsWellFormed state
    → IsWellFormed (publish ticket verification observed_at expires_at state).1
unfolding publish
publish-IsWellFormed ticket verification observed_at expires_at state checked cacheable wf =
    let live = keep (λ e. ltb observed_at e.1.expires_at) state.entries in
    let purged = kept-IsWellFormed state (λ e. ltb observed_at e.1.expires_at) wf in
    elim (Bool-cases (is_current ticket state)) [
      | inr stale ↦ rw stale wf
      | inl current ↦
          elim (Bool-cases (not (contains_key ticket.target live) && leb 256 (length live))) [
            | inl full ↦ rw current (rw full purged)
            | inr room ↦ rw current (
                rw room (record {
                  sound = (
                    record {
                      epoch_agrees = refl;
                      policy_agrees = refl;
                      target_agrees = checked.target_agrees;
                      status = checked.status;
                      cacheable = is_cacheable-IsCacheable verification cacheable;
                    },
                    All-keep (IsSound state.process_epoch state.policy_revision) _ live
                        purged.sound,
                  );
                  few =
                      length-insert ticket.target (entry_of ticket verification expires_at state)
                        live room purged.few;
                  positive = wf.positive;
                  bounded = wf.bounded;
                }))
          ]
    ]

pub store_ready-IsWellFormed :
    (ticket : CredentialStatusObservationTicket) (result : CredentialLifecycleStatusResult)
    (observed_at : ℕ) (expires_at : Option ℕ) (revalidated : Bool)
    (state : CredentialStatusCacheState)
    → IsTicket ticket
    → IsWellFormed state
    → IsWellFormed (store_ready ticket result observed_at expires_at revalidated state).1
unfolding store_ready
store_ready-IsWellFormed ticket result observed_at expires_at revalidated state checked wf =
    elim (Bool-cases (holds (Plan-discrete result.plan ticket.plan))) [
      | inr other ↦ rw other wf
      | inl same ↦
          elim (Bool-cases (
            holds (AuthState-discrete result.state AuthState.ready)
            && is_cacheable result.identity_verification)) [
              | inr uncacheable ↦ rw same (rw uncacheable wf)
              | inl cacheable ↦ elim (Bool-cases revalidated) [
                | inr gone ↦
                    rw same (
                      rw cacheable
                        (rw gone (invalidate_target-IsWellFormed ticket.target state wf)))
                | inl there ↦
                    rw same (rw cacheable (rw there (published expires_at (ground (arith)))))
              ]
            ]
    ]
  where
    published :
        (expires : Option ℕ)
        → is_cacheable result.identity_verification ≡ true
        → IsWellFormed
            (elim expires as (λ _. Outcome (Unit {0})) [
              | none ↦ (err invalid_ttl, state)
              | some e ↦ publish ticket result.identity_verification observed_at e state
            ]).1
    published none cacheable = wf
    published (some e) cacheable =
        publish-IsWellFormed ticket result.identity_verification observed_at e state checked
          cacheable wf

pub lookup-IsWellFormed :
    (plan : CredentialLifecyclePlan) (directory : ScopedPath) (revision now : ℕ)
    (revalidated : Bool) (state : CredentialStatusCacheState)
    → IsWellFormed state
    → IsWellFormed (lookup plan directory revision now revalidated state).1
unfolding lookup entry_stage found_stage
lookup-IsWellFormed plan directory revision now revalidated state wf =
    elim (Bool-cases (is_status_plan plan)) [
      | inr wrong ↦ rw wrong wf
      | inl status ↦ elim (Bool-cases (directory_is_valid plan directory)) [
        | inr mismatch ↦ rw status (rw mismatch wf)
        | inl valid ↦ elim (Bool-cases revalidated) [
          | inr gone ↦
              rw status
                (rw valid (rw gone (invalidate_target-IsWellFormed (cache_target plan) state wf)))
          | inl there ↦
              rw status (rw valid (rw there (by_entry (get (cache_target plan) state.entries))))
        ]
      ]
    ]
  where
    by_reason :
        (entry : CredentialStatusCacheEntry) (reason : Option CredentialStatusCacheMissReason)
        → IsWellFormed (found_stage plan entry reason state).1
    by_reason entry none = wf
    by_reason entry (some reason) = invalidate_target-IsWellFormed (cache_target plan) state wf

    by_entry :
        (found : Option CredentialStatusCacheEntry)
        → IsWellFormed (entry_stage plan directory revision now found state).1
    by_entry none = wf
    by_entry (some entry) = by_reason entry _
