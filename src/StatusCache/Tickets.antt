-- ===== src/StatusCache/Tickets.antt =====
-- The tickets of `begin_observation` of tool-runtime-core/src/credential_status_cache.rs.
use magic_run.Prelude.{
  ℕ, ◌≡◌, refl, Bool, true, ok, bind_inversion, guard_inversion, ok-injective, subst, guard,
}
use magic_run.Credentials.Plans.{CredentialLifecyclePlan}
use magic_run.Credentials.Paths.{ScopedPath}
use magic_run.StatusCache.Errors.{wrong_operation, directory_unavailable}
use magic_run.StatusCache.State.{CredentialStatusObservationTicket, CredentialStatusCacheState}
use magic_run.StatusCache.Operations.{
  ensure_status_plan, validate_directory_target, is_status_plan, begin_observation, ticket_of,
}
use magic_run.StatusCache.Invariant.{IsTicket}

pub begin_observation-ticket_of :
    (plan : CredentialLifecyclePlan) (directory : ScopedPath) (revision : ℕ) (revalidated : Bool)
    (state : CredentialStatusCacheState) {ticket : CredentialStatusObservationTicket}
    → begin_observation plan directory revision revalidated state ≡ ok ticket
    → (is_status_plan plan ≡ true) × (ticket_of plan directory revision state ≡ ticket)
unfolding begin_observation ensure_status_plan
begin_observation-ticket_of plan directory revision revalidated state e =
    let (u, status, e1) = bind_inversion (ensure_status_plan plan) _ e in
    let (v, valid, e2) = bind_inversion (validate_directory_target plan directory) _ e1 in
    let (w, there, e3) = bind_inversion (guard revalidated directory_unavailable) _ e2 in
    (guard_inversion (is_status_plan plan) wrong_operation status, ok-injective e3)

pub begin_observation-IsTicket :
    (plan : CredentialLifecyclePlan) (directory : ScopedPath) (revision : ℕ) (revalidated : Bool)
    (state : CredentialStatusCacheState) {ticket : CredentialStatusObservationTicket}
    → begin_observation plan directory revision revalidated state ≡ ok ticket
    → IsTicket ticket
begin_observation-IsTicket plan directory revision revalidated state e =
    let (status, same) = begin_observation-ticket_of plan directory revision revalidated state e in
    subst IsTicket same (record { target_agrees = refl; status = status })
