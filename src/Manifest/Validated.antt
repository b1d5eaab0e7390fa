-- ===== src/Manifest/Validated.antt =====
-- What passed where `validate_skill_runtime_contract` of
-- tool-runtime-core/src/manifest_validation.rs lets a contract through.
use magic_run.Prelude.{◌≡◌, ◌≤◌, refl, true, Option, List, Text, Result, ok, err, arith, length}
use magic_run.Manifest.Auth.{PolicyFloor, AuthContract, SkillRuntimeContract}
use magic_run.Manifest.Bounds.{max_policy_entries, bound_floor, validate_collection_bounds}
use magic_run.Manifest.Requirements.{check_process, validate_requirements}
use magic_run.Manifest.Discovery.{Url}
use magic_run.Manifest.Mcp.{RuntimeProtocol}
use magic_run.Manifest.Refusal.{ManifestValidationError}
use magic_run.Manifest.Injections.{validate_injections}
use magic_run.Manifest.Authentication.{
  compatible, validate_secret_bindings, validate_protocol_auth_compatibility, validate_auth,
}
use magic_run.Manifest.Validation.{executable_of, validate_runtime, validate_skill_runtime_contract}

-- A policy floor has at most 256 entries of each kind.
pub record IsBounded (floor : PolicyFloor) : Type 0 where
  pub grants : length floor.required_grants ≤ max_policy_entries
  pub scopes : length floor.resource_scopes ≤ max_policy_entries
  pub authorities : length floor.required_resource_authorities ≤ max_policy_entries

bound_floor-IsBounded : (floor : PolicyFloor) → bound_floor floor ≡ ok tt → IsBounded floor
unfolding bound_floor
bound_floor-IsBounded floor h = ground arith

bounds-floor :
    (contract : SkillRuntimeContract)
    → validate_collection_bounds contract ≡ ok tt
    → bound_floor contract.policy_floor ≡ ok tt
unfolding validate_collection_bounds
bounds-floor contract h = ground arith

requirements-process :
    (contract : SkillRuntimeContract)
    → validate_requirements contract ≡ ok tt
    → check_process contract contract.runtime ≡ ok tt
unfolding validate_requirements
requirements-process contract h = ground arith

-- A validated auth contract has the names of its secrets, injections that fit them, and a kind that
-- the runtime supports.
pub auth-parts :
    (auth : AuthContract) (runtime : RuntimeProtocol) (executable : Option Text)
    → validate_auth auth runtime executable ≡ ok tt
    → (names : List Text) × (validate_secret_bindings auth ≡ ok names)
      × (validate_injections auth runtime names ≡ ok tt)
      × (compatible auth.kind runtime ≡ true)
unfolding validate_auth validate_protocol_auth_compatibility
auth-parts auth runtime executable h = by_names (validate_secret_bindings auth) refl
  where
    by_names :
        (r : Result ManifestValidationError (List Text))
        → validate_secret_bindings auth ≡ r
        → (names : List Text) × (validate_secret_bindings auth ≡ ok names)
          × (validate_injections auth runtime names ≡ ok tt)
          × (compatible auth.kind runtime ≡ true)
    by_names (ok names) e = (names, e, ground arith, ground arith)
    by_names (err failure) e = absurd (ground arith)

module _ (parse : Text → Option Url) (contract : SkillRuntimeContract)
    (valid : validate_skill_runtime_contract parse contract ≡ ok tt) where
  stages :
      (validate_collection_bounds contract ≡ ok tt)
      × (validate_requirements contract ≡ ok tt)
      × (validate_runtime parse contract.requires contract.runtime ≡ ok tt)
      × (validate_auth contract.auth contract.runtime (executable_of contract.requires) ≡ ok tt)
  unfolding validate_skill_runtime_contract
  stages = (ground arith, ground arith, ground arith, ground arith)

  pub floor-IsBounded : IsBounded contract.policy_floor
  floor-IsBounded = bound_floor-IsBounded contract.policy_floor (bounds-floor contract stages.0)

  pub process-checked : check_process contract contract.runtime ≡ ok tt
  process-checked = requirements-process contract stages.1

  pub requirements-validated : validate_requirements contract ≡ ok tt
  requirements-validated = stages.1

  pub runtime-validated : validate_runtime parse contract.requires contract.runtime ≡ ok tt
  runtime-validated = stages.2

  pub auth-validated :
      validate_auth contract.auth contract.runtime (executable_of contract.requires) ≡ ok tt
  auth-validated = stages.3
