-- ===== src/Catalog/Total.antt =====
-- What a contract that was validated is enough for: its catalog, of
-- tool-runtime-core/src/manifest_synthesis.rs, and the decisions on its tools, of
-- tool-runtime-core/src/mcp_catalog_policy.rs.
use magic_run.Prelude.{
  ◌≡◌, refl, sym, ◌∙◌, subst, Bool, true, false, not, ◌&&◌, ◌||◌, Option, none, some, List, [], ◌∷◌,
  Text, Result, ok, arith, bind_inversion, ◌>>=◌, if◌then◌else◌, or_err, or_err_inversion,
  checked_inversion, holds, Text-discrete,
}
use magic_run.Prelude.Sets.{is_nil, contains, get, values}
use magic_run.Manifest.Mcp.{McpToolPolicy, McpToolRiskClass}
use magic_run.Manifest.Auth.{PolicyFloor, SkillRuntimeContract}
use magic_run.Manifest.Validated.{IsBounded, floor-IsBounded}
use magic_run.Manifest.Discovery.{Url}
use magic_run.Manifest.Validation.{validate_skill_runtime_contract}
use magic_run.Catalog.Synthesis.{SynthesizedRuntime, synthesize_runtime_catalog}
use magic_run.Catalog.Synthesized.{synthesize-policy}
use magic_run.Catalog.Policy.{
  McpCatalogPolicyContract, McpEffectiveToolPolicy, McpToolPublicationDecision,
  McpCatalogPolicyError, within_ceiling, effective, compose_effective, check_policies, contract_of,
  compile_policy, risk_of, decision,
}

-- Every local policy that a contract finds was composed when it was compiled.
check_policies-get :
    (contract : McpCatalogPolicyContract) (entries : List (Text × McpToolPolicy)) (remote : Text)
    {policy : McpToolPolicy}
    → check_policies contract (values entries) ≡ ok tt
    → get entries remote ≡ some policy
    → (e : McpEffectiveToolPolicy) × (compose_effective contract policy.risk (some policy) ≡ ok e)
unfolding check_policies
check_policies-get contract [] remote h found = cc
check_policies-get contract ((name, policy') ∷ entries) remote {policy} h found =
    let (e, composed, rest) =
      bind_inversion (compose_effective contract policy'.risk (some policy'))
        (λ _. check_policies contract (values entries)) h in
    by_name (holds (Text-discrete name remote)) (e, composed)
      (check_policies-get contract entries remote rest) found
  where
    by_name :
        (t : Bool)
        → ((e : McpEffectiveToolPolicy) × (compose_effective contract policy'.risk (some policy')
              ≡ ok e))
        → (get entries remote ≡ some policy
            → (e : McpEffectiveToolPolicy) × (compose_effective contract policy.risk (some policy)
                ≡ ok e))
        → (if t then some policy' else get entries remote) ≡ some policy
        → (e : McpEffectiveToolPolicy) × (compose_effective contract policy.risk (some policy)
            ≡ ok e)
    by_name true here later same =
        let value : policy' ≡ policy = cc in
        subst
          (λ p. (e : McpEffectiveToolPolicy) × (compose_effective contract p.risk (some p) ≡ ok e))
          value here
    by_name false here later same = later same

-- The base policy alone is within the ceiling.
compose_effective-base :
    (contract : McpCatalogPolicyContract) (risk : McpToolRiskClass)
    → IsBounded contract.base_policy
    → (e : McpEffectiveToolPolicy) × (compose_effective contract risk none ≡ ok e)
unfolding compose_effective within_ceiling effective
compose_effective-base contract risk b = (effective contract.base_policy risk none, ground arith)

contract_of-base :
    (base : PolicyFloor) (runtime : SynthesizedRuntime) {contract : McpCatalogPolicyContract}
    → contract_of base runtime ≡ ok contract
    → contract.base_policy ≡ base
unfolding contract_of
contract_of-base base (SynthesizedRuntime.cli action execution) h = cc
contract_of-base base (SynthesizedRuntime.mcp discovery) h = ground arith

compile_policy-parts :
    (skill_id : Text) (contract : SkillRuntimeContract) {policies : McpCatalogPolicyContract}
    → compile_policy skill_id contract ≡ ok policies
    → (policies.base_policy ≡ contract.policy_floor)
      × (check_policies policies (values policies.tool_policies) ≡ ok tt)
unfolding compile_policy
compile_policy-parts skill_id contract {policies} h =
    let (catalog, made, later) =
      bind_inversion (or_err (synthesize_runtime_catalog skill_id contract) _) _ h in
    let (built, from, last) =
      bind_inversion (contract_of catalog.security_floor.policy catalog.runtime) _ later in
    let (checked, same) =
      checked_inversion (check_policies built (values built.tool_policies)) built last in
    let base =
      contract_of-base catalog.security_floor.policy catalog.runtime from
      ∙ synthesize-policy skill_id contract (or_err_inversion _ _ made) in
    subst
      (λ p.
        (p.base_policy ≡ contract.policy_floor)
        × (check_policies p (values p.tool_policies) ≡ ok tt))
      same (base, checked)

composed :
    (policies : McpCatalogPolicyContract) (remote : Text)
    → IsBounded policies.base_policy
    → check_policies policies (values policies.tool_policies) ≡ ok tt
    → (local : Option McpToolPolicy) → get policies.tool_policies remote ≡ local
    → (e : McpEffectiveToolPolicy) × (compose_effective policies (risk_of local) local ≡ ok e)
composed policies remote bounded checked none found =
    compose_effective-base policies McpToolRiskClass.unclassified bounded
composed policies remote bounded checked (some policy) found =
    check_policies-get policies policies.tool_policies remote checked found

decided :
    (refused : Bool) (r : Result McpCatalogPolicyError McpEffectiveToolPolicy)
    → ((e : McpEffectiveToolPolicy) × (r ≡ ok e))
    → (d : McpToolPublicationDecision) × ((if refused
          then ok McpToolPublicationDecision.denied
          else (r >>= λ policy. ok (McpToolPublicationDecision.publish policy)))
        ≡ ok d)
decided true r (e, h) = (McpToolPublicationDecision.denied, refl)
decided false r (e, h) = (McpToolPublicationDecision.publish e, rw h refl)

-- A policy contract that was compiled from a validated contract decides on every tool, without an
-- error.
pub compile_policy-decision :
    (parse : Text → Option Url) (skill_id : Text) (contract : SkillRuntimeContract)
    (policies : McpCatalogPolicyContract) (remote : Text)
    → validate_skill_runtime_contract parse contract ≡ ok tt
    → compile_policy skill_id contract ≡ ok policies
    → (d : McpToolPublicationDecision) × (decision policies remote ≡ ok d)
unfolding decision
compile_policy-decision parse skill_id contract policies remote valid compiled =
    let (base, checked) = compile_policy-parts skill_id contract compiled in
    let bounded = subst IsBounded (sym base) (floor-IsBounded parse contract valid) in
    decided
      (contains policies.deny_tools remote
        || (not (is_nil policies.allow_tools) && not (contains policies.allow_tools remote)))
      (compose_effective policies (risk_of (get policies.tool_policies remote))
        (get policies.tool_policies remote))
      (composed policies remote bounded checked (get policies.tool_policies remote) refl)
