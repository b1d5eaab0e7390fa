-- ===== src/Catalog/Checkout.antt =====
-- The final tools of a commerce policy, from their validation in
-- tool-runtime-core/src/manifest_validation.rs to their decisions in
-- tool-runtime-core/src/mcp_catalog_policy.rs.
use magic_run.Prelude.{
  ◌≡◌, refl, sym, ◌∙◌, ap, subst, Bool, true, false, not, Option, none, some, List, [], ◌∷◌, ◌++◌,
  Text, ok, guard, arith, ◌||◌, ok-injective, any, holds→, bind_inversion, checked_inversion,
  or_err, or_err_inversion, inl, inr,
}
use magic_run.Prelude.Sets.{contains, contains-cons, contains_nil, get, values, keys}
use magic_run.Manifest.Mcp.{
  ApprovalClass, McpTransport, McpToolRiskClass, McpToolPolicy, McpCommercePolicy,
  McpDiscoveryPolicy, RuntimeLimits, RuntimeProtocol,
}
use magic_run.Manifest.Auth.{PolicyFloor, RuntimeRequirements, SkillRuntimeContract}
use magic_run.Manifest.Equality.{McpToolRiskClass-discrete}
use magic_run.Manifest.Discovery.{
  Url, is_commerce, is_final, invalid_commerce, check_commerce, validate_mcp_discovery,
}
use magic_run.Manifest.Vocabulary.{is_mcp_tool_name}
use magic_run.Manifest.Validation.{validate_runtime, validate_skill_runtime_contract}
use magic_run.Manifest.Validated.{runtime-validated}
use magic_run.Catalog.Synthesis.{
  SynthesizedRuntime, SynthesizedRuntimeCatalog, is_skill_id, namespace_of, synthesize_runtime,
  synthesize_runtime_catalog,
}
use magic_run.Catalog.Policy.{
  McpCatalogPolicyContract, McpEffectiveToolPolicy, McpToolPublicationDecision, risk_approval,
  check_policies, contract_of, compile_policy, decision, resource_scopes,
  required_resource_authorities,
}
use magic_run.Catalog.Additive.{Requires, IsAdditive, decision-IsAdditive}

-- What the effective policy of a final tool asks for.
pub record IsCheckout (commerce : McpCommercePolicy) (e : McpEffectiveToolPolicy) : Type 0 where
  pub approval : Requires e.required_approvals ApprovalClass.commerce_checkout
  pub scope : contains (resource_scopes e) commerce.resource_scope ≡ true
  pub authority :
      contains (required_resource_authorities e) commerce.required_resource_authority ≡ true

any-contains :
    (p : Text → Bool) (xs : List Text) (value : Text)
    → any p xs ≡ false
    → contains xs value ≡ true
    → p value ≡ false
any-contains p [] value h e = absurd (contains_nil value e)
any-contains p (x ∷ xs) value h e = elim (contains-cons x xs value e) [
  | inl same ↦ subst (λ v. p v ≡ false) same (ground (arith))
  | inr later ↦ any-contains p xs value (ground (arith)) later
]

runtime-commerce :
    (parse : Text → Option Url) (requires : RuntimeRequirements) (transport : McpTransport)
    (discovery : McpDiscoveryPolicy) (limits : RuntimeLimits)
    → validate_runtime parse requires (RuntimeProtocol.mcp transport discovery limits) ≡ ok tt
    → check_commerce discovery discovery.commerce_policy ≡ ok tt
unfolding validate_runtime validate_mcp_discovery
runtime-commerce parse requires transport discovery limits h = ground arith

any-append_left :
    (p : Text → Bool) (xs ys : List Text) → any p (xs ++ ys) ≡ false → any p xs ≡ false
any-append_left p [] ys h = refl
any-append_left p (x ∷ xs) ys h =
    let rest = any-append_left p xs ys (ground (arith)) in ground arith

-- A final tool has a policy of commerce risk with the scope and the authority of commerce.
check_commerce-final :
    (discovery : McpDiscoveryPolicy) (commerce : McpCommercePolicy) (tool : Text)
    → check_commerce discovery (some commerce) ≡ ok tt
    → contains commerce.final_tools tool ≡ true
    → (is_commerce (get discovery.tool_policies tool) ≡ true)
      × (is_final commerce (get discovery.tool_policies tool) ≡ true)
unfolding check_commerce invalid_commerce
check_commerce-final discovery commerce tool h e =
    let risky =
      any-contains
        (λ t. not (is_mcp_tool_name t) || not (is_commerce (get discovery.tool_policies t)))
        commerce.final_tools tool
        (any-append_left _ commerce.final_tools (keys commerce.conditional_final_tools)
          (ground arith))
        e in
    let final =
      any-contains (λ t. not (is_final commerce (get discovery.tool_policies t)))
        commerce.final_tools tool (ground arith) e in
    (ground arith, ground arith)

-- The catalog keeps the discovery policy of the contract.
synthesize-runtime :
    (skill_id : Text) (contract : SkillRuntimeContract) {catalog : SynthesizedRuntimeCatalog}
    → synthesize_runtime_catalog skill_id contract ≡ ok catalog
    → synthesize_runtime skill_id contract contract.runtime ≡ ok catalog.runtime
unfolding synthesize_runtime_catalog
synthesize-runtime skill_id contract {catalog} h =
    let (_, _, later) = bind_inversion (guard (is_skill_id skill_id) _) _ h in
    let (runtime, made, last) =
      bind_inversion (synthesize_runtime skill_id contract contract.runtime) _ later in
    made ∙ ap (λ (c : SynthesizedRuntimeCatalog). ok c.runtime) (ok-injective last)

module _ (transport : McpTransport) (discovery : McpDiscoveryPolicy) (limits : RuntimeLimits) where
  contract_of-tools :
      (skill_id : Text) (contract : SkillRuntimeContract) (base : PolicyFloor)
      (runtime : SynthesizedRuntime) {policies : McpCatalogPolicyContract}
      → synthesize_runtime skill_id contract (RuntimeProtocol.mcp transport discovery limits)
        ≡ ok runtime
      → contract_of base runtime ≡ ok policies
      → policies.tool_policies ≡ discovery.tool_policies
  unfolding synthesize_runtime contract_of
  contract_of-tools skill_id contract base runtime {policies} h c =
      let (namespace, _, made) = bind_inversion (namespace_of skill_id discovery.namespace) _ h in
      ap (λ (p : McpCatalogPolicyContract). p.tool_policies)
        (ok-injective
          (sym (subst (λ r. contract_of base r ≡ ok policies) (sym (ok-injective made)) c)))

  compile_policy-tools :
      (skill_id : Text) (contract : SkillRuntimeContract) {policies : McpCatalogPolicyContract}
      → contract.runtime ≡ RuntimeProtocol.mcp transport discovery limits
      → compile_policy skill_id contract ≡ ok policies
      → policies.tool_policies ≡ discovery.tool_policies
  unfolding compile_policy
  compile_policy-tools skill_id contract {policies} same h =
      let (catalog, made, later) =
        bind_inversion (or_err (synthesize_runtime_catalog skill_id contract) _) _ h in
      let (built, from, last) =
        bind_inversion (contract_of catalog.security_floor.policy catalog.runtime) _ later in
      let (_, kept) =
        checked_inversion (check_policies built (values built.tool_policies)) built last in
      let runtime =
        subst (λ r. synthesize_runtime skill_id contract r ≡ ok catalog.runtime) same
          (synthesize-runtime skill_id contract (or_err_inversion _ _ made)) in
      ap (λ (p : McpCatalogPolicyContract). p.tool_policies) (sym kept)
      ∙ contract_of-tools skill_id contract catalog.security_floor.policy catalog.runtime runtime
          from

-- The policy of a final tool makes the effective policy that of a checkout.
IsAdditive-IsCheckout :
    (policies : McpCatalogPolicyContract) (commerce : McpCommercePolicy) (tool : Text)
    (local : Option McpToolPolicy) (e : McpEffectiveToolPolicy)
    → is_commerce local ≡ true
    → is_final commerce local ≡ true
    → IsAdditive policies tool local e
    → IsCheckout commerce e
unfolding risk_approval
IsAdditive-IsCheckout policies commerce tool none e risky final added = cc
IsAdditive-IsCheckout policies commerce tool (some policy) e risky final added = record {
  approval =
      subst (λ r. Requires e.required_approvals (risk_approval r))
        (added.risk
          ∙ holds→ (McpToolRiskClass-discrete policy.risk McpToolRiskClass.commerce) risky)
        added.own_approval;
  scope = added.scopes.1 commerce.resource_scope (ground arith);
  authority = added.authorities.1 commerce.required_resource_authority (ground arith);
}

-- In a validated contract with a commerce policy, the catalog publishes a tool that always ends a
-- purchase only with a policy that requires the approval of a checkout, and that has the resource
-- scope and the resource authority that the commerce policy names.
pub validate-decision-IsCheckout :
    (parse : Text → Option Url) (skill_id : Text) (contract : SkillRuntimeContract)
    (transport : McpTransport) (discovery : McpDiscoveryPolicy) (limits : RuntimeLimits)
    (commerce : McpCommercePolicy) (policies : McpCatalogPolicyContract) (tool : Text)
    (e : McpEffectiveToolPolicy)
    → validate_skill_runtime_contract parse contract ≡ ok tt
    → contract.runtime ≡ RuntimeProtocol.mcp transport discovery limits
    → discovery.commerce_policy ≡ some commerce
    → contains commerce.final_tools tool ≡ true
    → compile_policy skill_id contract ≡ ok policies
    → decision policies tool ≡ ok (McpToolPublicationDecision.publish e)
    → IsCheckout commerce e
validate-decision-IsCheckout parse skill_id contract transport discovery limits commerce policies
      tool e valid same sells final compiled decided =
    let checked = runtime-commerce parse contract.requires transport discovery limits (
      subst (λ r. validate_runtime parse contract.requires r ≡ ok tt) same
        (runtime-validated parse contract valid)) in
    let (risky, ends) =
      check_commerce-final discovery commerce tool
        (subst (λ c. check_commerce discovery c ≡ ok tt) sells checked) final in
    let tools = compile_policy-tools transport discovery limits skill_id contract same compiled in
    IsAdditive-IsCheckout policies commerce tool (get discovery.tool_policies tool) e risky ends (
      subst (λ t. IsAdditive policies tool (get t tool) e) tools
        (decision-IsAdditive policies tool e decided))
