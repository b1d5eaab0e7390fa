-- ===== src/Catalog/Policy.antt =====
-- The policy contract of tool-runtime-core/src/mcp_catalog_policy.rs. The base policy that its
-- effective policies share is a plain value. A set of approval classes is the list of what was put
-- into it; no sum of lengths reaches the bound of a usize.
use magic_run.Prelude.{
  ℕ, ◌+◌, Bool, ◌&&◌, ◌||◌, Option, none, some, List, [], ◌∷◌, ◌++◌, String, Text, Result, ok, err,
  guard, ◌>>◌, ◌>>=◌, or_err, ltb, not, keep, length, byte_len, if◌then◌else◌,
}
use magic_run.Prelude.Sets.{is_nil, contains, get, values}
use magic_run.Manifest.Mcp.{ApprovalClass, McpToolRiskClass, McpToolPolicy}
use magic_run.Manifest.Auth.{PolicyFloor, SkillRuntimeContract}
use magic_run.Manifest.Vocabulary.{is_mcp_tool_name}
use magic_run.Manifest.Bounds.{max_policy_entries}
use magic_run.Catalog.Synthesis.{
  SynthesizedRuntime, SynthesizedMcpCatalogLimits, max_synthesized_tool_name_bytes,
  synthesize_runtime_catalog,
}

abbrev pub mcp_catalog_policy_contract_v1 : String
mcp_catalog_policy_contract_v1 = "tool-runtime.mcp-catalog-policy.v1"

pub data McpCatalogPolicyErrorCode : Type 0 where
  unsupported_runtime invalid_skill_identity : McpCatalogPolicyErrorCode
  invalid_remote_tool_name local_tool_name_too_long : McpCatalogPolicyErrorCode
  invalid_effective_policy : McpCatalogPolicyErrorCode

pub record McpCatalogPolicyError : Type 0 where
  pub code : McpCatalogPolicyErrorCode
  pub field : String
  pub message : String

abbrev policy_error : McpCatalogPolicyErrorCode → String → String → McpCatalogPolicyError
policy_error code field message = record { code = code; field = field; message = message }

pub record McpCatalogPolicyContract : Type 0 where
  pub schema_version : String
  pub local_namespace : Text
  pub allow_tools : List Text
  pub deny_tools : List Text
  pub catalog_limits : SynthesizedMcpCatalogLimits
  pub base_policy : PolicyFloor
  pub tool_policies : List (Text × McpToolPolicy)

pub record McpEffectiveToolPolicy : Type 0 where
  pub schema_version : String
  pub risk : McpToolRiskClass
  pub trusted_description : Option Text
  pub required_approvals : List ApprovalClass
  pub base_policy : PolicyFloor
  pub additional_required_grants : List Text
  pub additional_resource_scopes : List Text
  pub additional_required_resource_authorities : List Text

pub data McpToolPublicationDecision : Type 0 where
  denied : McpToolPublicationDecision
  publish : McpEffectiveToolPolicy → McpToolPublicationDecision

abbrev pub additions : List Text → List Text → List Text
additions base more = keep (λ value. not (contains base value)) more

unfoldable pub union_len : List Text → List Text → ℕ
union_len base more = length base + length (additions base more)

unfoldable pub union_iter : List Text → List Text → List Text
union_iter base more = base ++ additions base more

unfoldable pub risk_approval : McpToolRiskClass → ApprovalClass
risk_approval McpToolRiskClass.read_only = ApprovalClass.ordinary
risk_approval McpToolRiskClass.unclassified = ApprovalClass.conditional_external_side_effect
risk_approval McpToolRiskClass.external_side_effect = ApprovalClass.conditional_external_side_effect
risk_approval McpToolRiskClass.workspace_write = ApprovalClass.delegated_workspace_write
risk_approval McpToolRiskClass.native_ui_control = ApprovalClass.native_ui_control
risk_approval McpToolRiskClass.commerce = ApprovalClass.commerce_checkout

abbrev pub invalid_effective_policy_error : McpCatalogPolicyError
invalid_effective_policy_error =
    policy_error McpCatalogPolicyErrorCode.invalid_effective_policy
      "runtime.discovery.tool_policies"
      "the effective MCP tool policy exceeds its bounded local policy ceiling"

-- The unions with the base policy are within the ceiling.
unfoldable pub within_ceiling : PolicyFloor → McpEffectiveToolPolicy → Bool
unfolding union_len
within_ceiling base e = not (
    ltb max_policy_entries (union_len base.required_grants e.additional_required_grants)
    || ltb max_policy_entries (union_len base.resource_scopes e.additional_resource_scopes)
    || ltb max_policy_entries
        (union_len base.required_resource_authorities e.additional_required_resource_authorities))

unfoldable pub effective :
    PolicyFloor → McpToolRiskClass → Option McpToolPolicy → McpEffectiveToolPolicy
effective base risk none = record {
  schema_version = mcp_catalog_policy_contract_v1;
  risk = risk;
  trusted_description = none;
  required_approvals = base.approval ∷ risk_approval risk ∷ [];
  base_policy = base;
  additional_required_grants = [];
  additional_resource_scopes = [];
  additional_required_resource_authorities = [];
}
effective base risk (some policy) = record {
  schema_version = mcp_catalog_policy_contract_v1;
  risk = risk;
  trusted_description = policy.trusted_description;
  required_approvals = base.approval ∷ risk_approval risk ∷ policy.additional_approvals;
  base_policy = base;
  additional_required_grants = policy.additional_required_grants;
  additional_resource_scopes = policy.additional_resource_scopes;
  additional_required_resource_authorities = policy.additional_required_resource_authorities;
}

unfoldable pub compose_effective :
    McpCatalogPolicyContract
    → McpToolRiskClass
    → Option McpToolPolicy
    → Result McpCatalogPolicyError McpEffectiveToolPolicy
compose_effective contract risk policy = do
  guard (within_ceiling contract.base_policy (effective contract.base_policy risk policy))
      invalid_effective_policy_error
  ok (effective contract.base_policy risk policy)

unfoldable pub check_policies :
    McpCatalogPolicyContract → List McpToolPolicy → Result McpCatalogPolicyError (Unit {0})
check_policies contract [] = ok tt
check_policies contract (policy ∷ rest) =
    compose_effective contract policy.risk (some policy) >>= λ _. check_policies contract rest

unfoldable pub contract_of :
    PolicyFloor → SynthesizedRuntime → Result McpCatalogPolicyError McpCatalogPolicyContract
contract_of base (SynthesizedRuntime.cli action execution) = err (
    policy_error McpCatalogPolicyErrorCode.unsupported_runtime "runtime.protocol"
      "the MCP catalog policy compiler requires an MCP runtime")
contract_of base (SynthesizedRuntime.mcp discovery) = ok (record {
  schema_version = mcp_catalog_policy_contract_v1;
  local_namespace = discovery.local_namespace;
  allow_tools = discovery.policy.allow_tools;
  deny_tools = discovery.policy.deny_tools;
  catalog_limits = discovery.catalog_limits;
  base_policy = base;
  tool_policies = discovery.policy.tool_policies;
})

unfoldable pub compile_policy :
    Text → SkillRuntimeContract → Result McpCatalogPolicyError McpCatalogPolicyContract
compile_policy skill_id validated = do
  catalog ← or_err (synthesize_runtime_catalog skill_id validated) (
      policy_error McpCatalogPolicyErrorCode.invalid_skill_identity "skill_id"
        "the validated MCP skill identity could not be synthesized")
  contract ← contract_of catalog.security_floor.policy catalog.runtime
  check_policies contract (values contract.tool_policies)
  ok contract

unfoldable pub local_tool_name : McpCatalogPolicyContract → Text → Result McpCatalogPolicyError Text
local_tool_name contract remote = do
  guard
      (not (
        not (is_mcp_tool_name remote)
        || ltb contract.catalog_limits.max_tool_name_bytes (byte_len remote)))
      (policy_error McpCatalogPolicyErrorCode.invalid_remote_tool_name "remote_tool_name"
        "the remote MCP tool name is not portable or exceeds its local limit")
  guard
      (not (
        ltb max_synthesized_tool_name_bytes
          (byte_len contract.local_namespace + 1 + byte_len remote)))
      (policy_error McpCatalogPolicyErrorCode.local_tool_name_too_long "local_tool_name"
        "the projected MCP tool name exceeds its local limit")
  ok (contract.local_namespace ++ (b'.' ∷ remote))

abbrev pub risk_of : Option McpToolPolicy → McpToolRiskClass
risk_of none = McpToolRiskClass.unclassified
risk_of (some policy) = policy.risk

unfoldable pub decision :
    McpCatalogPolicyContract → Text → Result McpCatalogPolicyError McpToolPublicationDecision
decision contract remote =
    if contains contract.deny_tools remote
      || (not (is_nil contract.allow_tools) && not (contains contract.allow_tools remote))
    then ok McpToolPublicationDecision.denied
    else (compose_effective contract (risk_of (get contract.tool_policies remote))
          (get contract.tool_policies remote)
        >>= λ policy. ok (McpToolPublicationDecision.publish policy))

-- The accessors of an effective policy.
unfoldable pub required_grants : McpEffectiveToolPolicy → List Text
required_grants e = union_iter e.base_policy.required_grants e.additional_required_grants

unfoldable pub resource_scopes : McpEffectiveToolPolicy → List Text
resource_scopes e = union_iter e.base_policy.resource_scopes e.additional_resource_scopes

unfoldable pub required_resource_authorities : McpEffectiveToolPolicy → List Text
required_resource_authorities e =
    union_iter e.base_policy.required_resource_authorities
      e.additional_required_resource_authorities
