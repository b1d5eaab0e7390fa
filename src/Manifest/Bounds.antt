-- ===== src/Manifest/Bounds.antt =====
-- `validate_collection_bounds` of tool-runtime-core/src/manifest_validation.rs. A sum of lengths is
-- refused above its limit, and so is one that would overflow.
use magic_run.Prelude.{
  ℕ, ◌+◌, ◌*◌, Option, none, some, List, [], ◌∷◌, Text, ok, guard, ◌>>◌, ltb, not, length, byte_len,
}
use magic_run.Prelude.Sets.{values}
use magic_run.Manifest.Refusal.{ManifestValidationErrorCode, Checked, error, bounded_len, for_each}
use magic_run.Manifest.Mcp.{
  McpTransport, McpToolPolicy, McpOAuthConnectionPolicy, McpCommercePolicy, McpDiscoveryPolicy,
  RuntimeProtocol,
}
use magic_run.Manifest.Auth.{PolicyFloor, SkillRuntimeContract}
use magic_run.Manifest.Limits.{max_fixed_arguments}

abbrev pub max_executable_requirements : ℕ
max_executable_requirements = 32

abbrev pub max_fixed_environment_variables : ℕ
max_fixed_environment_variables = 64

abbrev pub max_auth_bindings : ℕ
max_auth_bindings = 64

abbrev pub max_auth_injections : ℕ
max_auth_injections = 64

abbrev pub max_discovery_rules : ℕ
max_discovery_rules = 512

abbrev pub max_policy_entries : ℕ
max_policy_entries = 256

abbrev pub max_mcp_tool_policy_references : ℕ
max_mcp_tool_policy_references = 4 * 1024

abbrev pub max_mcp_trusted_description_bytes : ℕ
max_mcp_trusted_description_bytes = 256 * 1024

abbrev pub max_mcp_endpoint_aliases : ℕ
max_mcp_endpoint_aliases = 16

abbrev pub max_mcp_oauth_scopes : ℕ
max_mcp_oauth_scopes = 64

abbrev pub max_mcp_commerce_rules : ℕ
max_mcp_commerce_rules = 128

abbrev pub max_mcp_commerce_total_fields : ℕ
max_mcp_commerce_total_fields = 32

unfoldable pub bound_policy : McpToolPolicy → Checked
bound_policy policy = do
  bounded_len (length policy.additional_approvals) max_policy_entries
      "runtime.discovery.tool_policies.additional_approvals"
  bounded_len (length policy.additional_required_grants) max_policy_entries
      "runtime.discovery.tool_policies.additional_required_grants"
  bounded_len (length policy.additional_resource_scopes) max_policy_entries
      "runtime.discovery.tool_policies.additional_resource_scopes"
  bounded_len (length policy.additional_required_resource_authorities) max_policy_entries
      "runtime.discovery.tool_policies.additional_required_resource_authorities"

unfoldable pub policy_references : List McpToolPolicy → ℕ
policy_references [] = 0
policy_references (policy ∷ rest) =
    length policy.additional_approvals
    + length policy.additional_required_grants
    + length policy.additional_resource_scopes
    + length policy.additional_required_resource_authorities
    + policy_references rest

abbrev pub text_bytes : Option Text → ℕ
text_bytes none = 0
text_bytes (some value) = byte_len value

unfoldable pub description_bytes : List McpToolPolicy → ℕ
description_bytes [] = 0
description_bytes (policy ∷ rest) = text_bytes policy.trusted_description + description_bytes rest

abbrev bound_oauth : Option McpOAuthConnectionPolicy → Checked
bound_oauth none = ok tt
bound_oauth (some oauth) =
    bounded_len (length oauth.scopes) max_mcp_oauth_scopes "runtime.discovery.oauth.scopes"

abbrev bound_commerce : Option McpCommercePolicy → Checked
bound_commerce none = ok tt
bound_commerce (some commerce) = do
  bounded_len (length commerce.final_tools) max_mcp_commerce_rules
      "runtime.discovery.commerce.final_tools"
  bounded_len (length commerce.conditional_final_tools) max_mcp_commerce_rules
      "runtime.discovery.commerce.conditional_final_tools"
  bounded_len (length commerce.checkout_name_terms) max_mcp_commerce_rules
      "runtime.discovery.commerce.checkout_name_terms"
  bounded_len (length commerce.cart_name_terms) max_mcp_commerce_rules
      "runtime.discovery.commerce.cart_name_terms"
  bounded_len (length commerce.cart_read_verb_terms) max_mcp_commerce_rules
      "runtime.discovery.commerce.cart_read_verb_terms"
  bounded_len (length commerce.cartless_endpoint_aliases) max_mcp_commerce_rules
      "runtime.discovery.commerce.cartless_endpoint_aliases"
  bounded_len (length commerce.total_field_priority) max_mcp_commerce_total_fields
      "runtime.discovery.commerce.total_field_priority"

abbrev bound_transport : McpTransport → Checked
bound_transport (McpTransport.stdio executable args) =
    bounded_len (length args) max_fixed_arguments "runtime.transport.args"
bound_transport (McpTransport.streamable_http endpoint) = ok tt

unfoldable pub bound_discovery : McpDiscoveryPolicy → Checked
bound_discovery discovery = do
  bounded_len (length discovery.allow_tools) max_discovery_rules "runtime.discovery.allow_tools"
  bounded_len (length discovery.deny_tools) max_discovery_rules "runtime.discovery.deny_tools"
  bounded_len (length discovery.tool_policies) max_discovery_rules "runtime.discovery.tool_policies"
  bounded_len (length discovery.endpoint_aliases) max_mcp_endpoint_aliases
      "runtime.discovery.endpoint_aliases"
  bound_oauth discovery.oauth
  bound_commerce discovery.commerce_policy
  for_each bound_policy (values discovery.tool_policies)
  guard
      (not
        (ltb max_mcp_tool_policy_references (policy_references (values discovery.tool_policies))))
      (error ManifestValidationErrorCode.collection_too_large "runtime.discovery.tool_policies"
        "the aggregate MCP tool policy reference count exceeds its limit")
  guard
      (not (
        ltb max_mcp_trusted_description_bytes (description_bytes (values discovery.tool_policies))))
      (error ManifestValidationErrorCode.collection_too_large
        "runtime.discovery.tool_policies.trusted_description"
        "the aggregate trusted MCP description size exceeds its limit")

unfoldable pub bound_runtime : RuntimeProtocol → Checked
bound_runtime (RuntimeProtocol.cli prefix interaction stdin directory limits) =
    bounded_len (length prefix) max_fixed_arguments "runtime.command_prefix"
bound_runtime (RuntimeProtocol.mcp transport discovery limits) =
    bound_transport transport >> bound_discovery discovery

unfoldable pub bound_floor : PolicyFloor → Checked
bound_floor floor = do
  bounded_len (length floor.required_grants) max_policy_entries "policy_floor.required_grants"
  bounded_len (length floor.resource_scopes) max_policy_entries "policy_floor.resource_scopes"
  bounded_len (length floor.required_resource_authorities) max_policy_entries
      "policy_floor.required_resource_authorities"

unfoldable pub validate_collection_bounds : SkillRuntimeContract → Checked
validate_collection_bounds contract = do
  guard (not (ltb max_executable_requirements (length contract.requires.bins))) (
      error ManifestValidationErrorCode.collection_too_large "requires.bins"
        "too many executable requirements are declared")
  bounded_len (length contract.requires.environment) max_fixed_environment_variables
      "requires.environment"
  bound_runtime contract.runtime
  bounded_len (length contract.auth.secret_bindings) max_auth_bindings "auth.secret_bindings"
  bounded_len (length contract.auth.injections) max_auth_injections "auth.injections"
  bound_floor contract.policy_floor
