-- ===== src/Tests/Catalog.antt =====
-- Runs of the catalog of tool-runtime-core/src/manifest_synthesis.rs and of the policies of
-- tool-runtime-core/src/mcp_catalog_policy.rs.
use magic_run.Prelude.{
  ◌≡◌, ◌≤◌, refl, true, false, none, some, [], ◌∷◌, codes, ok, Text-discrete, byte_len, is_control,
  split,
}
use magic_run.Prelude.Sets.{contains, get, one_of, to_ascii_lowercase}
use magic_run.Manifest.Mcp.{
  McpTransport, ApprovalClass, McpToolRiskClass, McpToolPolicy, McpDiscoveryPolicy, RuntimeProtocol,
  McpCommercePolicy, McpMoneyUnit,
}
use magic_run.Manifest.Auth.{PolicyFloor, SkillRuntimeContract}
use magic_run.Manifest.Equality.{
  AuthKind-discrete, AuthRequirement-discrete, McpToolRiskClass-discrete,
}
use magic_run.Manifest.Limits.{validate_limits}
use magic_run.Manifest.Vocabulary.{
  is_identifier, is_executable_name, is_reference, is_reference_segment, reference_char,
  is_mcp_tool_name, is_mcp_policy_term, is_normalized_mcp_field,
}
use magic_run.Manifest.Bounds.{
  bound_policy, policy_references, description_bytes, bound_discovery, bound_runtime, bound_floor,
  validate_collection_bounds,
}
use magic_run.Manifest.Commands.{
  fixed_arguments_from, validate_fixed_arguments, interpreter_target_is_safe,
  reject_inline_code_prefix,
}
use magic_run.Manifest.Requirements.{
  fixed_environment_from, validate_fixed_environment, check_executable, check_process,
  validate_requirements,
}
use magic_run.Manifest.Discovery.{
  check_tool_name, check_tool_policy, check_oauth, check_commerce, invalid_commerce,
  validate_mcp_discovery,
}
use magic_run.Manifest.Lifecycles.{validate_lifecycle}
use magic_run.Manifest.Injections.{injections_from, validate_injections}
use magic_run.Manifest.Authentication.{
  validate_auth_requirement, validate_auth_provider, validate_profile_selection, storage_fits,
  validate_auth_storage, secret_names_from, validate_secret_bindings, validate_identity, compatible,
  validate_protocol_auth_compatibility, validate_auth,
}
use magic_run.Manifest.Validation.{
  skill_runtime_contract_v1, executable_of, check_reference, validate_policy_floor, check_transport,
  validate_runtime, validate_skill_runtime_contract,
}
use magic_run.Catalog.Synthesis.{
  SynthesizedRuntimeCatalog, is_skill_id, bounded_join, max_tools_of, synthesize_runtime,
  synthesize_runtime_catalog,
}
use magic_run.Catalog.Policy.{
  McpCatalogPolicyContract, McpEffectiveToolPolicy, McpToolPublicationDecision, union_len,
  within_ceiling, effective, risk_approval, compose_effective, check_policies, contract_of,
  compile_policy, local_tool_name, decision,
}
use magic_run.Catalog.Names.{local_tool_name-injective}
use magic_run.Catalog.Additive.{IsAdditive, decision-IsAdditive}
use magic_run.Catalog.Checkout.{IsCheckout, validate-decision-IsCheckout}
use magic_run.Catalog.Total.{compile_policy-decision}
use magic_run.Catalog.Synthesized.{synthesize_runtime_catalog-total}
use magic_run.Catalog.Schemas.{IsSchemaOf, synthesize_cli_input_schema-IsSchemaOf}
use magic_run.Catalog.Schema.{synthesize_cli_input_schema}
use magic_run.Manifest.Mcp.{StdinMode, DataSensitivity, WorkingDirectoryMode}
use magic_run.Manifest.Auth.{ProfileSelection}
use magic_run.Tests.Manifest.{no_url, no_limits, no_auth, python_contract, python_valid}

abbrev write_policy : McpToolPolicy
write_policy = record {
  risk = McpToolRiskClass.workspace_write;
  trusted_description = none;
  additional_approvals = ApprovalClass.native_ui_control ∷ [];
  additional_required_grants = codes "disk" ∷ [];
  additional_resource_scopes = [];
  additional_required_resource_authorities = [];
}

abbrev buy_policy : McpToolPolicy
buy_policy = record {
  risk = McpToolRiskClass.commerce;
  trusted_description = none;
  additional_approvals = [];
  additional_required_grants = [];
  additional_resource_scopes = codes "pay" ∷ [];
  additional_required_resource_authorities = codes "card" ∷ [];
}

-- `buy` always ends a purchase.
abbrev commerce : McpCommercePolicy
commerce = record {
  commodity = codes "book";
  resource_scope = codes "pay";
  required_resource_authority = codes "card";
  amount_parameter = codes "amount";
  final_tools = codes "buy" ∷ [];
  conditional_final_tools = [];
  checkout_name_terms = [];
  cart_name_terms = codes "cart" ∷ [];
  cart_read_verb_terms = codes "get" ∷ [];
  total_field_priority = codes "total" ∷ [];
  cart_amount_unit = McpMoneyUnit.minor;
  absolute_tolerance_minor = 0;
  percentage_tolerance_bps = 100;
  max_order_minor = none;
  allow_cartless_checkout = false;
  cartless_endpoint_aliases = [];
  allow_unverified_cart = false;
}

abbrev floor : PolicyFloor
floor = record {
  approval = ApprovalClass.ordinary;
  required_grants = codes "net" ∷ [];
  resource_scopes = [];
  required_resource_authorities = [];
}

abbrev discovery_policy : McpDiscoveryPolicy
discovery_policy = record {
  namespace = some (codes "files");
  allow_tools = codes "buy" ∷ codes "read" ∷ codes "write" ∷ [];
  deny_tools = codes "wipe" ∷ [];
  tool_policies = (codes "buy", buy_policy) ∷ (codes "write", write_policy) ∷ [];
  endpoint_aliases = [];
  default_endpoint_alias = none;
  oauth = none;
  commerce_policy = some commerce;
}

-- A local server of three tools.
abbrev server_contract : SkillRuntimeContract
server_contract = record {
  schema_version = skill_runtime_contract_v1;
  requires = record { bins = codes "serve" ∷ []; entrypoint = none; environment = [] };
  runtime = RuntimeProtocol.mcp (McpTransport.stdio (codes "serve") []) discovery_policy no_limits;
  auth = no_auth;
  policy_floor = floor;
}

server_valid : validate_skill_runtime_contract no_url server_contract ≡ ok tt
unfolding validate_skill_runtime_contract validate_collection_bounds bound_runtime bound_discovery
    bound_policy policy_references description_bytes bound_floor validate_requirements
    validate_fixed_environment fixed_environment_from check_executable is_executable_name
    is_identifier one_of Text-discrete byte_len check_process contains validate_runtime
    check_transport validate_fixed_arguments fixed_arguments_from reject_inline_code_prefix
    interpreter_target_is_safe to_ascii_lowercase validate_limits validate_mcp_discovery
    check_tool_name is_mcp_tool_name check_tool_policy check_oauth check_commerce invalid_commerce
    McpToolRiskClass-discrete is_mcp_policy_term is_normalized_mcp_field validate_policy_floor
    check_reference is_reference is_reference_segment reference_char split validate_auth
    validate_auth_requirement AuthKind-discrete AuthRequirement-discrete validate_auth_provider
    validate_profile_selection validate_auth_storage storage_fits validate_secret_bindings
    secret_names_from validate_lifecycle validate_identity validate_injections injections_from
    validate_protocol_auth_compatibility compatible executable_of is_control
server_valid = refl

abbrev policies : McpCatalogPolicyContract
policies = record {
  schema_version = "tool-runtime.mcp-catalog-policy.v1";
  local_namespace = codes "disk.files";
  allow_tools = codes "buy" ∷ codes "read" ∷ codes "write" ∷ [];
  deny_tools = codes "wipe" ∷ [];
  catalog_limits = record {
    max_tools = 3;
    max_tool_name_bytes = 256;
    max_description_bytes = 8192;
    max_schema_bytes = 262144;
    max_catalog_bytes = 8388608;
    max_schema_depth = 32;
    max_schema_nodes = 10000;
  };
  base_policy = floor;
  tool_policies = (codes "buy", buy_policy) ∷ (codes "write", write_policy) ∷ [];
}

compiled : compile_policy (codes "disk") server_contract ≡ ok policies
unfolding compile_policy synthesize_runtime_catalog is_skill_id one_of Text-discrete byte_len
    synthesize_runtime bounded_join max_tools_of contains contract_of check_policies
    compose_effective within_ceiling union_len effective
compiled = refl

compile_policy-decision_example :
    (d : McpToolPublicationDecision) × (decision policies (codes "delete") ≡ ok d)
compile_policy-decision_example =
    compile_policy-decision no_url (codes "disk") server_contract policies (codes "delete")
      server_valid compiled

abbrev write_effective : McpEffectiveToolPolicy
write_effective = record {
  schema_version = "tool-runtime.mcp-catalog-policy.v1";
  risk = McpToolRiskClass.workspace_write;
  trusted_description = none;
  required_approvals =
      ApprovalClass.ordinary ∷ ApprovalClass.delegated_workspace_write
      ∷ ApprovalClass.native_ui_control ∷ [];
  base_policy = floor;
  additional_required_grants = codes "disk" ∷ [];
  additional_resource_scopes = [];
  additional_required_resource_authorities = [];
}

published :
    decision policies (codes "write") ≡ ok (McpToolPublicationDecision.publish write_effective)
unfolding decision contains Text-discrete compose_effective within_ceiling union_len effective
    risk_approval
published = refl

decision-IsAdditive_example :
    IsAdditive policies (codes "write") (get policies.tool_policies (codes "write")) write_effective
decision-IsAdditive_example = decision-IsAdditive policies (codes "write") write_effective published

named : local_tool_name policies (codes "read") ≡ ok (codes "disk.files.read")
unfolding local_tool_name is_mcp_tool_name byte_len
named = refl

local_tool_name-injective_example :
    (codes "read" ≡ codes "read") × (byte_len (codes "disk.files.read") ≤ 512)
local_tool_name-injective_example =
    local_tool_name-injective policies (codes "read") (codes "read") (codes "disk.files.read") named
      named

portable : is_skill_id (codes "disk") ≡ true
unfolding is_skill_id one_of Text-discrete byte_len
portable = refl

synthesize_runtime_catalog-total_example :
    (catalog : SynthesizedRuntimeCatalog) × (synthesize_runtime_catalog
        (codes "disk")
        python_contract
      ≡ ok catalog)
    × (catalog.security_floor.policy ≡ python_contract.policy_floor)
synthesize_runtime_catalog-total_example =
    synthesize_runtime_catalog-total no_url (codes "disk") python_contract python_valid portable

synthesize_cli_input_schema-IsSchemaOf_example :
    IsSchemaOf (ProfileSelection.selectable none) StdinMode.required WorkingDirectoryMode.denied (
      synthesize_cli_input_schema
        (ProfileSelection.selectable none)
        StdinMode.required
        DataSensitivity.private
        WorkingDirectoryMode.denied
        no_limits)
synthesize_cli_input_schema-IsSchemaOf_example =
    synthesize_cli_input_schema-IsSchemaOf (ProfileSelection.selectable none) StdinMode.required
      DataSensitivity.private WorkingDirectoryMode.denied no_limits

abbrev buy_effective : McpEffectiveToolPolicy
buy_effective = record {
  schema_version = "tool-runtime.mcp-catalog-policy.v1";
  risk = McpToolRiskClass.commerce;
  trusted_description = none;
  required_approvals = ApprovalClass.ordinary ∷ ApprovalClass.commerce_checkout ∷ [];
  base_policy = floor;
  additional_required_grants = [];
  additional_resource_scopes = codes "pay" ∷ [];
  additional_required_resource_authorities = codes "card" ∷ [];
}

buy_published :
    decision policies (codes "buy") ≡ ok (McpToolPublicationDecision.publish buy_effective)
unfolding decision contains Text-discrete compose_effective within_ceiling union_len effective
    risk_approval
buy_published = refl

buy_final : contains commerce.final_tools (codes "buy") ≡ true
unfolding contains Text-discrete
buy_final = refl

validate-decision-IsCheckout_example : IsCheckout commerce buy_effective
validate-decision-IsCheckout_example =
    validate-decision-IsCheckout no_url (codes "disk") server_contract
      (McpTransport.stdio (codes "serve") []) discovery_policy no_limits commerce policies
      (codes "buy") buy_effective server_valid refl refl buy_final compiled buy_published
