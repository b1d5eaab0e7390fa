-- ===== src/Tests/Remote.antt =====
-- Runs of the validation of a remote contract of tool-runtime-core/src/manifest_validation.rs.
use magic_run.Prelude.{
  ◌≡◌, refl, false, Option, none, some, [], ◌∷◌, Text, codes, ok, Text-discrete, byte_len,
  is_control, split, holds, if◌then◌else◌,
}
use magic_run.Prelude.Sets.{contains, one_of, eq_ignore_ascii_case}
use magic_run.Manifest.Mcp.{McpTransport, ApprovalClass, McpDiscoveryPolicy, RuntimeProtocol}
use magic_run.Manifest.Auth.{AuthKind, AuthRequirement, ProfileSelection, SkillRuntimeContract}
use magic_run.Manifest.Equality.{AuthKind-discrete, AuthRequirement-discrete}
use magic_run.Manifest.Limits.{validate_limits}
use magic_run.Manifest.Vocabulary.{
  is_identifier, is_executable_name, is_reference, is_reference_segment, reference_char,
  is_mcp_tool_name, is_profile_alias,
}
use magic_run.Manifest.Bounds.{
  bound_policy, policy_references, description_bytes, bound_discovery, bound_runtime, bound_floor,
  validate_collection_bounds,
}
use magic_run.Manifest.Requirements.{
  fixed_environment_from, validate_fixed_environment, check_process, validate_requirements,
}
use magic_run.Manifest.Discovery.{
  Url, Host, is_loopback_host, check_url, validate_mcp_endpoint, is_canonical_mcp_oauth_url,
  check_tool_name, check_tool_policy, check_oauth, check_commerce, validate_mcp_discovery,
}
use magic_run.Manifest.Lifecycles.{validate_lifecycle}
use magic_run.Manifest.Injections.{injections_from, validate_injections}
use magic_run.Manifest.Authentication.{
  validate_auth_requirement, validate_auth_provider, validate_profile_selection, storage_fits,
  validate_auth_storage, secret_names_from, validate_secret_bindings, validate_identity, compatible,
  validate_protocol_auth_compatibility, validate_auth,
}
use magic_run.Manifest.Validation.{
  skill_runtime_contract_v1, executable_of, check_reference, validate_policy_floor, check_transport,
  validate_runtime, validate_skill_runtime_contract,
}
use magic_run.Manifest.Remote.{IsRemote, validate_skill_runtime_contract-IsRemote}
use magic_run.Tests.Manifest.{no_limits, no_auth}

abbrev url_of : Text → Text → Url
url_of scheme name = record {
  scheme = scheme;
  username = [];
  password = none;
  host = some (Host.domain name);
  query = none;
  fragment = none;
  cannot_be_a_base = false;
}

-- The URLs that the test uses.
abbrev parse : Text → Option Url
parse value =
    if holds (Text-discrete value (codes "https://a.io/"))
    then some (url_of (codes "https") (codes "a.io"))
    else if holds (Text-discrete value (codes "http://LOCALHOST/"))
    then some (url_of (codes "http") (codes "LOCALHOST"))
    else none

abbrev discovery : McpDiscoveryPolicy
discovery = record {
  namespace = none;
  allow_tools = [];
  deny_tools = codes "wipe" ∷ [];
  tool_policies = [];
  endpoint_aliases =
      (codes "main", codes "https://a.io/") ∷ (codes "test", codes "http://LOCALHOST/") ∷ [];
  default_endpoint_alias = some (codes "main");
  oauth =
      some (record { authorization_issuer = codes "https://a.io/"; scopes = codes "read" ∷ [] });
  commerce_policy = none;
}

-- A server behind an OAuth connection.
abbrev remote_contract : SkillRuntimeContract
remote_contract = record {
  schema_version = skill_runtime_contract_v1;
  requires = record { bins = []; entrypoint = none; environment = [] };
  runtime =
      RuntimeProtocol.mcp (McpTransport.streamable_http (codes "https://a.io/")) discovery
        no_limits;
  auth = record no_auth {
    kind = AuthKind.oauth_session;
    requirement = AuthRequirement.required;
    provider = some (codes "a");
    profile_selection = ProfileSelection.selectable none;
  };
  policy_floor = record {
    approval = ApprovalClass.ordinary;
    required_grants = [];
    resource_scopes = [];
    required_resource_authorities = [];
  };
}

remote_valid : validate_skill_runtime_contract parse remote_contract ≡ ok tt
unfolding validate_skill_runtime_contract validate_collection_bounds bound_runtime bound_discovery
    bound_policy policy_references description_bytes bound_floor validate_requirements
    validate_fixed_environment fixed_environment_from is_executable_name is_identifier one_of
    Text-discrete byte_len check_process contains validate_runtime check_transport
    validate_mcp_endpoint check_url is_loopback_host is_canonical_mcp_oauth_url validate_limits
    validate_mcp_discovery check_tool_name is_mcp_tool_name check_tool_policy check_oauth
    check_commerce validate_policy_floor check_reference is_reference is_reference_segment
    reference_char split validate_auth validate_auth_requirement AuthKind-discrete
    AuthRequirement-discrete validate_auth_provider validate_profile_selection is_profile_alias
    validate_auth_storage storage_fits validate_secret_bindings secret_names_from validate_lifecycle
    validate_identity validate_injections injections_from validate_protocol_auth_compatibility
    compatible executable_of is_control eq_ignore_ascii_case
remote_valid = refl

validate_skill_runtime_contract-IsRemote_example :
    IsRemote parse (codes "https://a.io/") discovery remote_contract
validate_skill_runtime_contract-IsRemote_example =
    validate_skill_runtime_contract-IsRemote parse remote_contract (codes "https://a.io/") discovery
      no_limits remote_valid refl
