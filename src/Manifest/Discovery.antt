-- ===== src/Manifest/Discovery.antt =====
-- The endpoints and the discovery policy of tool-runtime-core/src/manifest_validation.rs. What the
-- `url` library makes of a text is the argument `parse`.
use magic_run.Prelude.{
  ℕ, ◌*◌, ◌/◌, ◌^◌, Bool, true, false, ◌&&◌, ◌||◌, Option, none, some, List, ◌++◌, Text, codes, ok,
  err, guard, ◌>>◌, ltb, ◌==◌, not, any, all, byte_len, is_control, is_some, holds, Text-discrete,
}
use magic_run.Prelude.Sets.{is_nil, contains, get, keys, values, eq_ignore_ascii_case}
use magic_run.Manifest.Refusal.{
  ManifestValidationErrorCode, ManifestValidationError, Checked, error, for_each,
}
use magic_run.Manifest.Mcp.{
  McpTransport, McpToolRiskClass, McpToolPolicy, McpOAuthConnectionPolicy, McpCommercePolicy,
  McpDiscoveryPolicy,
}
use magic_run.Manifest.Equality.{McpToolRiskClass-discrete}
use magic_run.Manifest.Vocabulary.{
  is_identifier, is_reference, is_json_pointer, is_mcp_tool_name, is_mcp_policy_term,
  is_normalized_mcp_field,
}

abbrev pub max_endpoint_bytes : ℕ
max_endpoint_bytes = 2 * 1024

abbrev pub max_trusted_mcp_description_bytes : ℕ
max_trusted_mcp_description_bytes = 8 * 1024

-- An address is the number that its bits make.
pub data Host : Type 0 where
  domain : Text → Host
  ipv4 : ℕ → Host
  ipv6 : ℕ → Host

-- What the code reads of a parsed URL.
pub record Url : Type 0 where
  pub scheme : Text
  pub username : Text
  pub password : Option Text
  pub host : Option Host
  pub query : Option Text
  pub fragment : Option Text
  pub cannot_be_a_base : Bool

-- `IpAddr::is_loopback` is 127.0.0.0/8 and ::1.
unfoldable pub is_loopback_host : Option Host → Bool
is_loopback_host none = false
is_loopback_host (some (Host.domain name)) = eq_ignore_ascii_case name (codes "localhost")
is_loopback_host (some (Host.ipv4 address)) = address / 2 ^ 24 == 127
is_loopback_host (some (Host.ipv6 address)) = address == 1

abbrev pub invalid_mcp_endpoint : ManifestValidationError
invalid_mcp_endpoint =
    error ManifestValidationErrorCode.invalid_mcp_endpoint "runtime.transport.endpoint"
      "Streamable HTTP requires HTTPS or loopback HTTP without credentials or fragments"

abbrev pub invalid_mcp_discovery : ManifestValidationError
invalid_mcp_discovery =
    error ManifestValidationErrorCode.invalid_mcp_discovery "runtime.discovery"
      "the local MCP endpoint, OAuth, or commerce policy is invalid"

unfoldable pub check_url : Option Url → Checked
check_url none = err invalid_mcp_endpoint
check_url (some url) = do
  guard
      (not (
        not (is_some url.host)
        || not (is_nil url.username)
        || is_some url.password
        || is_some url.fragment
        || url.cannot_be_a_base))
      invalid_mcp_endpoint
  guard
      (not (
        not (holds (Text-discrete url.scheme (codes "https")))
        && not (holds (Text-discrete url.scheme (codes "http")) && is_loopback_host url.host)))
      invalid_mcp_endpoint

abbrev queryless : Option Url → Bool
queryless none = false
queryless (some url) = not (is_some url.query)

abbrev pub passes : Checked → Bool
passes (ok _) = true
passes (err _) = false

-- `'\n' | '\r' | '\t'`
abbrev pub is_layout : ℕ → Bool
is_layout c = c == 0x0a || c == 0x0d || c == 0x09

abbrev unsafe_description : Option Text → Bool
unsafe_description none = false
unsafe_description (some value) =
    is_nil value
    || ltb max_trusted_mcp_description_bytes (byte_len value)
    || any (λ c. is_control c && not (is_layout c)) value

unfoldable pub check_tool_name : Text → Checked
check_tool_name tool = guard (is_mcp_tool_name tool) (
    error ManifestValidationErrorCode.invalid_mcp_discovery "runtime.discovery"
      "discovery rules must contain bounded portable MCP tool names")

unfoldable pub check_tool_policy : McpDiscoveryPolicy → Text × McpToolPolicy → Checked
check_tool_policy discovery (tool, policy) = do
  guard
      (not (
        not (is_mcp_tool_name tool)
        || contains discovery.deny_tools tool
        || (not (is_nil discovery.allow_tools) && not (contains discovery.allow_tools tool))))
      (error ManifestValidationErrorCode.invalid_mcp_discovery "runtime.discovery.tool_policies"
        "tool policies must target an exact locally eligible MCP tool name")
  guard (not (unsafe_description policy.trusted_description)) (
      error ManifestValidationErrorCode.invalid_mcp_discovery
        "runtime.discovery.tool_policies.trusted_description"
        "trusted MCP descriptions must be nonempty, bounded, and free of unsafe controls")
  guard
      (all is_reference (
        policy.additional_required_grants
        ++ (policy.additional_resource_scopes ++ policy.additional_required_resource_authorities)))
      (error ManifestValidationErrorCode.invalid_mcp_discovery "runtime.discovery.tool_policies"
        "tool policy additions must be portable reference identifiers")

abbrev is_http : McpTransport → Bool
is_http (McpTransport.stdio executable args) = false
is_http (McpTransport.streamable_http endpoint) = true

abbrev undeclared : List (Text × Text) → Option Text → Bool
undeclared aliases none = false
undeclared aliases (some alias) = not (is_some (get aliases alias))

abbrev pub is_commerce : Option McpToolPolicy → Bool
is_commerce none = false
is_commerce (some policy) = holds (McpToolRiskClass-discrete policy.risk McpToolRiskClass.commerce)

-- The policy has the scope of the commerce rules, and their authority.
abbrev pub in_scope : McpCommercePolicy → McpToolPolicy → Bool
in_scope commerce policy = contains policy.additional_resource_scopes commerce.resource_scope

abbrev pub has_authority : McpCommercePolicy → McpToolPolicy → Bool
has_authority commerce policy =
    contains policy.additional_required_resource_authorities commerce.required_resource_authority

abbrev pub is_final : McpCommercePolicy → Option McpToolPolicy → Bool
is_final commerce none = false
is_final commerce (some policy) = in_scope commerce policy && has_authority commerce policy

abbrev is_always_final : McpCommercePolicy → Option McpToolPolicy → Bool
is_always_final commerce none = false
is_always_final commerce (some policy) = in_scope commerce policy || has_authority commerce policy

unfoldable pub invalid_commerce : McpDiscoveryPolicy → McpCommercePolicy → Bool
invalid_commerce discovery commerce =
    not (is_reference commerce.commodity)
    || not (is_reference commerce.resource_scope)
    || not (is_reference commerce.required_resource_authority)
    || not (is_identifier commerce.amount_parameter)
    || ltb 10000 commerce.percentage_tolerance_bps
    || is_nil commerce.total_field_priority
    || is_nil commerce.cart_name_terms
    || is_nil commerce.cart_read_verb_terms
    || any
        (λ tool.
          not (is_mcp_tool_name tool) || not (is_commerce (get discovery.tool_policies tool)))
        (commerce.final_tools ++ keys commerce.conditional_final_tools)
    || any (λ tool. not (is_final commerce (get discovery.tool_policies tool))) commerce.final_tools
    || any (λ tool. is_always_final commerce (get discovery.tool_policies tool))
        (keys commerce.conditional_final_tools)
    || any (λ condition. not (is_json_pointer condition.pointer))
        (values commerce.conditional_final_tools)
    || any (λ term. not (is_mcp_policy_term term))
        (commerce.checkout_name_terms
          ++ (commerce.cart_name_terms ++ commerce.cart_read_verb_terms))
    || any (λ term. not (is_normalized_mcp_field term)) commerce.total_field_priority
    || any (λ alias. not (is_some (get discovery.endpoint_aliases alias)))
        commerce.cartless_endpoint_aliases
    || (commerce.allow_cartless_checkout && not (is_nil commerce.cartless_endpoint_aliases))
    || (is_nil commerce.final_tools
        && is_nil commerce.conditional_final_tools
        && is_nil commerce.checkout_name_terms)

unfoldable pub check_commerce : McpDiscoveryPolicy → Option McpCommercePolicy → Checked
check_commerce discovery none = ok tt
check_commerce discovery (some commerce) =
    guard (not (invalid_commerce discovery commerce)) invalid_mcp_discovery

module _ (parse : Text → Option Url) where
  unfoldable pub validate_mcp_endpoint : Text → Checked
  validate_mcp_endpoint endpoint = do
    guard
        (not (
          is_nil endpoint || ltb max_endpoint_bytes (byte_len endpoint) || any is_control endpoint))
        invalid_mcp_endpoint
    check_url (parse endpoint)

  unfoldable pub is_canonical_mcp_oauth_url : Text → Bool
  is_canonical_mcp_oauth_url value = passes (validate_mcp_endpoint value) && queryless (parse value)

  unfoldable pub check_oauth :
      McpDiscoveryPolicy → McpTransport → Option McpOAuthConnectionPolicy → Checked
  check_oauth discovery transport none = ok tt
  check_oauth discovery (McpTransport.stdio executable args) (some oauth) =
      err invalid_mcp_discovery
  check_oauth discovery (McpTransport.streamable_http endpoint) (some oauth) = do
    guard
        (not (
          not (is_canonical_mcp_oauth_url oauth.authorization_issuer)
          || any (λ scope. not (is_reference scope)) oauth.scopes))
        invalid_mcp_discovery
    guard
        (not (
          not (is_canonical_mcp_oauth_url endpoint)
          || any (λ alias. not (is_canonical_mcp_oauth_url alias))
              (values discovery.endpoint_aliases)))
        invalid_mcp_discovery

  abbrev pub check_alias : Text × Text → Checked
  check_alias (alias, endpoint) =
      guard (not (not (is_identifier alias) || not (passes (validate_mcp_endpoint endpoint))))
        invalid_mcp_discovery

  abbrev pub bad_namespace : Option Text → Bool
  bad_namespace none = false
  bad_namespace (some value) = not (is_identifier value)

  unfoldable pub validate_mcp_discovery : McpDiscoveryPolicy → McpTransport → Checked
  validate_mcp_discovery discovery transport = do
    guard (not (bad_namespace discovery.namespace)) (
        error ManifestValidationErrorCode.invalid_mcp_discovery "runtime.discovery.namespace"
          "the discovery namespace must be a portable identifier")
    for_each check_tool_name (discovery.allow_tools ++ discovery.deny_tools)
    for_each (check_tool_policy discovery) discovery.tool_policies
    guard (not (not (is_nil discovery.endpoint_aliases) && not (is_http transport)))
        invalid_mcp_discovery
    for_each check_alias discovery.endpoint_aliases
    guard
        (not (
          undeclared discovery.endpoint_aliases discovery.default_endpoint_alias
          || (not (is_nil discovery.endpoint_aliases)
              && not (is_some discovery.default_endpoint_alias))))
        invalid_mcp_discovery
    check_oauth discovery transport discovery.oauth
    check_commerce discovery discovery.commerce_policy
