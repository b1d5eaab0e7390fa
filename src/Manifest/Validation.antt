-- ===== src/Manifest/Validation.antt =====
-- `validate_skill_runtime_contract` of tool-runtime-core/src/manifest_validation.rs. A
-- `ValidatedSkillRuntimeContract` is a contract that it lets through.
use magic_run.Prelude.{
  ◌&&◌, Option, none, some, Text, codes, String, guard, ◌>>◌, ◌>>=◌, ok_or, not, first, is_some,
  holds, Text-discrete,
}
use magic_run.Manifest.Refusal.{ManifestValidationErrorCode, Checked, error, for_each}
use magic_run.Manifest.Mcp.{CliInteraction, McpTransport, RuntimeProtocol}
use magic_run.Manifest.Auth.{PolicyFloor, RuntimeRequirements, SkillRuntimeContract}
use magic_run.Manifest.Equality.{CliInteraction-discrete}
use magic_run.Manifest.Limits.{validate_limits}
use magic_run.Manifest.Vocabulary.{is_executable_name, is_reference}
use magic_run.Manifest.Bounds.{validate_collection_bounds}
use magic_run.Manifest.Commands.{
  validate_fixed_arguments, reject_inline_code_prefix, validate_stdin,
}
use magic_run.Manifest.Requirements.{validate_requirements}
use magic_run.Manifest.Discovery.{Url, validate_mcp_endpoint, validate_mcp_discovery}
use magic_run.Manifest.Authentication.{validate_auth}

abbrev pub skill_runtime_contract_v1 : Text
skill_runtime_contract_v1 = codes "tool-runtime.skill-runtime.v1"

abbrev pub or_else : {A : Type 0} → Option A → Option A → Option A
or_else none other = other
or_else (some value) other = some value

-- The entrypoint, or else the first executable.
unfoldable pub executable_of : RuntimeRequirements → Option Text
executable_of requires = or_else requires.entrypoint (first requires.bins)

unfoldable pub check_reference : String → String → Text → Checked
check_reference field message value =
    guard (is_reference value)
      (error ManifestValidationErrorCode.invalid_policy_floor field message)

unfoldable pub validate_policy_floor : PolicyFloor → Checked
validate_policy_floor policy = do
  for_each
      (check_reference "policy_floor.required_grants"
        "required grants must be portable reference identifiers")
      policy.required_grants
  for_each
      (check_reference "policy_floor.resource_scopes"
        "resource scopes must be portable reference identifiers")
      policy.resource_scopes
  for_each
      (check_reference "policy_floor.required_resource_authorities"
        "resource authorities must be portable reference identifiers")
      policy.required_resource_authorities

module _ (parse : Text → Option Url) where
  unfoldable pub check_transport : McpTransport → Checked
  check_transport (McpTransport.stdio executable args) = do
    guard (is_executable_name executable) (
        error ManifestValidationErrorCode.invalid_executable "runtime.transport.executable"
          "the stdio executable must be a portable name, not a path")
    validate_fixed_arguments args "runtime.transport.args"
    reject_inline_code_prefix executable args "runtime.transport.args"
  check_transport (McpTransport.streamable_http endpoint) = validate_mcp_endpoint parse endpoint

  unfoldable pub validate_runtime : RuntimeRequirements → RuntimeProtocol → Checked
  validate_runtime requires (RuntimeProtocol.cli prefix interaction stdin directory limits) = do
    executable ← ok_or (executable_of requires) (
        error ManifestValidationErrorCode.ambiguous_executable "requires.bins"
          "a CLI contract must declare exactly one executable identity")
    validate_fixed_arguments prefix "runtime.command_prefix"
    reject_inline_code_prefix executable prefix "runtime.command_prefix"
    validate_stdin stdin.mode stdin.sensitivity limits
    validate_limits limits
    guard
        (not (
          is_some limits.memory_bytes
          && not (holds (CliInteraction-discrete interaction CliInteraction.batch))))
        (error ManifestValidationErrorCode.invalid_runtime_limit "runtime.limits.memory_bytes"
          "process memory limits require batch CLI interaction")
  validate_runtime requires (RuntimeProtocol.mcp transport discovery limits) = do
    check_transport transport
    validate_mcp_discovery parse discovery transport
    validate_limits limits
    guard (not (is_some limits.memory_bytes)) (
        error ManifestValidationErrorCode.invalid_runtime_limit "runtime.limits.memory_bytes"
          "process memory limits are supported only for batch CLI runtimes")

  unfoldable pub validate_skill_runtime_contract : SkillRuntimeContract → Checked
  validate_skill_runtime_contract contract = do
    guard (holds (Text-discrete contract.schema_version skill_runtime_contract_v1)) (
        error ManifestValidationErrorCode.unsupported_schema_version "schema_version"
          "the semantic validator supports only the v1 runtime contract")
    validate_collection_bounds contract
    validate_requirements contract
    validate_runtime contract.requires contract.runtime
    validate_policy_floor contract.policy_floor
    validate_auth contract.auth contract.runtime (executable_of contract.requires)
