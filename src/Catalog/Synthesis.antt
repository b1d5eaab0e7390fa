-- ===== src/Catalog/Synthesis.antt =====
-- `synthesize_runtime_catalog` of tool-runtime-core/src/manifest_synthesis.rs, on a contract that
-- was validated. The sum of two lengths of strings does not overflow.
use magic_run.Prelude.{
  ℕ, ◌+◌, ◌*◌, Bool, true, false, ◌&&◌, ◌||◌, Option, none, some, List, [], ◌∷◌, ◌++◌, String, Text,
  codes, Result, ok, ok_or, guard, ◌>>◌, ◌>>=◌, ltb, leb, ◌==◌, min, not, all, keep, length,
  byte_len, is_alphanumeric, if◌then◌else◌,
}
use magic_run.Prelude.Sets.{is_nil, one_of, contains}
use magic_run.Manifest.Mcp.{
  CliInteraction, StdinMode, DataSensitivity, WorkingDirectoryMode, RuntimeLimits, McpTransport,
  McpDiscoveryPolicy, RuntimeProtocol,
}
use magic_run.Manifest.Auth.{
  AuthKind, AuthRequirement, ProfileSelection, PolicyFloor, SkillRuntimeContract,
}
use magic_run.Manifest.Limits.{max_fixed_arguments, max_argument_bytes, max_fixed_argument_bytes}
use magic_run.Manifest.Validation.{executable_of}
use magic_run.Catalog.Schema.{SynthesizedInputSchema, synthesize_cli_input_schema}

abbrev pub synthesized_runtime_catalog_v1 : String
synthesized_runtime_catalog_v1 = "tool-runtime.synthesized-catalog.v1"

abbrev pub max_synthesized_skill_id_bytes : ℕ
max_synthesized_skill_id_bytes = 128

abbrev pub max_synthesized_tool_name_bytes : ℕ
max_synthesized_tool_name_bytes = 512

abbrev pub max_discovered_mcp_tools : ℕ
max_discovered_mcp_tools = 512

abbrev pub max_discovered_mcp_tool_name_bytes : ℕ
max_discovered_mcp_tool_name_bytes = 256

pub data ManifestSynthesisErrorCode : Type 0 where
  invalid_skill_id output_name_too_long : ManifestSynthesisErrorCode
  validated_contract_invariant_violation : ManifestSynthesisErrorCode

pub record ManifestSynthesisError : Type 0 where
  pub code : ManifestSynthesisErrorCode
  pub field : String
  pub message : String

abbrev synthesis_error : ManifestSynthesisErrorCode → String → String → ManifestSynthesisError
synthesis_error code field message = record { code = code; field = field; message = message }

pub record SynthesizedActionDefinition : Type 0 where
  pub name : Text
  pub description : String
  pub input_schema : SynthesizedInputSchema

pub record SynthesizedArgumentLimits : Type 0 where
  pub max_items : ℕ
  pub max_item_bytes : ℕ
  pub max_combined_bytes : ℕ
  pub reject_control_characters : Bool

pub record SynthesizedCliExecution : Type 0 where
  pub executable : Text
  pub command_prefix : List Text
  pub environment : List (Text × Text)
  pub interaction : CliInteraction
  pub stdin_mode : StdinMode
  pub stdin_sensitivity : DataSensitivity
  pub working_directory : WorkingDirectoryMode
  pub limits : RuntimeLimits
  pub model_argument_limits : SynthesizedArgumentLimits

pub record SynthesizedMcpCatalogLimits : Type 0 where
  pub max_tools : ℕ
  pub max_tool_name_bytes : ℕ
  pub max_description_bytes : ℕ
  pub max_schema_bytes : ℕ
  pub max_catalog_bytes : ℕ
  pub max_schema_depth : ℕ
  pub max_schema_nodes : ℕ

pub record SynthesizedMcpDiscoverySeed : Type 0 where
  pub local_namespace : Text
  pub naming_strategy : String
  pub transport : McpTransport
  pub runtime_limits : RuntimeLimits
  pub policy : McpDiscoveryPolicy
  pub catalog_limits : SynthesizedMcpCatalogLimits

pub data SynthesizedRuntime : Type 0 where
  cli : SynthesizedActionDefinition → SynthesizedCliExecution → SynthesizedRuntime
  mcp : SynthesizedMcpDiscoverySeed → SynthesizedRuntime

pub record SynthesizedSecurityFloor : Type 0 where
  pub auth_kind : AuthKind
  pub auth_requirement : AuthRequirement
  pub provider : Option Text
  pub profile_selection : ProfileSelection
  pub policy : PolicyFloor

pub record SynthesizedRuntimeCatalog : Type 0 where
  pub schema_version : String
  pub skill_id : Text
  pub runtime : SynthesizedRuntime
  pub security_floor : SynthesizedSecurityFloor

abbrev starts_alphanumeric : Text → Bool
starts_alphanumeric [] = false
starts_alphanumeric (c ∷ value) = is_alphanumeric c

unfoldable pub is_skill_id : Text → Bool
is_skill_id value =
    not (is_nil value)
    && leb (byte_len value) max_synthesized_skill_id_bytes
    && not (one_of ("." ∷ ".." ∷ []) value)
    && starts_alphanumeric value
    && all (λ c. is_alphanumeric c || c == b'_' || c == b'-' || c == b'.' || c == b'+') value

unfoldable pub bounded_join : Text → Text → Result ManifestSynthesisError Text
bounded_join skill_id suffix = do
  guard (not (ltb max_synthesized_tool_name_bytes (byte_len skill_id + byte_len suffix))) (
      synthesis_error ManifestSynthesisErrorCode.output_name_too_long "skill_id"
        "the synthesized output name exceeds its size limit")
  ok (skill_id ++ suffix)

abbrev pub namespace_of : Text → Option Text → Result ManifestSynthesisError Text
namespace_of skill_id none = ok skill_id
namespace_of skill_id (some name) = bounded_join skill_id (b'.' ∷ name)

unfoldable pub max_tools_of : McpDiscoveryPolicy → ℕ
max_tools_of discovery =
    if is_nil discovery.allow_tools
    then max_discovered_mcp_tools
    else min
        (length (keep (λ tool. not (contains discovery.deny_tools tool)) discovery.allow_tools))
        max_discovered_mcp_tools

unfoldable pub synthesize_runtime :
    Text → SkillRuntimeContract → RuntimeProtocol → Result ManifestSynthesisError SynthesizedRuntime
synthesize_runtime skill_id contract
      (RuntimeProtocol.cli prefix interaction stdin directory limits) =
    do
      executable ← ok_or (executable_of contract.requires) (
          synthesis_error ManifestSynthesisErrorCode.validated_contract_invariant_violation
            "requires.bins" "the validation proof did not retain a CLI executable")
      action_name ← bounded_join skill_id (codes ".run")
      ok (
          SynthesizedRuntime.cli
            (record {
              name = action_name;
              description = "Run the installed skill with exact argument tokens.";
              input_schema =
                  synthesize_cli_input_schema contract.auth.profile_selection stdin.mode
                    stdin.sensitivity directory.mode limits;
            })
            (record {
              executable = executable;
              command_prefix = prefix;
              environment = contract.requires.environment;
              interaction = interaction;
              stdin_mode = stdin.mode;
              stdin_sensitivity = stdin.sensitivity;
              working_directory = directory.mode;
              limits = limits;
              model_argument_limits = record {
                max_items = max_fixed_arguments;
                max_item_bytes = max_argument_bytes;
                max_combined_bytes = max_fixed_argument_bytes;
                reject_control_characters = true;
              };
            }))
synthesize_runtime skill_id contract (RuntimeProtocol.mcp transport discovery limits) = do
  local_namespace ← namespace_of skill_id discovery.namespace
  ok (
      SynthesizedRuntime.mcp (record {
        local_namespace = local_namespace;
        naming_strategy = "skill_namespace_dot_v1";
        transport = transport;
        runtime_limits = limits;
        policy = discovery;
        catalog_limits = record {
          max_tools = max_tools_of discovery;
          max_tool_name_bytes = max_discovered_mcp_tool_name_bytes;
          max_description_bytes = 8 * 1024;
          max_schema_bytes = 256 * 1024;
          max_catalog_bytes = 8 * 1024 * 1024;
          max_schema_depth = 32;
          max_schema_nodes = 10000;
        };
      }))

unfoldable pub synthesize_runtime_catalog :
    Text → SkillRuntimeContract → Result ManifestSynthesisError SynthesizedRuntimeCatalog
synthesize_runtime_catalog skill_id contract = do
  guard (is_skill_id skill_id) (
      synthesis_error ManifestSynthesisErrorCode.invalid_skill_id "skill_id"
        "the skill identifier is not portable or exceeds its size limit")
  runtime ← synthesize_runtime skill_id contract contract.runtime
  ok (record {
    schema_version = synthesized_runtime_catalog_v1;
    skill_id = skill_id;
    runtime = runtime;
    security_floor = record {
      auth_kind = contract.auth.kind;
      auth_requirement = contract.auth.requirement;
      provider = contract.auth.provider;
      profile_selection = contract.auth.profile_selection;
      policy = contract.policy_floor;
    };
  })
