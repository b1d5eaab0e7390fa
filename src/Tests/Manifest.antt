-- ===== src/Tests/Manifest.antt =====
-- Runs of the validation of tool-runtime-core/src/manifest_validation.rs.
use magic_run.Prelude.{
  ◌≡◌, refl, true, Option, none, [], ◌∷◌, Text, codes, ok, Text-discrete, byte_len, is_control,
  split,
}
use magic_run.Prelude.Sets.{contains, one_of, has_prefix, to_ascii_uppercase, to_ascii_lowercase}
use magic_run.Manifest.Mcp.{
  CliInteraction, StdinMode, DataSensitivity, WorkingDirectoryMode, RuntimeLimits, ApprovalClass,
  RuntimeProtocol,
}
use magic_run.Manifest.Auth.{
  AuthKind, AuthRequirement, ProfileSelection, AuthStorage, InjectionSource, InjectionTarget,
  IdentityContract, LifecycleStatusOutputFormat, LifecycleObservedAuthState,
  LifecycleStatusObservation, AuthContract, AuthLifecycle, SkillRuntimeContract,
}
use magic_run.Manifest.Equality.{
  CliInteraction-discrete, StdinMode-discrete, DataSensitivity-discrete, AuthKind-discrete,
  AuthRequirement-discrete, LifecycleStatusOutputFormat-discrete,
  LifecycleObservedAuthState-discrete, LifecycleStatusRule-discrete,
}
use magic_run.Manifest.Limits.{validate_limits}
use magic_run.Manifest.Vocabulary.{
  is_identifier, is_executable_name, is_path_segment, is_relative_path, is_reference,
  is_reference_segment, reference_char, is_environment_name, is_process_name,
  is_interpreter_injection_environment_name, is_safe_injection_environment_name,
}
use magic_run.Manifest.Bounds.{bound_runtime, bound_floor, validate_collection_bounds}
use magic_run.Manifest.Commands.{
  fixed_arguments_from, validate_fixed_arguments, safe_code_target, interpreter_target_is_safe,
  reject_inline_code_prefix, validate_stdin,
}
use magic_run.Manifest.Requirements.{
  fixed_environment_from, validate_fixed_environment, check_executable, check_process,
  validate_requirements,
}
use magic_run.Manifest.Discovery.{Url}
use magic_run.Manifest.Lifecycles.{
  check_predicates, check_exit_codes, check_rule_shape, check_rules,
  validate_lifecycle_status_observation, validate_lifecycle,
}
use magic_run.Manifest.Injections.{
  validate_injection_source, target_fits, validate_injection_target, InjectionTargetKey-discrete,
  has_target, injections_from, validate_injections,
}
use magic_run.Manifest.Authentication.{
  validate_auth_requirement, validate_auth_provider, validate_profile_selection, storage_fits,
  validate_auth_storage, secret_names_from, validate_secret_bindings, validate_identity, compatible,
  validate_protocol_auth_compatibility, validate_auth,
}
use magic_run.Manifest.Validation.{
  skill_runtime_contract_v1, executable_of, check_reference, validate_policy_floor,
  validate_runtime, validate_skill_runtime_contract,
}
use magic_run.Manifest.Confined.{IsConfined, is_relative_path-IsConfined}
use magic_run.Manifest.Injected.{IsInjected, validate_skill_runtime_contract-IsInjected}
use magic_run.Manifest.Observed.{IsObservation, validate_lifecycle_status_observation-IsObservation}

-- No test parses a URL.
abbrev pub no_url : Text → Option Url
no_url value = none

abbrev pub no_limits : RuntimeLimits
no_limits = record {
  timeout_secs = none;
  stdin_bytes = none;
  stdout_bytes = none;
  stderr_bytes = none;
  memory_bytes = none;
}

abbrev no_hooks : AuthLifecycle
no_hooks = record {
  status = none;
  status_observation = none;
  login = none;
  logout = none;
  refresh = none;
  login_prompts = [];
}

abbrev pub no_auth : AuthContract
no_auth = record {
  kind = AuthKind.nothing;
  requirement = AuthRequirement.nothing;
  provider = none;
  profile_selection = ProfileSelection.nothing;
  secret_bindings = [];
  storage = AuthStorage.nothing;
  injections = [];
  lifecycle = no_hooks;
  identity = IdentityContract.nothing;
}

abbrev token_auth : AuthContract
token_auth = record no_auth {
  kind = AuthKind.secrets;
  requirement = AuthRequirement.required;
  secret_bindings = record { name = codes "token"; secret_ref = codes "kv/token" } ∷ [];
  injections =
      record {
        source = InjectionSource.secret (codes "token");
        target = InjectionTarget.environment (codes "GH_TOKEN");
      }
      ∷ record { source = InjectionSource.secret (codes "token"); target = InjectionTarget.stdin }
      ∷ [];
}

abbrev python_cli : RuntimeProtocol
python_cli =
    RuntimeProtocol.cli (codes "-m" ∷ codes "gh" ∷ []) CliInteraction.batch
      (record { mode = StdinMode.denied; sensitivity = DataSensitivity.public })
      (record { mode = WorkingDirectoryMode.denied }) no_limits

-- A Python module with a token in its environment and on its standard input.
abbrev pub python_contract : SkillRuntimeContract
python_contract = record {
  schema_version = skill_runtime_contract_v1;
  requires = record { bins = codes "python3" ∷ []; entrypoint = none; environment = [] };
  runtime = python_cli;
  auth = token_auth;
  policy_floor = record {
    approval = ApprovalClass.ordinary;
    required_grants = codes "net" ∷ [];
    resource_scopes = [];
    required_resource_authorities = [];
  };
}

pub python_valid : validate_skill_runtime_contract no_url python_contract ≡ ok tt
unfolding validate_skill_runtime_contract validate_collection_bounds bound_runtime bound_floor
    validate_requirements validate_fixed_environment fixed_environment_from check_executable
    is_executable_name is_identifier one_of Text-discrete byte_len check_process validate_runtime
    executable_of validate_fixed_arguments fixed_arguments_from reject_inline_code_prefix
    interpreter_target_is_safe safe_code_target to_ascii_lowercase validate_stdin StdinMode-discrete
    DataSensitivity-discrete CliInteraction-discrete validate_limits validate_policy_floor
    check_reference is_reference is_reference_segment reference_char split validate_auth
    validate_auth_requirement AuthKind-discrete AuthRequirement-discrete validate_auth_provider
    validate_profile_selection validate_auth_storage storage_fits validate_secret_bindings
    secret_names_from validate_lifecycle validate_identity validate_injections injections_from
    validate_injection_source validate_injection_target target_fits
    is_safe_injection_environment_name is_environment_name is_process_name to_ascii_uppercase
    has_prefix is_interpreter_injection_environment_name has_target contains
    InjectionTargetKey-discrete validate_protocol_auth_compatibility compatible is_control
python_valid = refl

validate_skill_runtime_contract-IsInjected_example : IsInjected token_auth python_contract.runtime
validate_skill_runtime_contract-IsInjected_example =
    validate_skill_runtime_contract-IsInjected no_url python_contract python_valid

path_accepted : is_relative_path (codes "auth/key.pem") ≡ true
unfolding is_relative_path is_path_segment is_identifier one_of Text-discrete byte_len split
    is_control
path_accepted = refl

is_relative_path-IsConfined_example : IsConfined (codes "auth/key.pem")
is_relative_path-IsConfined_example =
    is_relative_path-IsConfined (codes "auth/key.pem") path_accepted

abbrev observation : LifecycleStatusObservation
observation = record {
  format = LifecycleStatusOutputFormat.exit_code;
  rules =
      record { state = LifecycleObservedAuthState.ready; exit_codes = 0 ∷ []; all = [] }
      ∷ record { state = LifecycleObservedAuthState.missing; exit_codes = 1 ∷ 2 ∷ []; all = [] }
      ∷ [];
}

observation_valid :
    validate_lifecycle_status_observation observation IdentityContract.nothing ≡ ok tt
unfolding validate_lifecycle_status_observation check_rules check_exit_codes check_rule_shape
    check_predicates LifecycleStatusOutputFormat-discrete LifecycleObservedAuthState-discrete
    LifecycleStatusRule-discrete
observation_valid = refl

validate_lifecycle_status_observation-IsObservation_example : IsObservation observation
validate_lifecycle_status_observation-IsObservation_example =
    validate_lifecycle_status_observation-IsObservation observation IdentityContract.nothing
      observation_valid
