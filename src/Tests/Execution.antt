-- ===== src/Tests/Execution.antt =====
-- Runs of the execution contract of tool-runtime-core/src/governed_execution.rs.
use magic_run.Prelude.{
  ◌≤◌, ◌≡◌, ◌≢◌, refl, ◌↔◌, Bool, true, false, Option, none, some, List, [], ◌∷◌, Text, codes, ok,
  err, arith, any, length, first, All, is_control, join, split, ◌==◌, byte_len, Text-discrete,
}
use magic_run.Manifest.Mcp.{
  CliInteraction, StdinMode, DataSensitivity, WorkingDirectoryMode, RuntimeProtocol, RuntimeLimits,
  ApprovalClass,
}
use magic_run.Manifest.Auth.{
  AuthKind, AuthRequirement, AuthStorage, ProfileSelection, IdentityContract, InjectionBinding,
  InjectionSource, InjectionTarget, SkillRuntimeContract,
}
use magic_run.Manifest.Limits.{validate_limits}
use magic_run.Manifest.Validation.{executable_of}
use magic_run.Execution.Governed.{IsGoverned, validate-compile-IsGoverned}
use magic_run.Tests.Manifest.{no_url, no_limits, python_contract, python_valid}
use magic_run.Execution.Errors.{invalid_working_directory}
use magic_run.Execution.Policy.{GovernedExecutionPolicy, GovernedExecutionContract, new, compile}
use magic_run.Execution.Request.{
  GovernedExecutionRequest, validate_working_directory, validate_arguments, sum_arguments,
  validate_stdin, value_is_invalid, collect_components, component_is_invalid, Bytes,
}
use magic_run.Execution.Contract.{
  GovernedExecutionIntent, admit, matches_validated_contract, bind_materialized_stdin, intent_of,
  admit_stdin, effective_timeout,
}
use magic_run.Execution.Terminal.{
  executor_owned, terminal_new, success, not_dispatched, IsMade, executor_owned-terminal_new,
}
use magic_run.Execution.Directory.{IsComponent, validate_working_directory-IsConfined}
use magic_run.Execution.Admission.{IsAdmitted, admit_iff}
use magic_run.Execution.Ceilings.{
  IsPolicy, AreCeilings, limits_of, new_iff, compile-AreCeilings, compile-admit-matches,
}
use magic_run.Execution.Binding.{
  IsOwned, IsBound, bind_materialized_stdin_iff, admit-bind-IsOwned, compile-ne-entrypoint,
}

abbrev policy : GovernedExecutionPolicy
policy = record {
  default_timeout_secs = 60;
  max_timeout_secs = 300;
  max_stdin_bytes = 1024;
  max_stdout_bytes = 4096;
  max_stderr_bytes = 4096;
}

abbrev limits : RuntimeLimits
limits = record {
  timeout_secs = some 30;
  stdin_bytes = none;
  stdout_bytes = some 2048;
  stderr_bytes = none;
  memory_bytes = none;
}

abbrev contract_with : List InjectionBinding → SkillRuntimeContract
contract_with injections = record {
  schema_version = codes "tool-runtime.skill-runtime.v1";
  requires = record {
    bins = codes "jq" ∷ codes "yq" ∷ [];
    entrypoint = some (codes "yq");
    environment = [];
  };
  runtime =
      RuntimeProtocol.cli (codes "-c" ∷ []) CliInteraction.batch
        (record { mode = StdinMode.optional; sensitivity = DataSensitivity.private })
        (record { mode = WorkingDirectoryMode.workspace }) limits;
  auth = record {
    kind = AuthKind.nothing;
    requirement = AuthRequirement.nothing;
    provider = none;
    profile_selection = ProfileSelection.nothing;
    secret_bindings = [];
    storage = AuthStorage.nothing;
    injections = injections;
    lifecycle = record {
      status = none;
      status_observation = none;
      login = none;
      logout = none;
      refresh = none;
      login_prompts = [];
    };
    identity = IdentityContract.nothing;
  };
  policy_floor = record {
    approval = ApprovalClass.ordinary;
    required_grants = [];
    resource_scopes = [];
    required_resource_authorities = [];
  };
}

abbrev pub contract : SkillRuntimeContract
contract = contract_with []

abbrev token_on_stdin : SkillRuntimeContract
token_on_stdin = contract_with (
    record { source = InjectionSource.secret (codes "token"); target = InjectionTarget.stdin } ∷ [])

abbrev compiled_with : Bool → GovernedExecutionContract
compiled_with reserved = record {
  schema_version = "tool-runtime.governed-execution.v1";
  executable = codes "jq";
  command_prefix = codes "-c" ∷ [];
  interaction = CliInteraction.batch;
  stdin_mode = StdinMode.optional;
  stdin_sensitivity = DataSensitivity.private;
  credential_stdin_reserved = reserved;
  working_directory = WorkingDirectoryMode.workspace;
  max_timeout_secs = 30;
  default_timeout_secs = 30;
  max_stdin_bytes = 1024;
  max_stdout_bytes = 2048;
  max_stderr_bytes = 4096;
  max_memory_bytes = none;
}

compile-contract : compile contract policy ≡ ok (compiled_with false)
unfolding compile
compile-contract = refl

abbrev request : GovernedExecutionRequest
request = record {
  arguments = codes ".name" ∷ [];
  argument_item_limit = 4096;
  stdin = none;
  working_directory = some (codes "src/app");
  timeout_secs = some 10;
}

abbrev pub intent_with : Bool → GovernedExecutionIntent
intent_with reserved =
    intent_of (compiled_with reserved) request 5 (codes "src" ∷ codes "app" ∷ []) 10

valid_policy : IsPolicy policy
valid_policy = omega arith

valid_limits : validate_limits limits ≡ ok tt
unfolding validate_limits
valid_limits = refl

admitted : (reserved : Bool) → admit (compiled_with reserved) request ≡ ok (intent_with reserved)
unfolding admit admit_stdin effective_timeout validate_arguments sum_arguments validate_stdin
    validate_working_directory value_is_invalid collect_components component_is_invalid byte_len
    is_control split Text-discrete
admitted true = refl
admitted false = refl

abbrev token : Bytes
token = 115 ∷ 51 ∷ []

abbrev bound : GovernedExecutionIntent
bound = record (intent_with true) { stdin = some token }

binds_token : bind_materialized_stdin (intent_with true) (some token) ≡ ok bound
unfolding bind_materialized_stdin
binds_token = refl

directory_accepted :
    validate_working_directory WorkingDirectoryMode.workspace (some (codes "src/app"))
    ≡ ok (codes "src" ∷ codes "app" ∷ [])
unfolding validate_working_directory value_is_invalid collect_components component_is_invalid
    byte_len is_control split Text-discrete
directory_accepted = refl

parent_refused :
    validate_working_directory WorkingDirectoryMode.workspace (some (codes "src/../etc"))
    ≡ err invalid_working_directory
unfolding validate_working_directory value_is_invalid collect_components component_is_invalid
    byte_len is_control split Text-discrete
parent_refused = refl

executor_owned-terminal_new_example :
    IsMade success not_dispatched
      (terminal_new success not_dispatched)
      (executor_owned success not_dispatched)
executor_owned-terminal_new_example = executor_owned-terminal_new success not_dispatched

validate_working_directory-IsConfined_example :
    (join b'/' (codes "src" ∷ codes "app" ∷ []) ≡ codes "src/app")
    × All IsComponent (codes "src" ∷ codes "app" ∷ [])
    × All (λ c. any (λ x. x == b'/') c ≡ false) (codes "src" ∷ codes "app" ∷ [])
    × All (λ c. any (λ x. x == b'\\') c ≡ false) (codes "src" ∷ codes "app" ∷ [])
    × All (λ c. any is_control c ≡ false) (codes "src" ∷ codes "app" ∷ [])
    × (length (codes "src" ∷ codes "app" ∷ []) ≤ 64)
validate_working_directory-IsConfined_example =
    validate_working_directory-IsConfined WorkingDirectoryMode.workspace (codes "src/app")
      (codes "src" ∷ codes "app" ∷ []) directory_accepted

admit_iff_example :
    (admit (compiled_with false) request ≡ ok (intent_with false))
    ↔ IsAdmitted (compiled_with false) request (intent_with false)
admit_iff_example = admit_iff (compiled_with false) request (intent_with false)

new_iff_example : (new 60 300 1024 4096 4096 ≡ ok policy) ↔ IsPolicy policy
new_iff_example = new_iff policy

compile-AreCeilings_example : AreCeilings (limits_of contract.runtime) policy (compiled_with false)
compile-AreCeilings_example =
    compile-AreCeilings contract policy (compiled_with false) valid_policy valid_limits
      compile-contract

compile-admit-matches_example : matches_validated_contract (intent_with false) contract ≡ true
compile-admit-matches_example =
    compile-admit-matches contract policy (compiled_with false) request (intent_with false)
      valid_policy valid_limits compile-contract (admitted false)

bind_materialized_stdin_iff_example :
    (bind_materialized_stdin (intent_with true) (some token) ≡ ok bound)
    ↔ IsBound (intent_with true) (some token) bound
bind_materialized_stdin_iff_example =
    bind_materialized_stdin_iff (intent_with true) (some token) bound

admit-bind-IsOwned_example : IsOwned true none (some token) (some token) 1024
admit-bind-IsOwned_example =
    admit-bind-IsOwned (compiled_with true) request (some token) (intent_with true) bound
      (admitted true) binds_token

jq_before_yq : ◌≢◌ {A = Option Text} (some (codes "jq")) (some (codes "yq"))
jq_before_yq e = ground arith

compile-ne-entrypoint_example : ◌≢◌ {A = Text} (codes "jq") (codes "yq")
compile-ne-entrypoint_example =
    compile-ne-entrypoint contract policy (compiled_with false) (codes "yq") refl jq_before_yq
      compile-contract

python_leading : executable_of python_contract.requires ≡ first python_contract.requires.bins
unfolding executable_of
python_leading = refl

validate-compile-IsGoverned_example :
    (compiled : GovernedExecutionContract) × (compile python_contract policy ≡ ok compiled)
    × IsGoverned python_contract
        (codes "-m" ∷ codes "gh" ∷ [])
        CliInteraction.batch
        (record { mode = StdinMode.denied; sensitivity = DataSensitivity.public })
        policy
        compiled
validate-compile-IsGoverned_example =
    validate-compile-IsGoverned no_url python_contract policy (codes "-m" ∷ codes "gh" ∷ [])
      CliInteraction.batch
      (record { mode = StdinMode.denied; sensitivity = DataSensitivity.public })
      (record { mode = WorkingDirectoryMode.denied }) no_limits valid_policy python_valid refl
      python_leading
