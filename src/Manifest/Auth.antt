-- ===== src/Manifest/Auth.antt =====
-- Authentication, its lifecycle, the policy floor and the contract itself, of
-- tool-runtime-core/src/manifest.rs.
use magic_run.Prelude.{ℕ, Bool, Option, List, Text}
use magic_run.Manifest.Mcp.{CliInteraction, ApprovalClass, RuntimeProtocol}

pub data AuthKind : Type 0 where
  nothing secrets cli_profile oauth_session : AuthKind
  browser_profile native_permission delegated_credential : AuthKind

pub data AuthRequirement : Type 0 where
  nothing optional required at_least_one conditional : AuthRequirement

pub data ProfileSelection : Type 0 where
  nothing : ProfileSelection
  selectable : Option Text → ProfileSelection
  fixed : Text → ProfileSelection
  implicit : ProfileSelection

pub record SecretBindingRef : Type 0 where
  pub name : Text
  pub secret_ref : Text

pub data AuthStorage : Type 0 where
  nothing : AuthStorage
  scoped_directory : Text → Bool → AuthStorage
  cli_owned browser_profile operating_system ephemeral_grant : AuthStorage

pub data InjectionSource : Type 0 where
  secret : Text → InjectionSource
  profile_auth_root : List Text → InjectionSource
  profile_alias expected_identity : InjectionSource

pub data InjectionTarget : Type 0 where
  environment : Text → InjectionTarget
  stdin : InjectionTarget
  scoped_file : Text → InjectionTarget
  config_directory : Text → InjectionTarget

pub record InjectionBinding : Type 0 where
  pub source : InjectionSource
  pub target : InjectionTarget

pub data LifecyclePromptKind : Type 0 where
  username password otp device_code operator : LifecyclePromptKind

pub record LifecyclePrompt : Type 0 where
  pub kind : LifecyclePromptKind
  pub marker : Text

pub record LifecycleHook : Type 0 where
  pub args : List Text
  pub interaction : CliInteraction
  pub timeout_secs : Option ℕ

pub data LifecycleStatusOutputFormat : Type 0 where
  exit_code json : LifecycleStatusOutputFormat

pub data LifecycleObservedAuthState : Type 0 where
  missing interaction_required ready expired : LifecycleObservedAuthState
  revoked denied error : LifecycleObservedAuthState

-- An i64 as its bit pattern, a number below 2 ^ 64.
pub data LifecycleJsonScalar : Type 0 where
  string : Text → LifecycleJsonScalar
  boolean : Bool → LifecycleJsonScalar
  integer : ℕ → LifecycleJsonScalar
  null : LifecycleJsonScalar

pub data LifecycleJsonPredicate : Type 0 where
  equals : Text → LifecycleJsonScalar → LifecycleJsonPredicate
  exists : Text → LifecycleJsonPredicate
  missing : Text → LifecycleJsonPredicate
  array_contains_all_strings : Text → List Text → LifecycleJsonPredicate

-- An i32 exit code as its bit pattern, a number below 2 ^ 32.
pub record LifecycleStatusRule : Type 0 where
  pub state : LifecycleObservedAuthState
  pub exit_codes : List ℕ
  pub all : List LifecycleJsonPredicate

pub record LifecycleStatusObservation : Type 0 where
  pub format : LifecycleStatusOutputFormat
  pub rules : List LifecycleStatusRule

pub record AuthLifecycle : Type 0 where
  pub status : Option LifecycleHook
  pub status_observation : Option LifecycleStatusObservation
  pub login : Option LifecycleHook
  pub logout : Option LifecycleHook
  pub refresh : Option LifecycleHook
  pub login_prompts : List LifecyclePrompt

pub data IdentitySelector : Type 0 where
  json_pointer : Text → IdentitySelector
  json_pointer_ascii_case_insensitive : Text → IdentitySelector

pub data IdentityContract : Type 0 where
  nothing : IdentityContract
  profile_expected : IdentitySelector → IdentityContract
  unverified : Text → IdentityContract

pub record AuthContract : Type 0 where
  pub kind : AuthKind
  pub requirement : AuthRequirement
  pub provider : Option Text
  pub profile_selection : ProfileSelection
  pub secret_bindings : List SecretBindingRef
  pub storage : AuthStorage
  pub injections : List InjectionBinding
  pub lifecycle : AuthLifecycle
  pub identity : IdentityContract

pub record PolicyFloor : Type 0 where
  pub approval : ApprovalClass
  pub required_grants : List Text
  pub resource_scopes : List Text
  pub required_resource_authorities : List Text

pub record RuntimeRequirements : Type 0 where
  pub bins : List Text
  pub entrypoint : Option Text
  pub environment : List (Text × Text)

pub record SkillRuntimeContract : Type 0 where
  pub schema_version : Text
  pub requires : RuntimeRequirements
  pub runtime : RuntimeProtocol
  pub auth : AuthContract
  pub policy_floor : PolicyFloor

pub data AuthState : Type 0 where
  unknown missing interaction_required authenticating ready : AuthState
  expired revoked identity_mismatch denied error : AuthState
