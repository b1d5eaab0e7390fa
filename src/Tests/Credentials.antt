-- ===== src/Tests/Credentials.antt =====
-- Runs of the identifiers and lifecycle plans of tool-runtime-core/src/credential_profiles.rs and
-- credential_lifecycle.rs.
use magic_run.Prelude.{
  ◌≡◌, ◌↔◌, refl, true, false, none, some, [], ◌∷◌, codes, ok, Text-discrete, byte_len,
}
use magic_run.Manifest.Mcp.{CliInteraction}
use magic_run.Manifest.Auth.{
  AuthKind, AuthState, LifecycleHook, ProfileSelection, SkillRuntimeContract,
}
use magic_run.Tests.Execution.{contract}
use magic_run.Credentials.Keys.{CredentialProfileKey, CredentialProfileBinding}
use magic_run.Credentials.Plans.{CredentialLifecyclePlan, CredentialLifecycleOperation}
use magic_run.Credentials.Profiles.{
  CredentialProfileStatus, CredentialProfileAvailability, portable_identifier, portable_byte,
  contains_dots,
}
use magic_run.Credentials.Identifiers.{IsName, portable_identifier-IsName}
use magic_run.Lifecycle.Compile.{Registry, for_profile, from_hook, target_of}
use magic_run.Lifecycle.Declared.{IsCompiled}
use magic_run.Lifecycle.Compiled.{for_profile_iff}

abbrev key : CredentialProfileKey
key = record {
  scope = record { principal = codes "ada"; workspace = codes "main" };
  provider = codes "github";
  alias = codes "work";
  binding = CredentialProfileBinding.provider;
}

abbrev status : CredentialProfileStatus
status = record {
  metadata = record {
    key = key;
    expected_identity = none;
    is_default = true;
    availability = CredentialProfileAvailability.enabled;
    revision = 4;
  };
  auth_state = AuthState.missing;
}

abbrev registry : Registry
registry asked = some (some status)

abbrev login : LifecycleHook
login = record {
  args = codes "auth" ∷ codes "login" ∷ [];
  interaction = CliInteraction.pty;
  timeout_secs = some 120;
}

abbrev with_login : SkillRuntimeContract
with_login = record contract {
  auth = record contract.auth {
    kind = AuthKind.cli_profile;
    provider = some (codes "github");
    profile_selection = ProfileSelection.fixed (codes "work");
    lifecycle = record contract.auth.lifecycle { login = some login };
  };
}

abbrev plan : CredentialLifecyclePlan
plan = from_hook CredentialLifecycleOperation.login (target_of status) with_login (codes "jq") login

for_profile_iff_example :
    (for_profile registry with_login key CredentialLifecycleOperation.login ≡ ok plan)
    ↔ IsCompiled registry with_login key CredentialLifecycleOperation.login plan
for_profile_iff_example =
    for_profile_iff registry with_login key CredentialLifecycleOperation.login plan

accepted : portable_identifier (codes "work-1.x") 128 false ≡ true
unfolding portable_identifier portable_byte contains_dots byte_len Text-discrete
accepted = refl

portable_identifier-IsName_example : IsName (codes "work-1.x") 128
portable_identifier-IsName_example =
    portable_identifier-IsName (codes "work-1.x") 128 false accepted
