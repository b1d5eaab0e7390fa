-- ===== src/Lifecycle/Declared.antt =====
-- What `for_profile` of tool-runtime-core/src/credential_lifecycle.rs asks of a contract, a key and a
-- registered profile, and the plan that it makes of them.
use magic_run.Prelude.{
  none, Option, ◌⊎◌, →holds, ◌≡◌, ◌↔◌, refl, sym, true, false, ◌&&◌, not, some, Text, arith, first,
  holds→, →holds, is_some, Text-discrete, subst,
}
use magic_run.Manifest.Auth.{
  AuthKind, IdentityContract, ProfileSelection, LifecycleStatusObservation, SkillRuntimeContract,
  LifecycleHook,
}
use magic_run.Manifest.Mcp.{RuntimeProtocol}
use magic_run.Credentials.Keys.{CredentialProfileBinding, CredentialProfileKey}
use magic_run.Credentials.Plans.{
  CredentialLifecyclePlan, CredentialLifecycleOperation, CredentialLifecycleTarget,
}
use magic_run.Credentials.Profiles.{CredentialProfileStatus, CredentialProfileAvailability}
use magic_run.Lifecycle.Compile.{
  Registry, has_lifecycle, is_cli, profile_selection_accepts_key, hook_of, observation_of,
  from_hook, is_refused, expects_identity, is_provider_binding, target_of,
}

abbrev pub IsCli : RuntimeProtocol → Type 0
IsCli (RuntimeProtocol.cli prefix interaction stdin directory limits) = Unit
IsCli (RuntimeProtocol.mcp transport discovery limits) = ⊥

-- The contract runs a command line program that keeps a session, and has a first executable.
pub record HasExecutable (contract : SkillRuntimeContract) (executable : Text) : Type 0 where
  pub session :
      (contract.auth.kind ≡ AuthKind.cli_profile) ⊎ (contract.auth.kind ≡ AuthKind.oauth_session)
  pub local : IsCli contract.runtime
  pub first_bin : first contract.requires.bins ≡ some executable

-- The hook that the contract declares for an operation.
abbrev pub Declares : SkillRuntimeContract → CredentialLifecycleOperation → LifecycleHook → Type 0
Declares contract operation hook =
    ((operation ≡ CredentialLifecycleOperation.status)
      × (contract.auth.lifecycle.status ≡ some hook))
    ⊎ ((operation ≡ CredentialLifecycleOperation.login)
        × (contract.auth.lifecycle.login ≡ some hook))
    ⊎ ((operation ≡ CredentialLifecycleOperation.logout)
        × (contract.auth.lifecycle.logout ≡ some hook))
    ⊎ ((operation ≡ CredentialLifecycleOperation.refresh)
        × (contract.auth.lifecycle.refresh ≡ some hook))

-- A disabled profile may only be asked for its status, or logged out.
abbrev pub IsUsable : CredentialProfileAvailability → CredentialLifecycleOperation → Type 0
IsUsable availability operation =
    (availability ≡ CredentialProfileAvailability.enabled)
    ⊎ (operation ≡ CredentialLifecycleOperation.status)
    ⊎ (operation ≡ CredentialLifecycleOperation.logout)

-- The identity that a contract with a profile's identity needs.
abbrev pub IsIdentified : IdentityContract → Option Text → Type 0
IsIdentified IdentityContract.nothing expected = Unit
IsIdentified (IdentityContract.unverified reason) expected = Unit
IsIdentified (IdentityContract.profile_expected selector) expected =
    (identity : Text) × (expected ≡ some identity)

-- A profile may be selected under its alias.
abbrev pub Accepts : ProfileSelection → Text → Type 0
Accepts ProfileSelection.nothing alias = ⊥
Accepts (ProfileSelection.selectable default) alias = Unit
Accepts (ProfileSelection.fixed own) alias = alias ≡ own
Accepts ProfileSelection.implicit alias = ⊥

-- Only a plan for the status carries the contract's observation.
abbrev pub Observes :
    SkillRuntimeContract → CredentialLifecycleOperation → Option LifecycleStatusObservation → Type 0
Observes contract CredentialLifecycleOperation.status observed =
    observed ≡ contract.auth.lifecycle.status_observation
Observes contract CredentialLifecycleOperation.login observed = observed ≡ none
Observes contract CredentialLifecycleOperation.logout observed = observed ≡ none
Observes contract CredentialLifecycleOperation.refresh observed = observed ≡ none

-- The plan that runs a hook for a profile.
pub record IsPlanOf (contract : SkillRuntimeContract) (executable : Text)
    (profile : CredentialProfileStatus) (operation : CredentialLifecycleOperation)
    (hook : LifecycleHook) (plan : CredentialLifecyclePlan) : Type 0 where
  pub own_contract : plan.contract ≡ contract
  pub own_operation : plan.operation ≡ operation
  pub own_target :
      plan.target
      ≡ CredentialLifecycleTarget.profile profile.metadata.key profile.metadata.revision
          profile.metadata.expected_identity
  pub own_kind : plan.auth_kind ≡ contract.auth.kind
  pub runs : plan.executable ≡ executable
  pub passes : plan.args ≡ hook.args
  pub interacts : plan.interaction ≡ hook.interaction
  pub limited : plan.timeout_secs ≡ hook.timeout_secs
  pub observes : Observes contract operation plan.status_observation
  pub own_identity : plan.identity_contract ≡ contract.auth.identity

-- The profile may be used for the operation, which the contract declares.
pub record IsRegistered (contract : SkillRuntimeContract) (executable : Text)
    (profile : CredentialProfileStatus) (operation : CredentialLifecycleOperation)
    (plan : CredentialLifecyclePlan) : Type 0 where
  pub usable : IsUsable profile.metadata.availability operation
  pub identified : IsIdentified contract.auth.identity profile.metadata.expected_identity
  pub hook : LifecycleHook
  pub declared : Declares contract operation hook
  pub made : IsPlanOf contract executable profile operation hook plan

pub record IsCompiled (registry : Registry) (contract : SkillRuntimeContract)
    (key : CredentialProfileKey) (operation : CredentialLifecycleOperation)
    (plan : CredentialLifecyclePlan) : Type 0 where
  pub executable : Text
  pub local : HasExecutable contract executable
  pub provider : contract.auth.provider ≡ some key.provider
  pub binding : key.binding ≡ CredentialProfileBinding.provider
  pub accepted : Accepts contract.auth.profile_selection key.alias
  pub profile : CredentialProfileStatus
  pub found : registry key ≡ some (some profile)
  pub own : profile.metadata.key ≡ key
  pub registered : IsRegistered contract executable profile operation plan

-- The tests of the program decide what they are for.
pub has_lifecycle_iff :
    (kind : AuthKind)
    → (has_lifecycle kind ≡ true)
      ↔ ((kind ≡ AuthKind.cli_profile) ⊎ (kind ≡ AuthKind.oauth_session))
has_lifecycle_iff kind = ground arith

pub is_cli_iff : (runtime : RuntimeProtocol) → (is_cli runtime ≡ true) ↔ IsCli runtime
is_cli_iff (RuntimeProtocol.cli prefix interaction stdin directory limits) = (λ h. tt, λ h. refl)
is_cli_iff (RuntimeProtocol.mcp transport discovery limits) = (λ h. cc, λ h. absurd h)

pub hook_of_iff :
    (contract : SkillRuntimeContract) (operation : CredentialLifecycleOperation)
    (hook : LifecycleHook)
    → (hook_of contract operation ≡ some hook) ↔ Declares contract operation hook
hook_of_iff contract operation hook = ground arith

pub is_refused_iff :
    (availability : CredentialProfileAvailability) (operation : CredentialLifecycleOperation)
    → (is_refused availability operation ≡ false) ↔ IsUsable availability operation
is_refused_iff availability operation = ground arith

pub expects_identity_iff :
    (identity : IdentityContract) (expected : Option Text)
    → (expects_identity identity && not (is_some expected) ≡ false) ↔ IsIdentified identity expected
expects_identity_iff IdentityContract.nothing expected = (λ h. tt, λ h. refl)
expects_identity_iff (IdentityContract.unverified reason) expected = (λ h. tt, λ h. refl)
expects_identity_iff (IdentityContract.profile_expected selector) none =
    (λ h. cc, λ (identity, e). cc)
expects_identity_iff (IdentityContract.profile_expected selector) (some expected) =
    (λ h. (expected, refl), λ h. refl)

pub profile_selection_accepts_key_iff :
    (selection : ProfileSelection) (key : CredentialProfileKey)
    → (profile_selection_accepts_key selection key ≡ true) ↔ Accepts selection key.alias
profile_selection_accepts_key_iff ProfileSelection.nothing key = (λ h. cc, λ h. absurd h)
profile_selection_accepts_key_iff (ProfileSelection.selectable default) key = (λ h. tt, λ h. refl)
profile_selection_accepts_key_iff (ProfileSelection.fixed own) key =
    (λ h. holds→ (Text-discrete key.alias own) h, λ h. →holds (Text-discrete key.alias own) h)
profile_selection_accepts_key_iff ProfileSelection.implicit key = (λ h. cc, λ h. absurd h)

pub is_provider_binding_iff :
    (binding : CredentialProfileBinding)
    → (is_provider_binding binding ≡ true) ↔ (binding ≡ CredentialProfileBinding.provider)
is_provider_binding_iff binding = ground arith

observation_of_iff :
    (contract : SkillRuntimeContract) (operation : CredentialLifecycleOperation)
    (observed : Option LifecycleStatusObservation)
    → (observed ≡ observation_of operation contract) ↔ Observes contract operation observed
observation_of_iff contract CredentialLifecycleOperation.status observed = (λ h. h, λ h. h)
observation_of_iff contract CredentialLifecycleOperation.login observed = (λ h. h, λ h. h)
observation_of_iff contract CredentialLifecycleOperation.logout observed = (λ h. h, λ h. h)
observation_of_iff contract CredentialLifecycleOperation.refresh observed = (λ h. h, λ h. h)

pub from_hook_iff :
    (contract : SkillRuntimeContract) (executable : Text) (profile : CredentialProfileStatus)
    (operation : CredentialLifecycleOperation) (hook : LifecycleHook)
    (plan : CredentialLifecyclePlan)
    → (from_hook operation (target_of profile) contract executable hook ≡ plan)
      ↔ IsPlanOf contract executable profile operation hook plan
from_hook_iff contract executable profile operation hook plan = (
  λ e. subst (IsPlanOf contract executable profile operation hook) e (record {
    own_contract = refl;
    own_operation = refl;
    own_target = refl;
    own_kind = refl;
    runs = refl;
    passes = refl;
    interacts = refl;
    limited = refl;
    observes = (observation_of_iff contract operation _).0 refl;
    own_identity = refl;
  }),
  λ h.
      let observes = (observation_of_iff contract operation plan.status_observation).1 h.observes in
      λ i. record {
        contract = sym h.own_contract i;
        operation = sym h.own_operation i;
        target = sym h.own_target i;
        auth_kind = sym h.own_kind i;
        executable = sym h.runs i;
        args = sym h.passes i;
        interaction = sym h.interacts i;
        timeout_secs = sym h.limited i;
        status_observation = sym observes i;
        identity_contract = sym h.own_identity i;
      },
)
