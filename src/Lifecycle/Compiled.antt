-- ===== src/Lifecycle/Compiled.antt =====
-- Exactly when `for_profile` of tool-runtime-core/src/credential_lifecycle.rs makes a plan.
use magic_run.Prelude.{
  →holds, ◌≡◌, ◌↔◌, refl, sym, Bool, true, false, ◌&&◌, not, some, Text, ok, arith, bind_inversion,
  guard, guard_inversion, ok_or, ok_or_inversion, ok-injective, holds, holds→, →holds, is_some,
  Text-discrete, subst,
}
use magic_run.Manifest.Auth.{SkillRuntimeContract}
use magic_run.Credentials.Keys.{CredentialProfileKey, CredentialProfileKey-discrete}
use magic_run.Credentials.Plans.{CredentialLifecyclePlan, CredentialLifecycleOperation}
use magic_run.Credentials.Profiles.{CredentialProfileStatus}
use magic_run.Lifecycle.Errors.{
  unsupported_contract, target_mismatch, profile_disabled, profile_not_found, registry_unavailable,
  hook_unavailable, missing_expected_identity,
}
use magic_run.Lifecycle.Compile.{
  Registry, has_lifecycle, is_cli, lifecycle_executable, profile_selection_accepts_key, hook_of,
  lifecycle_hook, is_refused, expects_identity, is_provider_binding, for_registry_status,
  for_profile,
}
use magic_run.Lifecycle.Declared.{
  HasExecutable, IsRegistered, IsCompiled, has_lifecycle_iff, is_cli_iff, hook_of_iff,
  is_refused_iff, expects_identity_iff, profile_selection_accepts_key_iff, is_provider_binding_iff,
  from_hook_iff,
}

lifecycle_executable_inversion :
    (contract : SkillRuntimeContract) {executable : Text}
    → lifecycle_executable contract ≡ ok executable
    → HasExecutable contract executable
unfolding lifecycle_executable
lifecycle_executable_inversion contract e =
    let (u, supported, e1) =
      bind_inversion
        (guard (has_lifecycle contract.auth.kind && is_cli contract.runtime) unsupported_contract) _
        e in
    let test =
      guard_inversion (has_lifecycle contract.auth.kind && is_cli contract.runtime) _ supported in
    record {
      session = (has_lifecycle_iff contract.auth.kind).0 (ground arith);
      local = (is_cli_iff contract.runtime).0 (ground arith);
      first_bin = ok_or_inversion _ _ e1;
    }

module _ (contract : SkillRuntimeContract) (executable : Text) (profile : CredentialProfileStatus)
    (operation : CredentialLifecycleOperation) (plan : CredentialLifecyclePlan) where
  for_registry_status-IsRegistered :
      for_registry_status contract executable profile operation ≡ ok plan
      → IsRegistered contract executable profile operation plan
  unfolding for_registry_status lifecycle_hook
  for_registry_status-IsRegistered e =
      let (u, usable, e1) =
        bind_inversion
          (guard (not (is_refused profile.metadata.availability operation)) profile_disabled) _ e in
      let (v, identified, e2) =
        bind_inversion
          (guard
            (not (
              expects_identity contract.auth.identity
              && not (is_some profile.metadata.expected_identity)))
            missing_expected_identity)
          _ e1 in
      let (hook, declared, e3) =
        bind_inversion (ok_or (hook_of contract operation) hook_unavailable) _ e2 in
      record {
        usable = (is_refused_iff profile.metadata.availability operation).0 (
            not_true (is_refused profile.metadata.availability operation)
              (guard_inversion _ _ usable));
        identified =
            (expects_identity_iff contract.auth.identity profile.metadata.expected_identity).0
              (not_true _ (guard_inversion _ _ identified));
        hook = hook;
        declared = (hook_of_iff contract operation hook).0 (ok_or_inversion _ _ declared);
        made = (from_hook_iff contract executable profile operation hook plan).0 (ok-injective e3);
      }
    where
      not_true : (b : Bool) → not b ≡ true → b ≡ false
      not_true b e = ground (arith)

  IsRegistered-for_registry_status :
      IsRegistered contract executable profile operation plan
      → for_registry_status contract executable profile operation ≡ ok plan
  unfolding for_registry_status lifecycle_hook
  IsRegistered-for_registry_status h =
      let usable = (is_refused_iff profile.metadata.availability operation).1 h.usable in
      let identified =
        (expects_identity_iff contract.auth.identity profile.metadata.expected_identity).1
          h.identified in
      let declared = (hook_of_iff contract operation h.hook).1 h.declared in
      let made = (from_hook_iff contract executable profile operation h.hook plan).1 h.made in
      rw (usable, identified, declared, made) refl

module _ (registry : Registry) (contract : SkillRuntimeContract) (key : CredentialProfileKey)
    (operation : CredentialLifecycleOperation) (plan : CredentialLifecyclePlan) where
  for_profile-IsCompiled :
      for_profile registry contract key operation ≡ ok plan
      → IsCompiled registry contract key operation plan
  unfolding for_profile
  for_profile-IsCompiled e =
      let (executable, local, e1) = bind_inversion (lifecycle_executable contract) _ e in
      let (provider, named, e2) =
        bind_inversion (ok_or contract.auth.provider unsupported_contract) _ e1 in
      let (u, matches, e3) =
        bind_inversion
          (guard
            (holds (Text-discrete key.provider provider)
              && is_provider_binding key.binding
              && profile_selection_accepts_key contract.auth.profile_selection key)
            target_mismatch)
          _ e2 in
      let (answer, answered, e4) =
        bind_inversion (ok_or (registry key) registry_unavailable) _ e3 in
      let (profile, found, e5) = bind_inversion (ok_or answer profile_not_found) _ e4 in
      let (v, own, e6) =
        bind_inversion
          (guard (holds (CredentialProfileKey-discrete profile.metadata.key key))
            registry_unavailable)
          _ e5 in
      let match = guard_inversion _ _ matches in
      let same : key.provider ≡ provider =
        holds→ (Text-discrete key.provider provider) (ground (arith)) in
      let name : contract.auth.provider ≡ some provider = ok_or_inversion _ _ named in
      let value : answer ≡ some profile = ok_or_inversion _ _ found in
      record {
        executable = executable;
        local = lifecycle_executable_inversion contract local;
        provider = subst (λ p. contract.auth.provider ≡ some p) (sym same) name;
        binding = (is_provider_binding_iff key.binding).0 (ground (arith));
        accepted =
            (profile_selection_accepts_key_iff contract.auth.profile_selection key).0
              (ground (arith));
        profile = profile;
        found = subst (λ a. registry key ≡ some a) value (ok_or_inversion _ _ answered);
        own = holds→ _ (guard_inversion _ _ own);
        registered = for_registry_status-IsRegistered contract executable profile operation plan e6;
      }

  IsCompiled-for_profile :
      IsCompiled registry contract key operation plan
      → for_profile registry contract key operation ≡ ok plan
  unfolding for_profile lifecycle_executable
  IsCompiled-for_profile h =
      let named = →holds (Text-discrete key.provider key.provider) refl in
      let own = →holds (CredentialProfileKey-discrete h.profile.metadata.key key) h.own in
      let session = (has_lifecycle_iff contract.auth.kind).1 h.local.session in
      let local = (is_cli_iff contract.runtime).1 h.local.local in
      let binding = (is_provider_binding_iff key.binding).1 h.binding in
      let accepted =
        (profile_selection_accepts_key_iff contract.auth.profile_selection key).1 h.accepted in
      let made =
        IsRegistered-for_registry_status contract h.executable h.profile operation plan
          h.registered in
      simp (
        session, local, h.local.first_bin, h.provider, named, binding, accepted, h.found, own, made,
      )

  -- A plan is made for a profile exactly when the contract keeps a session for a command line
  -- program and has a first executable, the key has the contract's provider, no other binding and an
  -- alias that the contract's selection accepts, the registry has the key's own status, which is
  -- enabled unless the operation is a status or a logout and has an identity where the contract
  -- expects one, and the contract declares a hook for that operation. The plan then runs that
  -- executable with that hook's arguments, interaction and timeout, for the registry's revision of
  -- the profile, and only a plan for the status carries the contract's observation.
  pub for_profile_iff :
      (for_profile registry contract key operation ≡ ok plan)
      ↔ IsCompiled registry contract key operation plan
  for_profile_iff = (for_profile-IsCompiled, IsCompiled-for_profile)
