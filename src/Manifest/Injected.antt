-- ===== src/Manifest/Injected.antt =====
-- What the checks of injections in tool-runtime-core/src/manifest_validation.rs let through.
use magic_run.Prelude.{
  ◌≡◌, ◌≢◌, ◌⊎◌, ◌↔◌, inl, inr, refl, sym, ◌∙◌, subst, true, false, not, Option, List, [], ◌∷◌, map,
  Text, Result, ok, err, arith, any, →holds, All, All-map, bind_inversion, guard_bind, ok-injective,
}
use magic_run.Prelude.Sorting.{IsPairwise}
use magic_run.Prelude.Sets.{contains, contains_nil}
use magic_run.Manifest.Refusal.{ManifestValidationError}
use magic_run.Manifest.Mcp.{RuntimeProtocol}
use magic_run.Manifest.Auth.{InjectionBinding, AuthContract, SkillRuntimeContract}
use magic_run.Manifest.Injections.{
  InjectionTargetKey, InjectionTargetKey-discrete, has_target, target_fits,
  validate_injection_source, validate_injection_target, injections_from, validate_injections,
}
use magic_run.Manifest.Discovery.{Url}
use magic_run.Manifest.Validation.{validate_skill_runtime_contract}
use magic_run.Manifest.Validated.{auth-validated, auth-parts}
use magic_run.Manifest.Sources.{
  Uses, Declared, Sourced, validate_injection_source-Sourced, validate_secret_bindings-contains,
  all_used, Uses-Declared,
}
use magic_run.Manifest.Targets.{IsSafeTarget, target_fits-IsSafeTarget}

has_target-apart :
    (targets : List InjectionTargetKey) (a b : InjectionTargetKey)
    → has_target (a ∷ targets) b ≡ false
    → (a ≢ b) × (has_target targets b ≡ false)
unfolding has_target
has_target-apart targets a b h =
    (λ e. let same = →holds (InjectionTargetKey-discrete a b) e in ground (arith), ground (arith))

validate_injection_target_lem :
    (auth : AuthContract) (runtime : RuntimeProtocol) (i : InjectionBinding)
    {target : InjectionTargetKey}
    → validate_injection_target auth runtime i ≡ ok target
    → (target_fits auth runtime i.source i.target ≡ true) × (i.target ≡ target)
unfolding validate_injection_target
validate_injection_target_lem auth runtime i h =
    let (safe, same) = guard_bind (target_fits auth runtime i.source i.target) _ (ok i.target) h in
    (safe, ok-injective same)

-- What the loop says of the injections and of the secrets after it.
record IsLooped (auth : AuthContract) (runtime : RuntimeProtocol) (names : List Text)
    (targets : List InjectionTargetKey) (used final : List Text)
    (injections : List InjectionBinding) : Type 0 where
  fits : All (λ i. target_fits auth runtime i.source i.target ≡ true) injections
  declared : All (λ i. Declared names i.source) injections
  fresh : All (λ i. has_target targets i.target ≡ false) injections
  distinct : IsPairwise (λ i j. i.target ≢ j.target) injections
  uses :
      (name : Text)
      → contains final name ≡ true
      → Uses injections name ⊎ (contains used name ≡ true)

module _ (auth : AuthContract) (runtime : RuntimeProtocol) (names : List Text) where
  one_step :
      (targets : List InjectionTargetKey) (used final : List Text) (i : InjectionBinding)
      (rest : List InjectionBinding)
      → injections_from auth runtime names targets used (i ∷ rest) ≡ ok final
      → (used' : List Text) × Sourced names i.source used used'
        × (target_fits auth runtime i.source i.target ≡ true)
        × (has_target targets i.target ≡ false)
        × (injections_from auth runtime names (i.target ∷ targets) used' rest ≡ ok final)
  unfolding injections_from
  one_step targets used final i rest h =
      let (used', source, later) =
        bind_inversion (validate_injection_source auth i.source names used) _ h in
      let (target, fits, last) =
        bind_inversion (validate_injection_target auth runtime i) _ later in
      let (safe, same) = validate_injection_target_lem auth runtime i fits in
      let (fresh, run) =
        guard_bind (not (has_target targets target)) _
          (injections_from auth runtime names (target ∷ targets) used' rest) last in
      (
        used',
        validate_injection_source-Sourced auth i.source names used used' source,
        safe,
        subst (λ t. has_target targets t ≡ false) (sym same) (ground (arith)),
        subst (λ t. injections_from auth runtime names (t ∷ targets) used' rest ≡ ok final)
            (sym same) run,
      )

  injections_from-IsLooped :
      (targets : List InjectionTargetKey) (used final : List Text)
      (injections : List InjectionBinding)
      → injections_from auth runtime names targets used injections ≡ ok final
      → IsLooped auth runtime names targets used final injections
  unfolding injections_from
  injections_from-IsLooped targets used final [] h = record {
    fits = tt;
    declared = tt;
    fresh = tt;
    distinct = tt;
    uses = λ name e.
        let same : used ≡ final = ok-injective h in
        inr (subst (λ u. contains u name ≡ true) (sym same) e);
  }
  injections_from-IsLooped targets used final (i ∷ rest) h =
      let (used', source, safe, fresh, later) = one_step targets used final i rest h in
      let looped = injections_from-IsLooped (i.target ∷ targets) used' final rest later in
      record {
        fits = (safe, looped.fits);
        declared = (source.0, looped.declared);
        fresh = (
          fresh,
          All-map _ _ (λ j e. (has_target-apart targets i.target j.target e).1) rest looped.fresh,
        );
        distinct = (
          All-map _ _ (λ j e. (has_target-apart targets i.target j.target e).0) rest looped.fresh,
          looped.distinct,
        );
        uses = λ name e. elim (looped.uses name e) [
          | inl later_use ↦ inl (inr later_use)
          | inr seen ↦ elim (source.1 name seen) [
            | inl here ↦ inl (inl here)
            | inr before ↦ inr before
          ]
        ];
      }

injections-IsLooped :
    (auth : AuthContract) (runtime : RuntimeProtocol) (names : List Text)
    → validate_injections auth runtime names ≡ ok tt
    → (final : List Text) × IsLooped auth runtime names [] [] final auth.injections
      × (any (λ name. not (contains final name)) names ≡ false)
unfolding validate_injections
injections-IsLooped auth runtime names h =
    by_final (injections_from auth runtime names [] [] auth.injections) refl
  where
    by_final :
        (r : Result ManifestValidationError (List Text))
        → injections_from auth runtime names [] [] auth.injections ≡ r
        → (final : List Text) × IsLooped auth runtime names [] [] final auth.injections
          × (any (λ name. not (contains final name)) names ≡ false)
    by_final (ok final) e = (
      final,
      injections_from-IsLooped auth runtime names [] [] final auth.injections e,
      ground arith,
    )
    by_final (err failure) e = absurd (ground arith)

-- The injections of a contract are safe, do not meet, and use the declared secrets and no others.
pub record IsInjected (auth : AuthContract) (runtime : RuntimeProtocol) : Type 0 where
  pub safe : All (λ i. IsSafeTarget auth.provider runtime i.source i.target) auth.injections
  pub distinct : IsPairwise (λ i j. i.target ≢ j.target) auth.injections
  pub secrets :
      (name : Text)
      → (contains (map (λ b. b.name) auth.secret_bindings) name ≡ true) ↔ Uses auth.injections name

-- Every target of a validated contract fits its source and the runtime.
pub injections-fit :
    (parse : Text → Option Url) (contract : SkillRuntimeContract)
    → validate_skill_runtime_contract parse contract ≡ ok tt
    → All
        (λ i. target_fits contract.auth contract.runtime i.source i.target ≡ true)
        contract.auth.injections
injections-fit parse contract valid =
    let (names, _, injected, _) =
      auth-parts contract.auth contract.runtime _ (auth-validated parse contract valid) in
    let (_, looped, _) = injections-IsLooped contract.auth contract.runtime names injected in
    looped.fits

-- In a validated contract every injection has a safe target. A name of the environment is in no
-- letter case one of the listed names, nor behind one of the four listed prefixes, that a process, its
-- loader or its interpreter reads. The standard input takes a secret, and only where the contract
-- denies it to the model. A file takes a secret and is confined. A configuration directory has a
-- single name, and is made from a profile's root, or from a secret of the provider "minimax" under
-- the name that this one reads. No two injections have the same target, and a secret is declared
-- exactly when some injection uses it.
pub validate_skill_runtime_contract-IsInjected :
    (parse : Text → Option Url) (contract : SkillRuntimeContract)
    → validate_skill_runtime_contract parse contract ≡ ok tt
    → IsInjected contract.auth contract.runtime
validate_skill_runtime_contract-IsInjected parse contract valid =
    let (names, collected, injected, _) =
      auth-parts contract.auth contract.runtime _ (auth-validated parse contract valid) in
    let (final, looped, used) = injections-IsLooped contract.auth contract.runtime names injected in
    let same = validate_secret_bindings-contains contract.auth names collected in
    record {
      safe =
          All-map _ _
            (λ i e. target_fits-IsSafeTarget contract.auth contract.runtime i.source i.target e)
            contract.auth.injections looped.fits;
      distinct = looped.distinct;
      secrets = λ name. (
        λ e. uses_only _ _ (looped.uses name (all_used final names name used (same name ∙ e))),
        λ u. sym (same name) ∙ Uses-Declared names contract.auth.injections name looped.declared u,
      );
    }
  where
    uses_only :
        (injections : List InjectionBinding) (name : Text)
        → Uses injections name ⊎ (contains [] name ≡ true)
        → Uses injections name
    uses_only injections name (inl u) = u
    uses_only injections name (inr e) = absurd (contains_nil name e)
