-- ===== src/Execution/Governed.antt =====
-- From a validated contract to the execution contract: `validate_skill_runtime_contract` of
-- tool-runtime-core/src/manifest_validation.rs before `GovernedExecutionContract::compile` of
-- tool-runtime-core/src/governed_execution.rs.
use magic_run.Prelude.{
  ℕ, ◌≡◌, inl, inr, refl, sym, ap, ◌∙◌, subst, true, false, ◌&&◌, Option, some, List, [], ◌∷◌, Text,
  ok, ok_or, arith, first, is_some, not, All, holds, holds→, Bool-cases, bind_inversion, bind_total,
}
use magic_run.Manifest.Mcp.{
  CliInteraction, StdinMode, StdinContract, WorkingDirectoryContract, RuntimeLimits,
  RuntimeProtocol,
}
use magic_run.Manifest.Auth.{
  InjectionTarget, InjectionBinding, RuntimeRequirements, AuthContract, SkillRuntimeContract,
}
use magic_run.Manifest.Equality.{CliInteraction-discrete, InjectionTarget-discrete}
use magic_run.Manifest.Limits.{validate_limits}
use magic_run.Manifest.Discovery.{Url}
use magic_run.Manifest.Injections.{denies_stdin, target_fits}
use magic_run.Manifest.Validation.{executable_of, validate_runtime, validate_skill_runtime_contract}
use magic_run.Manifest.Validated.{runtime-validated}
use magic_run.Manifest.Injected.{injections-fit}
use magic_run.Manifest.Executable.{IsLaunched, validate_skill_runtime_contract-IsLaunched}
use magic_run.Execution.Errors.{unsupported_protocol}
use magic_run.Execution.Policy.{
  GovernedExecutionPolicy, GovernedExecutionContract, reserves_stdin, compile, compile_protocol,
}
use magic_run.Execution.Ceilings.{IsPolicy, AreCeilings, limits_of, compile-AreCeilings}

-- What a governed process is given. Its memory is limited only in a batch, and where a credential
-- owns its standard input the model has none.
pub record IsGoverned (contract : SkillRuntimeContract) (prefix : List Text)
    (interaction : CliInteraction) (stdin : StdinContract) (policy : GovernedExecutionPolicy)
    (compiled : GovernedExecutionContract) : Type 0 where
  pub launched : IsLaunched contract.requires prefix compiled.executable
  pub prefixed : compiled.command_prefix ≡ prefix
  pub interacts : compiled.interaction ≡ interaction
  pub reads : compiled.stdin_mode ≡ stdin.mode
  pub ceilings : AreCeilings (limits_of contract.runtime) policy compiled
  pub batch : is_some compiled.max_memory_bytes ≡ true → compiled.interaction ≡ CliInteraction.batch
  pub owned : compiled.credential_stdin_reserved ≡ true → compiled.stdin_mode ≡ StdinMode.denied

reserves-denies :
    (auth : AuthContract) (runtime : RuntimeProtocol) (injections : List InjectionBinding)
    → All (λ i. target_fits auth runtime i.source i.target ≡ true) injections
    → reserves_stdin injections ≡ true
    → denies_stdin runtime ≡ true
unfolding target_fits
reserves-denies auth runtime [] fits h = cc
reserves-denies auth runtime (i ∷ rest) (fit, fits) h =
    elim (Bool-cases (holds (InjectionTarget-discrete i.target InjectionTarget.stdin))) [
      | inl here ↦
          let fit' = subst (λ t. target_fits auth runtime i.source t ≡ true) (holds→ _ here) fit in
          ground arith
      | inr other ↦ reserves-denies auth runtime rest fits (ground arith)
    ]

module _ (prefix : List Text) (interaction : CliInteraction) (stdin : StdinContract)
    (directory : WorkingDirectoryContract) (limits : RuntimeLimits) where
  -- The parts of a compiled command line contract that are not lowered.
  record IsCompiled (contract : SkillRuntimeContract) (name : Text)
      (compiled : GovernedExecutionContract) : Type 0 where
    runs : compiled.executable ≡ name
    prefixed : compiled.command_prefix ≡ prefix
    interacts : compiled.interaction ≡ interaction
    reads : compiled.stdin_mode ≡ stdin.mode
    memory : compiled.max_memory_bytes ≡ limits.memory_bytes
    reserved : compiled.credential_stdin_reserved ≡ reserves_stdin contract.auth.injections

  compile_protocol-total :
      (contract : SkillRuntimeContract) (policy : GovernedExecutionPolicy) (executable : Text)
      → first contract.requires.bins ≡ some executable
      → (compiled : GovernedExecutionContract) × (compile_protocol
            (RuntimeProtocol.cli prefix interaction stdin directory limits)
            contract
            policy
          ≡ ok compiled)
  unfolding compile_protocol
  compile_protocol-total contract policy executable named =
      bind_total (ok_or (first contract.requires.bins) unsupported_protocol) _ executable
        (rw named refl) (_, refl)

  compile_protocol-IsCompiled :
      (contract : SkillRuntimeContract) (policy : GovernedExecutionPolicy) (executable : Text)
      (compiled : GovernedExecutionContract)
      → first contract.requires.bins ≡ some executable
      → compile_protocol
          (RuntimeProtocol.cli prefix interaction stdin directory limits)
          contract
          policy
        ≡ ok compiled
      → IsCompiled contract executable compiled
  unfolding compile_protocol
  compile_protocol-IsCompiled contract policy executable compiled named h = record {
    runs = ground arith;
    prefixed = ground arith;
    interacts = ground arith;
    reads = ground arith;
    memory = ground arith;
    reserved = ground arith;
  }

  runtime-limits :
      (parse : Text → Option Url) (requires : RuntimeRequirements)
      → validate_runtime parse requires
          (RuntimeProtocol.cli prefix interaction stdin directory limits)
        ≡ ok tt
      → (validate_limits limits ≡ ok tt)
        × (is_some limits.memory_bytes
              && not (holds (CliInteraction-discrete interaction CliInteraction.batch))
            ≡ false)
  unfolding validate_runtime
  runtime-limits parse requires h =
      let (executable, _, later) = bind_inversion (ok_or (executable_of requires) _) _ h in
      (ground arith, ground arith)

batch_only :
    (memory : Option ℕ) (interaction : CliInteraction)
    → is_some memory && not (holds (CliInteraction-discrete interaction CliInteraction.batch))
      ≡ false
    → is_some memory ≡ true
    → interaction ≡ CliInteraction.batch
batch_only memory interaction h e =
    holds→ (CliInteraction-discrete interaction CliInteraction.batch) (ground arith)

-- A validated command line contract whose executable is the first that it requires always compiles
-- under a policy within the immutable ceilings. What it compiles to launches the validated
-- executable with exactly the authored prefix, interaction and mode of the standard input, lowers
-- every ceiling, has a memory limit only in a batch, and where a credential owns its standard input,
-- denies that to the model.
pub validate-compile-IsGoverned :
    (parse : Text → Option Url) (contract : SkillRuntimeContract) (policy : GovernedExecutionPolicy)
    (prefix : List Text) (interaction : CliInteraction) (stdin : StdinContract)
    (directory : WorkingDirectoryContract) (limits : RuntimeLimits)
    → IsPolicy policy
    → validate_skill_runtime_contract parse contract ≡ ok tt
    → contract.runtime ≡ RuntimeProtocol.cli prefix interaction stdin directory limits
    → executable_of contract.requires ≡ first contract.requires.bins
    → (compiled : GovernedExecutionContract) × (compile contract policy ≡ ok compiled)
      × IsGoverned contract prefix interaction stdin policy compiled
unfolding compile
validate-compile-IsGoverned parse contract policy prefix interaction stdin directory limits bounded
      valid same leading =
    let (executable, launched) =
      validate_skill_runtime_contract-IsLaunched parse contract prefix interaction stdin directory
        limits valid same in
    let named = sym leading ∙ launched.chosen in
    let (compiled, made) =
      compile_protocol-total prefix interaction stdin directory limits contract policy executable
        named in
    let parts =
      compile_protocol-IsCompiled prefix interaction stdin directory limits contract policy
        executable compiled named made in
    let (limited, memory) =
      runtime-limits prefix interaction stdin directory limits parse contract.requires (
        subst (λ r. validate_runtime parse contract.requires r ≡ ok tt) same
          (runtime-validated parse contract valid)) in
    let compiles : compile contract policy ≡ ok compiled =
      subst (λ r. compile_protocol r contract policy ≡ ok compiled) (sym same) made in
    (
      compiled,
      compiles,
      record {
        launched = subst (λ e. IsLaunched contract.requires prefix e) (sym parts.runs) launched;
        prefixed = parts.prefixed;
        interacts = parts.interacts;
        reads = parts.reads;
        ceilings =
            compile-AreCeilings contract policy compiled bounded
              (subst (λ r. validate_limits (limits_of r) ≡ ok tt) (sym same) limited) compiles;
        batch = λ e.
            parts.interacts ∙ batch_only _ interaction memory (ap is_some (sym parts.memory) ∙ e);
        owned = λ e.
            parts.reads
            ∙ holds→ _ (
                subst (λ r. denies_stdin r ≡ true) same
                  (reserves-denies contract.auth contract.runtime contract.auth.injections
                    (injections-fit parse contract valid) (sym parts.reserved ∙ e)));
      },
    )
