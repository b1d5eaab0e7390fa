-- ===== src/Manifest/Executable.antt =====
-- The process of a command line contract that tool-runtime-core/src/manifest_validation.rs lets
-- through.
use magic_run.Prelude.{
  ◌≡◌, inl, inr, refl, subst, true, false, Option, none, some, List, [], ◌∷◌, Text, ok, arith,
  first, All,
}
use magic_run.Prelude.Sets.{
  contains, contains-head, contains-cons, contains_nil, one_of, to_ascii_lowercase,
}
use magic_run.Manifest.Refusal.{for_each-All}
use magic_run.Manifest.Mcp.{
  CliInteraction, StdinContract, WorkingDirectoryContract, RuntimeLimits, RuntimeProtocol,
}
use magic_run.Manifest.Auth.{RuntimeRequirements, SkillRuntimeContract}
use magic_run.Manifest.Vocabulary.{is_executable_name}
use magic_run.Manifest.Commands.{interpreter_target_is_safe, reject_inline_code_prefix}
use magic_run.Manifest.Requirements.{
  check_executable, declared_in, check_process, validate_requirements,
}
use magic_run.Manifest.Discovery.{Url}
use magic_run.Manifest.Validation.{
  or_else, executable_of, validate_runtime, validate_skill_runtime_contract,
}
use magic_run.Manifest.Validated.{process-checked, runtime-validated, requirements-validated}
use magic_run.Manifest.Confined.{IsSegment, is_identifier-IsSegment}
use magic_run.Manifest.Interpreters.{IsFixed, interpreter_target_is_safe-IsFixed}

contains-All :
    (P : Text → Type 0) (xs : List Text) (value : Text)
    → All P xs
    → contains xs value ≡ true
    → P value
contains-All P [] value h e = absurd (contains_nil value e)
contains-All P (x ∷ xs) value (p, ps) e = elim (contains-cons x xs value e) [
  | inl same ↦ subst P same p
  | inr later ↦ contains-All P xs value ps later
]

check_executable-IsSegment :
    (executable : Text) → check_executable executable ≡ ok tt → IsSegment executable
unfolding check_executable is_executable_name
check_executable-IsSegment executable h = is_identifier-IsSegment executable (ground arith)

requirements-bins :
    (contract : SkillRuntimeContract)
    → validate_requirements contract ≡ ok tt
    → All (λ e. check_executable e ≡ ok tt) contract.requires.bins
unfolding validate_requirements
requirements-bins contract h = for_each-All check_executable contract.requires.bins (ground arith)

-- The executable of a command line contract, and the fixed arguments before the caller's.
pub record IsLaunched (requires : RuntimeRequirements) (prefix : List Text) (executable : Text)
    : Type 0 where
  pub chosen : executable_of requires ≡ some executable
  pub required : contains requires.bins executable ≡ true
  pub segment : IsSegment executable
  pub no_command_shell : one_of ("cmd" ∷ "cmd.exe" ∷ []) (to_ascii_lowercase executable) ≡ false
  pub fixed_target : IsFixed (to_ascii_lowercase executable) prefix

chosen-contains :
    (entrypoint : Option Text) (bins : List Text) (executable : Text)
    → declared_in bins entrypoint ≡ true
    → or_else entrypoint (first bins) ≡ some executable
    → contains bins executable ≡ true
chosen-contains (some e) bins executable declared h =
    let same : e ≡ executable = cc in subst (λ x. contains bins x ≡ true) same declared
chosen-contains none (b ∷ bins) executable declared h =
    let same : b ≡ executable = cc in
    subst (λ x. contains (b ∷ bins) x ≡ true) same (contains-head b bins)
chosen-contains none [] executable declared h = cc

module _ (prefix : List Text) (interaction : CliInteraction) (stdin : StdinContract)
    (directory : WorkingDirectoryContract) (limits : RuntimeLimits) where
  process-declared :
      (contract : SkillRuntimeContract)
      → check_process contract (RuntimeProtocol.cli prefix interaction stdin directory limits)
        ≡ ok tt
      → declared_in contract.requires.bins contract.requires.entrypoint ≡ true
  unfolding check_process
  process-declared contract h = ground arith

  runtime-executable :
      (parse : Text → Option Url) (requires : RuntimeRequirements)
      → validate_runtime parse requires
          (RuntimeProtocol.cli prefix interaction stdin directory limits)
        ≡ ok tt
      → (executable : Text) × (executable_of requires ≡ some executable)
        × (interpreter_target_is_safe (to_ascii_lowercase executable) prefix ≡ true)
  unfolding validate_runtime reject_inline_code_prefix
  runtime-executable parse requires h = by_option (executable_of requires) refl
    where
      by_option :
          (o : Option Text)
          → executable_of requires ≡ o
          → (executable : Text) × (executable_of requires ≡ some executable)
            × (interpreter_target_is_safe (to_ascii_lowercase executable) prefix ≡ true)
      by_option none e = absurd (ground arith)
      by_option (some executable) e = (executable, e, ground arith)

pub validate_skill_runtime_contract-IsLaunched :
    (parse : Text → Option Url) (contract : SkillRuntimeContract) (prefix : List Text)
    (interaction : CliInteraction) (stdin : StdinContract) (directory : WorkingDirectoryContract)
    (limits : RuntimeLimits)
    → validate_skill_runtime_contract parse contract ≡ ok tt
    → contract.runtime ≡ RuntimeProtocol.cli prefix interaction stdin directory limits
    → (executable : Text) × IsLaunched contract.requires prefix executable
unfolding executable_of
validate_skill_runtime_contract-IsLaunched parse contract prefix interaction stdin directory limits
      valid same =
    let declared =
      process-declared prefix interaction stdin directory limits contract (
        subst (λ r. check_process contract r ≡ ok tt) same
          (process-checked parse contract valid)) in
    let (executable, chosen, safe) =
      runtime-executable prefix interaction stdin directory limits parse contract.requires (
        subst (λ r. validate_runtime parse contract.requires r ≡ ok tt) same
          (runtime-validated parse contract valid)) in
    let (no_shell, target) =
      interpreter_target_is_safe-IsFixed (to_ascii_lowercase executable) prefix safe in
    let required =
      chosen-contains contract.requires.entrypoint contract.requires.bins executable declared
        chosen in
    let bins = requirements-bins contract (requirements-validated parse contract valid) in
    (
      executable,
      record {
        chosen = chosen;
        required = required;
        segment = check_executable-IsSegment executable (
            contains-All (λ e. check_executable e ≡ ok tt) contract.requires.bins executable bins
              required);
        no_command_shell = no_shell;
        fixed_target = target;
      },
    )
