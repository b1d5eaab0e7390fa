-- ===== src/Execution/Ceilings.antt =====
-- The ceilings of a compiled contract of tool-runtime-core/src/governed_execution.rs, and the
-- agreement of an admitted intent with the contract that it was compiled from.
use native.Mathlib.Nat.{le_trans}
use magic_run.Prelude.{
  ℕ, ◌≤◌, ◌<◌, ◌≡◌, ◌↔◌, refl, true, false, Option, none, some, Text, ok, ok_or, bind_inversion,
  ok-injective, subst, arith, first, min, →holds, le→leb, ap, ◌∙◌, →holds, unwrap_or,
}
use magic_run.Manifest.Mcp.{RuntimeProtocol, RuntimeLimits}
use magic_run.Manifest.Auth.{SkillRuntimeContract}
use magic_run.Manifest.Equality.{
  CliInteraction-discrete, StdinMode-discrete, DataSensitivity-discrete,
  WorkingDirectoryMode-discrete,
}
use magic_run.Manifest.Limits.{
  max_runtime_timeout_secs, max_runtime_stream_bytes, validate_limits, outside,
}
use magic_run.Execution.Error.{GovernedExecutionContractError}
use magic_run.Execution.Errors.{unsupported_protocol}
use magic_run.Execution.Policy.{
  GovernedExecutionPolicy, GovernedExecutionContract, reserves_stdin, new, compile,
  compile_protocol,
}
use magic_run.Execution.Request.{GovernedExecutionRequest}
use magic_run.Execution.Contract.{
  GovernedExecutionIntent, admit, matches_validated_contract, matches_protocol, Executable-discrete,
  Prefix-discrete, Flag-discrete, Memory-discrete,
}
use magic_run.Execution.Admission.{IsAdmitted, IsTimeout, admit_iff}

-- A ceiling is positive, and no greater than the authored one and the policy's.
abbrev pub IsCeiling : ℕ → ℕ → Option ℕ → ℕ → Type 0
IsCeiling ceiling immutable authored policy =
    (0 < ceiling)
    × (ceiling ≤ unwrap_or authored immutable)
    × (ceiling ≤ policy)
    × (ceiling ≤ immutable)

pub record AreCeilings (limits : RuntimeLimits) (policy : GovernedExecutionPolicy)
    (contract : GovernedExecutionContract) : Type 0 where
  pub timeout :
      IsCeiling contract.max_timeout_secs max_runtime_timeout_secs limits.timeout_secs
        policy.max_timeout_secs
  pub stdin :
      IsCeiling contract.max_stdin_bytes max_runtime_stream_bytes limits.stdin_bytes
        policy.max_stdin_bytes
  pub stdout :
      IsCeiling contract.max_stdout_bytes max_runtime_stream_bytes limits.stdout_bytes
        policy.max_stdout_bytes
  pub stderr :
      IsCeiling contract.max_stderr_bytes max_runtime_stream_bytes limits.stderr_bytes
        policy.max_stderr_bytes
  pub default_positive : 0 < contract.default_timeout_secs
  pub default_within : contract.default_timeout_secs ≤ contract.max_timeout_secs
  pub memory : contract.max_memory_bytes ≡ limits.memory_bytes

abbrev pub limits_of : RuntimeProtocol → RuntimeLimits
limits_of (RuntimeProtocol.cli _ _ _ _ limits) = limits
limits_of (RuntimeProtocol.mcp _ _ limits) = limits

-- What `GovernedExecutionPolicy::new` lets through.
pub record IsPolicy (policy : GovernedExecutionPolicy) : Type 0 where
  pub default_positive : 0 < policy.default_timeout_secs
  pub default_within : policy.default_timeout_secs ≤ policy.max_timeout_secs
  pub timeout_within : policy.max_timeout_secs ≤ max_runtime_timeout_secs
  pub stdin_positive : 0 < policy.max_stdin_bytes
  pub stdin_within : policy.max_stdin_bytes ≤ max_runtime_stream_bytes
  pub stdout_positive : 0 < policy.max_stdout_bytes
  pub stdout_within : policy.max_stdout_bytes ≤ max_runtime_stream_bytes
  pub stderr_positive : 0 < policy.max_stderr_bytes
  pub stderr_within : policy.max_stderr_bytes ≤ max_runtime_stream_bytes

-- A policy is made from five numbers exactly when they are within the immutable ceilings, and it
-- is then made of these numbers.
pub new_iff :
    (policy : GovernedExecutionPolicy)
    → (new policy.default_timeout_secs policy.max_timeout_secs policy.max_stdin_bytes
          policy.max_stdout_bytes policy.max_stderr_bytes
        ≡ ok policy)
      ↔ IsPolicy policy
unfolding new
new_iff policy = (λ h. ground arith, λ h. ground arith)

validate_limits_sound :
    (limits : RuntimeLimits)
    → validate_limits limits ≡ ok tt
    → (outside 1 max_runtime_timeout_secs limits.timeout_secs ≡ false)
      × (outside 1 max_runtime_stream_bytes limits.stdin_bytes ≡ false)
      × (outside 1 max_runtime_stream_bytes limits.stdout_bytes ≡ false)
      × (outside 1 max_runtime_stream_bytes limits.stderr_bytes ≡ false)
unfolding validate_limits
validate_limits_sound limits h = ground arith

min-IsCeiling :
    (immutable policy : ℕ) (authored : Option ℕ)
    → outside 1 immutable authored ≡ false
    → 0 < policy
    → policy ≤ immutable
    → IsCeiling (min (unwrap_or authored immutable) policy) immutable authored policy
min-IsCeiling immutable policy none h p q = omega arith
min-IsCeiling immutable policy (some a) h p q = ground arith

compile_protocol-AreCeilings :
    (protocol : RuntimeProtocol) (contract : SkillRuntimeContract)
    (policy : GovernedExecutionPolicy) (compiled : GovernedExecutionContract)
    → IsPolicy policy
    → validate_limits (limits_of protocol) ≡ ok tt
    → compile_protocol protocol contract policy ≡ ok compiled
    → AreCeilings (limits_of protocol) policy compiled
unfolding compile_protocol
compile_protocol-AreCeilings (RuntimeProtocol.cli a b c d limits) contract policy compiled p v h =
    let (e, _, made) =
      bind_inversion (ok_or (first contract.requires.bins) unsupported_protocol) _ h in
    let (t, i, o, r) = validate_limits_sound limits v in
    let same = ok-injective made in
    let timeout =
      min-IsCeiling max_runtime_timeout_secs policy.max_timeout_secs limits.timeout_secs t
        (omega arith) p.timeout_within in
    subst (AreCeilings limits policy) same (record {
      timeout = timeout;
      stdin =
          min-IsCeiling max_runtime_stream_bytes policy.max_stdin_bytes limits.stdin_bytes i
            p.stdin_positive p.stdin_within;
      stdout =
          min-IsCeiling max_runtime_stream_bytes policy.max_stdout_bytes limits.stdout_bytes o
            p.stdout_positive p.stdout_within;
      stderr =
          min-IsCeiling max_runtime_stream_bytes policy.max_stderr_bytes limits.stderr_bytes r
            p.stderr_positive p.stderr_within;
      default_positive = omega (arith, timeout);
      default_within = omega arith;
      memory = refl;
    })
compile_protocol-AreCeilings (RuntimeProtocol.mcp a b c) contract policy compiled p v h = cc

-- The contract compiled from validated limits under a policy that was made by `new` has ceilings
-- that are positive and only lower the authored, the policy's and the immutable ones; its default
-- timeout is positive and within its own ceiling.
pub compile-AreCeilings :
    (contract : SkillRuntimeContract) (policy : GovernedExecutionPolicy)
    (compiled : GovernedExecutionContract)
    → IsPolicy policy
    → validate_limits (limits_of contract.runtime) ≡ ok tt
    → compile contract policy ≡ ok compiled
    → AreCeilings (limits_of contract.runtime) policy compiled
unfolding compile
compile-AreCeilings contract policy compiled p v h =
    compile_protocol-AreCeilings contract.runtime contract policy compiled p v h

le_of_eq_le : {a b c : ℕ} → a ≡ b → b ≤ c → a ≤ c
le_of_eq_le e h = omega arith

named_some :
    (o : Option Text) (x : Text) (error : GovernedExecutionContractError)
    → ok_or o error ≡ ok x
    → o ≡ some x
named_some none x error h = cc
named_some (some y) x error h = cc

timeout-IsTimeout :
    (compiled : GovernedExecutionContract) (requested : Option ℕ) (timeout : ℕ)
    → compiled.default_timeout_secs ≤ compiled.max_timeout_secs
    → IsTimeout compiled requested timeout
    → timeout ≤ compiled.max_timeout_secs
timeout-IsTimeout compiled none timeout d t = omega arith
timeout-IsTimeout compiled (some value) timeout d t = omega arith

matches_protocol_lem :
    (protocol : RuntimeProtocol) (contract : SkillRuntimeContract)
    (policy : GovernedExecutionPolicy) (compiled : GovernedExecutionContract)
    (request : GovernedExecutionRequest) (intent : GovernedExecutionIntent)
    → IsPolicy policy
    → validate_limits (limits_of protocol) ≡ ok tt
    → compile_protocol protocol contract policy ≡ ok compiled
    → IsAdmitted compiled request intent
    → matches_protocol protocol contract intent ≡ true
unfolding compile_protocol matches_protocol
matches_protocol_lem (RuntimeProtocol.mcp _ _ _) contract policy compiled request intent p v h a =
    cc
matches_protocol_lem (RuntimeProtocol.cli prefix interaction stdin directory limits) contract policy
      compiled request intent p v h a =
    let (e, named, made) =
      bind_inversion (ok_or (first contract.requires.bins) unsupported_protocol) _ h in
    let same = ok-injective made in
    let carried = a.carried in
    let ceilings =
      compile_protocol-AreCeilings (RuntimeProtocol.cli prefix interaction stdin directory limits)
        contract policy compiled p v h in
    let fits =
      timeout-IsTimeout compiled request.timeout_secs intent.timeout_secs ceilings.default_within
        a.timeout in
    let e1 =
      →holds (Executable-discrete (first contract.requires.bins) (some intent.executable))
        (named_some _ _ _ named ∙ ap some (cc (same, carried))) in
    let e2 = →holds (Prefix-discrete prefix intent.command_prefix) (cc (same, carried)) in
    let e3 = →holds (CliInteraction-discrete interaction intent.interaction) (cc (same, carried)) in
    let e4 = →holds (StdinMode-discrete stdin.mode intent.stdin_mode) (cc (same, carried)) in
    let e5 =
      →holds (DataSensitivity-discrete stdin.sensitivity intent.stdin_sensitivity)
        (cc (same, carried)) in
    let e6 =
      →holds (WorkingDirectoryMode-discrete directory.mode intent.working_directory_mode)
        (cc (same, carried)) in
    let e7 =
      →holds
        (Flag-discrete (reserves_stdin contract.auth.injections) intent.credential_stdin_reserved)
        (cc (same, carried)) in
    let e8 =
      →holds (Memory-discrete intent.max_memory_bytes limits.memory_bytes) (cc (same, carried)) in
    let l1 =
      le→leb intent.timeout_secs (unwrap_or limits.timeout_secs max_runtime_timeout_secs)
        (le_trans fits ceilings.timeout.1) in
    let l2 = le→leb intent.max_stdin_bytes (unwrap_or limits.stdin_bytes max_runtime_stream_bytes) (
      le_of_eq_le (ap (λ (i : GovernedExecutionIntent). i.max_stdin_bytes) carried)
        ceilings.stdin.1) in
    let l3 =
      le→leb intent.max_stdout_bytes (unwrap_or limits.stdout_bytes max_runtime_stream_bytes) (
        le_of_eq_le (ap (λ (i : GovernedExecutionIntent). i.max_stdout_bytes) carried)
          ceilings.stdout.1) in
    let l4 =
      le→leb intent.max_stderr_bytes (unwrap_or limits.stderr_bytes max_runtime_stream_bytes) (
        le_of_eq_le (ap (λ (i : GovernedExecutionIntent). i.max_stderr_bytes) carried)
          ceilings.stderr.1) in
    simp (e1, e2, e3, e4, e5, e6, e7, e8, l1, l2, l3, l4)

-- An intent that is admitted under a contract, compiled under a valid policy from validated
-- limits, matches the contract that it was compiled from.
pub compile-admit-matches :
    (contract : SkillRuntimeContract) (policy : GovernedExecutionPolicy)
    (compiled : GovernedExecutionContract) (request : GovernedExecutionRequest)
    (intent : GovernedExecutionIntent)
    → IsPolicy policy
    → validate_limits (limits_of contract.runtime) ≡ ok tt
    → compile contract policy ≡ ok compiled
    → admit compiled request ≡ ok intent
    → matches_validated_contract intent contract ≡ true
unfolding compile matches_validated_contract
compile-admit-matches contract policy compiled request intent p v h a =
    matches_protocol_lem contract.runtime contract policy compiled request intent p v h
      ((admit_iff compiled request intent).0 a)
