-- ===== src/Execution/Admission.antt =====
-- What `admit` of tool-runtime-core/src/governed_execution.rs lets through.
use magic_run.Prelude.{
  ℕ, ◌≤◌, ◌<◌, ◌≡◌, ◌≢◌, refl, ◌↔◌, false, Option, none, some, List, Text, ok, bind_inversion,
  subst, arith, length,
}
use magic_run.Manifest.Mcp.{StdinMode}
use magic_run.Execution.Policy.{GovernedExecutionContract, governed_execution_contract_v1}
use magic_run.Execution.Request.{
  Bytes, GovernedExecutionRequest, validate_stdin, validate_arguments, validate_working_directory,
}
use magic_run.Execution.Contract.{
  GovernedExecutionIntent, admit, admit_stdin, effective_timeout, intent_of,
}
use magic_run.Execution.Arguments.{AreArguments, validate_arguments_iff}
use magic_run.Execution.Directory.{IsDirectory, validate_working_directory_iff}

-- The standard input that a contract takes from a request.
abbrev pub IsStdin : GovernedExecutionContract → Option Bytes → Type 0
IsStdin contract none =
    contract.credential_stdin_reserved ≡ false → contract.stdin_mode ≢ StdinMode.required
IsStdin contract (some value) =
    (contract.credential_stdin_reserved ≡ false)
    × (contract.stdin_mode ≢ StdinMode.denied)
    × (length value ≤ contract.max_stdin_bytes)

-- The timeout that a contract gives to a request.
abbrev pub IsTimeout : GovernedExecutionContract → Option ℕ → ℕ → Type 0
IsTimeout contract none timeout = timeout ≡ contract.default_timeout_secs
IsTimeout contract (some value) timeout =
    (timeout ≡ value) × (0 < value) × (value ≤ contract.max_timeout_secs)

pub record IsAdmitted (contract : GovernedExecutionContract) (request : GovernedExecutionRequest)
    (intent : GovernedExecutionIntent) : Type 0 where
  pub arguments : AreArguments request.argument_item_limit request.arguments intent.argument_bytes
  pub stdin : IsStdin contract request.stdin
  pub directory :
      IsDirectory contract.working_directory request.working_directory intent.working_directory
  pub timeout : IsTimeout contract request.timeout_secs intent.timeout_secs
  pub carried : intent ≡ record {
    schema_version = governed_execution_contract_v1;
    executable = contract.executable;
    command_prefix = contract.command_prefix;
    interaction = contract.interaction;
    stdin_mode = contract.stdin_mode;
    stdin_sensitivity = contract.stdin_sensitivity;
    credential_stdin_reserved = contract.credential_stdin_reserved;
    working_directory_mode = contract.working_directory;
    arguments = request.arguments;
    argument_bytes = intent.argument_bytes;
    stdin = request.stdin;
    working_directory = intent.working_directory;
    timeout_secs = intent.timeout_secs;
    max_stdin_bytes = contract.max_stdin_bytes;
    max_stdout_bytes = contract.max_stdout_bytes;
    max_stderr_bytes = contract.max_stderr_bytes;
    max_memory_bytes = contract.max_memory_bytes;
  }

admit_stdin_iff :
    (contract : GovernedExecutionContract) (stdin : Option Bytes)
    → (admit_stdin contract.credential_stdin_reserved contract stdin ≡ ok tt)
      ↔ IsStdin contract stdin
unfolding admit_stdin validate_stdin
admit_stdin_iff contract none = (λ h. ground arith, λ h. ground arith)
admit_stdin_iff contract (some value) = (λ h. ground arith, λ h. ground arith)

effective_timeout_iff :
    (contract : GovernedExecutionContract) (requested : Option ℕ) (timeout : ℕ)
    → (effective_timeout contract requested ≡ ok timeout) ↔ IsTimeout contract requested timeout
unfolding effective_timeout
effective_timeout_iff contract none timeout = (λ h. ground arith, λ h. ground arith)
effective_timeout_iff contract (some value) timeout = (λ h. ground arith, λ h. ground arith)

module _ (contract : GovernedExecutionContract) (request : GovernedExecutionRequest) where
  admitted :
      (intent : GovernedExecutionIntent) (bytes : ℕ) (directory : List Text) (timeout : ℕ)
      → AreArguments request.argument_item_limit request.arguments bytes
      → IsStdin contract request.stdin
      → IsDirectory contract.working_directory request.working_directory directory
      → IsTimeout contract request.timeout_secs timeout
      → intent_of contract request bytes directory timeout ≡ intent
      → IsAdmitted contract request intent
  admitted intent bytes directory timeout a s d t e =
      subst (IsAdmitted contract request) e
        (record { arguments = a; stdin = s; directory = d; timeout = t; carried = refl })

-- A request is admitted with an intent exactly when its arguments, standard input, working
-- directory and timeout are within the contract, and the intent carries the request's arguments and
-- standard input, the components of its directory, and the contract's executable, prefix, modes
-- and ceilings unchanged, with the request's timeout or else the contract's.
pub admit_iff :
    (contract : GovernedExecutionContract) (request : GovernedExecutionRequest)
    (intent : GovernedExecutionIntent)
    → (admit contract request ≡ ok intent) ↔ IsAdmitted contract request intent
unfolding admit
admit_iff contract request intent = (
  λ h.
      let (bytes, ha, h1) =
        bind_inversion (validate_arguments request.arguments request.argument_item_limit) _ h in
      let (u, hs, h2) =
        bind_inversion (admit_stdin contract.credential_stdin_reserved contract request.stdin) _
          h1 in
      let (dir, hd, h3) =
        bind_inversion
          (validate_working_directory contract.working_directory request.working_directory) _ h2 in
      let (t, ht, h4) = bind_inversion (effective_timeout contract request.timeout_secs) _ h3 in
      let same : intent_of contract request bytes dir t ≡ intent = cc h4 in
      admitted contract request intent bytes dir t ((validate_arguments_iff _ _ _).0 ha)
        ((admit_stdin_iff contract request.stdin).0 (hs))
        ((validate_working_directory_iff _ _ _).0 hd)
        ((effective_timeout_iff contract request.timeout_secs t).0 ht) same,
  λ h. ground (
    arith,
    (validate_arguments_iff request.argument_item_limit request.arguments intent.argument_bytes).1
        h.arguments,
    (admit_stdin_iff contract request.stdin).1 h.stdin,
    (validate_working_directory_iff contract.working_directory request.working_directory
          intent.working_directory).1
        h.directory,
    (effective_timeout_iff contract request.timeout_secs intent.timeout_secs).1 h.timeout,
    h.carried,
  ),
)
