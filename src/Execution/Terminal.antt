-- ===== src/Execution/Terminal.antt =====
-- Terminal classification of tool-runtime-core/src/governed_execution.rs.
use magic_run.Prelude.{
  Bool, true, false, String, Result, ok, err, ◌≡◌, ◌≢◌, ◌⊎◌, inl, inr, ◌↔◌, arith, Bool-cases,
  if◌then◌else◌,
}
use magic_run.Execution.Error.{GovernedExecutionContractError}
use magic_run.Execution.Errors.{invalid_terminal_state}
use magic_run.Execution.Policy.{governed_execution_contract_v1}

pub data GovernedExecutionTerminal : Type 0 where
  success non_zero_exit cancelled timed_out : GovernedExecutionTerminal
  output_limit_exceeded memory_limit_exceeded cpu_limit_exceeded : GovernedExecutionTerminal
  process_limit_exceeded file_limit_exceeded artifact_rejected : GovernedExecutionTerminal
  launch_rejected runtime_failure : GovernedExecutionTerminal

pub data GovernedExecutionDispatch : Type 0 where
  not_dispatched dispatched unknown_after_dispatch : GovernedExecutionDispatch

unfoldable pub Dispatch-discrete : Discrete GovernedExecutionDispatch
Dispatch-discrete = hlevel

unfoldable pub Terminal-discrete : Discrete GovernedExecutionTerminal
Terminal-discrete = hlevel

pub record GovernedExecutionTerminalState : Type 0 where
  pub schema_version : String
  pub terminal : GovernedExecutionTerminal
  pub dispatch : GovernedExecutionDispatch

abbrev is_dispatched : GovernedExecutionDispatch → Bool
is_dispatched dispatched = true
is_dispatched _ = false

abbrev is_not_dispatched : GovernedExecutionDispatch → Bool
is_not_dispatched not_dispatched = true
is_not_dispatched _ = false

unfoldable pub terminal_dispatch_is_valid :
    GovernedExecutionTerminal → GovernedExecutionDispatch → Bool
terminal_dispatch_is_valid success d = is_dispatched d
terminal_dispatch_is_valid non_zero_exit d = is_dispatched d
terminal_dispatch_is_valid output_limit_exceeded d = is_dispatched d
terminal_dispatch_is_valid memory_limit_exceeded d = is_dispatched d
terminal_dispatch_is_valid cpu_limit_exceeded d = is_dispatched d
terminal_dispatch_is_valid process_limit_exceeded d = is_dispatched d
terminal_dispatch_is_valid file_limit_exceeded d = is_dispatched d
terminal_dispatch_is_valid artifact_rejected d = is_dispatched d
terminal_dispatch_is_valid launch_rejected d = is_not_dispatched d
terminal_dispatch_is_valid cancelled d = true
terminal_dispatch_is_valid timed_out d = true
terminal_dispatch_is_valid runtime_failure d = true

abbrev state_of :
    GovernedExecutionTerminal → GovernedExecutionDispatch → GovernedExecutionTerminalState
state_of t d = record {
  schema_version = governed_execution_contract_v1;
  terminal = t;
  dispatch = d;
}

unfoldable pub terminal_new :
    GovernedExecutionTerminal
    → GovernedExecutionDispatch
    → Result GovernedExecutionContractError GovernedExecutionTerminalState
unfolding terminal_dispatch_is_valid
terminal_new t d =
    if terminal_dispatch_is_valid t d then ok (state_of t d) else err invalid_terminal_state

unfoldable pub executor_owned :
    GovernedExecutionTerminal → GovernedExecutionDispatch → GovernedExecutionTerminalState
unfolding terminal_dispatch_is_valid
executor_owned t d =
    if terminal_dispatch_is_valid t d
    then state_of t d
    else state_of runtime_failure unknown_after_dispatch

unfoldable pub launch_rejected_state : GovernedExecutionTerminalState
unfolding executor_owned
launch_rejected_state = executor_owned launch_rejected not_dispatched

unfoldable pub cancelled_state : GovernedExecutionDispatch → GovernedExecutionTerminalState
unfolding executor_owned
cancelled_state d = executor_owned cancelled d

unfoldable pub timed_out_state : GovernedExecutionDispatch → GovernedExecutionTerminalState
unfolding executor_owned
timed_out_state d = executor_owned timed_out d

unfoldable pub runtime_failure_state : GovernedExecutionDispatch → GovernedExecutionTerminalState
unfolding executor_owned
runtime_failure_state d = executor_owned runtime_failure d

-- The terminals that do not tell whether a process was launched.
abbrev pub IsUndecided : GovernedExecutionTerminal → Type 0
IsUndecided t = (t ≡ cancelled) ⊎ (t ≡ timed_out) ⊎ (t ≡ runtime_failure)

-- A rejected launch was not dispatched, and every other terminal that tells of a process is that of
-- a dispatched one.
abbrev pub IsCoherent : GovernedExecutionTerminal → GovernedExecutionDispatch → Type 0
IsCoherent t d =
    IsUndecided t
    ⊎ ((t ≡ launch_rejected) × (d ≡ not_dispatched))
    ⊎ ((t ≢ launch_rejected) × (d ≡ dispatched))

-- What the two constructors make of a terminal and a dispatch.
pub data IsMade (t : GovernedExecutionTerminal) (d : GovernedExecutionDispatch)
    (public_state : Result GovernedExecutionContractError GovernedExecutionTerminalState)
    (s : GovernedExecutionTerminalState) : Type 0 where
  kept :
      IsCoherent t d
      → s.terminal ≡ t
      → s.dispatch ≡ d
      → public_state ≡ ok s
      → IsMade t d public_state s
  unclear :
      (IsCoherent t d → ⊥)
      → s.terminal ≡ runtime_failure
      → s.dispatch ≡ unknown_after_dispatch
      → public_state ≡ err invalid_terminal_state
      → IsMade t d public_state s

terminal_dispatch_is_valid_iff :
    (t : GovernedExecutionTerminal) (d : GovernedExecutionDispatch)
    → (terminal_dispatch_is_valid t d ≡ true) ↔ IsCoherent t d
unfolding terminal_dispatch_is_valid
terminal_dispatch_is_valid_iff t d = ground arith

-- A pair is coherent where a rejected launch was not dispatched, and where every terminal but that,
-- a cancellation, a timeout and a runtime failure is of a dispatched process. Both constructors make
-- of a coherent pair its own state; of any other the public one makes an error, and the executor's
-- the runtime failure of a process that may have been dispatched.
pub executor_owned-terminal_new :
    (t : GovernedExecutionTerminal) (d : GovernedExecutionDispatch)
    → IsMade t d (terminal_new t d) (executor_owned t d)
unfolding executor_owned terminal_new
executor_owned-terminal_new t d = elim (Bool-cases (terminal_dispatch_is_valid t d)) [
  | inl valid ↦
      kept ((terminal_dispatch_is_valid_iff t d).0 valid) (ground arith) (ground arith)
        (ground arith)
  | inr refused ↦
      unclear (λ c. let valid = (terminal_dispatch_is_valid_iff t d).1 c in cc) (ground arith)
        (ground arith) (ground arith)
]
