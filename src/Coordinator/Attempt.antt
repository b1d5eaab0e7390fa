-- ===== src/Coordinator/Attempt.antt =====
-- `execute_materialized` of tool-runtime-core/src/governed_execution_coordinator.rs, and what is
-- around it inside the caught closure: the resolver, the materializer and its cleanup.
use magic_run.Prelude.{
  ℕ, Bool, true, false, Option, none, some, Result, ok, err, leb, if◌then◌else◌,
}
use magic_run.Execution.Error.{GovernedExecutionContractError}
use magic_run.Execution.Request.{Bytes}
use magic_run.Execution.Terminal.{
  GovernedExecutionDispatch, GovernedExecutionTerminalState, not_dispatched, unknown_after_dispatch,
}
use magic_run.Execution.Contract.{GovernedExecutionIntent, bind_materialized_stdin}
use magic_run.Coordinator.Error.{GovernedExecutionCoordinatorError}
use magic_run.Coordinator.Errors.{
  contract_mismatch, cancelled_before_dispatch, timed_out_before_dispatch,
  credential_materialization_failed, execution_authority_failed, process_failed,
  result_sealing_failed, internal_failure,
}
use magic_run.Coordinator.Receipt.{Opaque, GovernedExecutableProvenance, GovernedExecutionResult}
use magic_run.Coordinator.Host.{
  Step, panicked, refused, returned, Point, GovernedExecutorMode, Host,
}

-- The three cells that outlive a panic.
pub record Cells : Type 0 where
  pub dispatch : GovernedExecutionDispatch
  pub terminal : Option GovernedExecutionTerminalState
  pub provenance : Option GovernedExecutableProvenance

abbrev pub no_cells : Cells
no_cells = record { dispatch = not_dispatched; terminal = none; provenance = none }

pub record ExecutionBundle (o : Opaque) : Type 0 where
  pub result : GovernedExecutionResult o
  pub provenance : GovernedExecutableProvenance

-- The nested results of the caught closure, from the outside in.
pub data Caught (o : Opaque) : Type 0 where
  unwound : Caught o
  unprepared : Caught o
  unmaterialized : Caught o
  unexecuted : GovernedExecutionCoordinatorError → Caught o
  executed : ExecutionBundle o → Caught o

pub record Attempt (o : Opaque) : Type 0 where
  pub launched : Bool
  pub cells : Cells
  pub caught : Caught o

module _ (o : Opaque) where
  abbrev stop : Cells → Caught o → Attempt o
  stop cells caught = record { launched = false; cells = cells; caught = caught }

  abbrev after_launch : Cells → Caught o → Attempt o
  after_launch cells caught = record { launched = true; cells = cells; caught = caught }

  module _ (deadline : ℕ) (h : Host o) (mode : GovernedExecutorMode o) where
    seal_stage :
        GovernedExecutableProvenance
        → GovernedExecutionTerminalState
        → Step (GovernedExecutionResult o)
        → Attempt o
    seal_stage p raw sealed =
        let cells : Cells = record {
          dispatch = raw.dispatch;
          terminal = some raw;
          provenance = some p;
        } in
        elim sealed [
          | panicked ↦ after_launch cells unwound
          | refused d ↦ after_launch cells (unexecuted (result_sealing_failed d))
          | returned r ↦
              after_launch (record cells { terminal = some r.terminal })
                (executed (record { result = r; provenance = p }))
        ]

    run_stage : GovernedExecutableProvenance → Step GovernedExecutionTerminalState → Attempt o
    run_stage p panicked =
        after_launch
          (record { dispatch = unknown_after_dispatch; terminal = none; provenance = some p })
          unwound
    run_stage p (refused d) =
        after_launch (record { dispatch = d; terminal = none; provenance = some p })
          (unexecuted (process_failed d))
    run_stage p (returned raw) = seal_stage p raw (h.seal raw)

    abbrev known : GovernedExecutableProvenance → Cells
    known p = record no_cells { provenance = some p }

    process_stage : GovernedExecutableProvenance → Step (Unit {0}) → Attempt o
    process_stage p panicked = stop (known p) unwound
    process_stage p (refused d) = stop (known p) (unexecuted (process_failed d))
    process_stage p (returned _) = run_stage p h.execute_until

    duplicate_stage : GovernedExecutableProvenance → Step (Unit {0}) → Attempt o
    duplicate_stage p panicked = stop (known p) unwound
    duplicate_stage p (refused _) =
        stop (known p) (unexecuted (result_sealing_failed not_dispatched))
    duplicate_stage p (returned _) = process_stage p h.process

    mode_stage : GovernedExecutableProvenance → GovernedExecutorMode o → Attempt o
    mode_stage p GovernedExecutorMode.batch = process_stage p h.process
    mode_stage p (GovernedExecutorMode.jailed_batch none) =
        stop (known p) (unexecuted (internal_failure not_dispatched))
    mode_stage p (GovernedExecutorMode.jailed_batch (some _)) = process_stage p h.process
    mode_stage p GovernedExecutorMode.pty = duplicate_stage p h.duplicate_redactor

    environment_stage : GovernedExecutableProvenance → Step (Unit {0}) → Attempt o
    environment_stage p panicked = stop (known p) unwound
    environment_stage p (refused _) =
        stop (known p) (unexecuted (credential_materialization_failed not_dispatched))
    environment_stage p (returned _) = mode_stage p mode

    authority_stage : Step GovernedExecutableProvenance → Attempt o
    authority_stage panicked = stop no_cells unwound
    authority_stage (refused _) = stop no_cells (unexecuted execution_authority_failed)
    authority_stage (returned p) = environment_stage p h.environment

    redactor_stage : GovernedExecutionIntent → Step (Unit {0}) → Attempt o
    redactor_stage intent panicked = stop no_cells unwound
    redactor_stage intent (refused _) =
        stop no_cells (unexecuted (result_sealing_failed not_dispatched))
    redactor_stage intent (returned _) = authority_stage (h.bind_authority intent)

    bind_stage : Result GovernedExecutionContractError GovernedExecutionIntent → Attempt o
    bind_stage (err _) = stop no_cells (unexecuted contract_mismatch)
    bind_stage (ok intent) = redactor_stage intent h.redactor

    pub execute_materialized : GovernedExecutionIntent → Option Bytes → Attempt o
    execute_materialized intent stdin =
        if h.cancelled Point.after_materialization
        then stop no_cells (unexecuted cancelled_before_dispatch)
        else if leb deadline (h.now Point.after_materialization)
        then stop no_cells (unexecuted timed_out_before_dispatch)
        else bind_stage (bind_materialized_stdin intent stdin)

    -- A failure after the consumer has returned hides its result, and not its cells.
    cleanup_stage : Attempt o → Step (Unit {0}) → Attempt o
    cleanup_stage attempt cleaned = elim attempt.caught [
      | unwound ↦ attempt
      | _ ↦ elim cleaned [
        | panicked ↦ record attempt { caught = unwound }
        | refused _ ↦ record attempt { caught = unmaterialized }
        | returned _ ↦ attempt
      ]
    ]

    materialize_stage : GovernedExecutionIntent → Step (Option Bytes) → Attempt o
    materialize_stage intent panicked = stop no_cells unwound
    materialize_stage intent (refused _) = stop no_cells unmaterialized
    materialize_stage intent (returned stdin) =
        cleanup_stage (execute_materialized intent stdin) h.cleanup

    -- `with_prepared_credential_material_before` and its consumer
    resolve_stage : GovernedExecutionIntent → Step (Unit {0}) → Attempt o
    resolve_stage intent panicked = stop no_cells unwound
    resolve_stage intent (refused _) = stop no_cells unprepared
    resolve_stage intent (returned _) =
        if leb deadline (h.now Point.after_resolution)
        then stop no_cells unprepared
        else materialize_stage intent h.materialize

    pub attempt : GovernedExecutionIntent → Attempt o
    attempt intent = resolve_stage intent h.resolver
