-- ===== src/Coordinator/Host.antt =====
-- What one governed execution is handed by its host, and the calls that it makes, for
-- tool-runtime-core/src/governed_execution_coordinator.rs.
use magic_run.Prelude.{ℕ, Bool, Option, none, some}
use magic_run.Manifest.Mcp.{CliInteraction}
use magic_run.Manifest.Auth.{PolicyFloor}
use magic_run.Execution.Request.{Bytes}
use magic_run.Execution.Terminal.{GovernedExecutionDispatch, GovernedExecutionTerminalState}
use magic_run.Execution.Contract.{GovernedExecutionIntent}
use magic_run.Coordinator.Evidence.{
  Digest, GovernedExecutionCallContext, GovernedAuthorizationRequest, GovernedAuthorizationDecision,
}
use magic_run.Coordinator.Receipt.{
  Opaque, GovernedExecutableProvenance, GovernedExecutionAuditReceipt, GovernedExecutionResult,
}

-- The places where the cancellation flag and the clock are read.
pub data Point : Type 0 where
  start entry after_authorization after_evidence : Point
  after_profile after_profile_again : Point
  after_resolution after_materialization at_failure : Point

-- A step that may panic, or fail with what is known of the dispatch.
pub data Step (A : Type 0) : Type 0 where
  panicked : Step A
  refused : GovernedExecutionDispatch → Step A
  returned : A → Step A

pub data GovernedExecutorMode (o : Opaque) : Type 0 where
  batch : GovernedExecutorMode o
  jailed_batch : Option (o.Jail × ℕ) → GovernedExecutorMode o
  pty : GovernedExecutorMode o

-- One call that leaves the coordinator.
pub data Call (o : Opaque) : Type 0 where
  authorize : GovernedAuthorizationRequest → Call o
  resolve : Call o
  launch : Call o
  record_audit : GovernedExecutionAuditReceipt o → Call o

-- The parts of an invocation that the coordinator reads.
pub record GovernedExecutionInvocation (o : Opaque) : Type 0 where
  pub context : GovernedExecutionCallContext
  pub intent : GovernedExecutionIntent
  pub policy_floor : PolicyFloor
  pub injection : o.Plan

pub record RequestDigests : Type 0 where
  pub request_digest : Digest
  pub contract_digest : Digest
  pub credential_plan_digest : Digest
  pub stdin_digest : Option Digest

-- The answers of the host, of the clock and of the components that the coordinator calls. A
-- callback that panics is caught, which `none` and `panicked` stand for. `Step`s without a
-- dispatch of their own are refused with any.
pub record Host (o : Opaque) : Type 0 where
  pub cancelled : Point → Bool
  pub now : Point → ℕ
  -- `Instant::checked_add`
  pub checked_add : ℕ → ℕ → Option ℕ
  -- the digests of `build_authorization_request`; `none` where a serializer fails
  pub digests : Option RequestDigests
  pub authorizer : GovernedAuthorizationRequest → Option GovernedAuthorizationDecision
  -- `authorize_ready_profile`, where the invocation has a ready profile
  pub profile_authority : Option Bool
  pub resolver : Step (Unit {0})
  -- the standard input that was materialized
  pub materialize : Step (Option Bytes)
  pub redactor : Step (Unit {0})
  pub bind_authority : GovernedExecutionIntent → Step GovernedExecutableProvenance
  pub environment : Step (Unit {0})
  pub duplicate_redactor : Step (Unit {0})
  pub process : Step (Unit {0})
  pub execute_until : Step GovernedExecutionTerminalState
  pub seal : GovernedExecutionTerminalState → Step (GovernedExecutionResult o)
  -- what `materialize_governed_credential_io` does after its consumer has returned
  pub cleanup : Step (Unit {0})
  -- `audit.record`; false where it fails or panics
  pub audit_sink : GovernedExecutionAuditReceipt o → Bool

module _ (o : Opaque) where
  unfoldable pub matches : GovernedExecutorMode o → CliInteraction → Bool
  matches GovernedExecutorMode.batch CliInteraction.batch = Bool.true
  matches (GovernedExecutorMode.jailed_batch _) CliInteraction.batch = Bool.true
  matches GovernedExecutorMode.pty CliInteraction.pty = Bool.true
  matches _ _ = Bool.false

  unfoldable pub wall_seconds_ceiling : GovernedExecutorMode o → Option ℕ
  wall_seconds_ceiling (GovernedExecutorMode.jailed_batch (some (jail, wall))) = some wall
  wall_seconds_ceiling _ = none

  unfoldable pub jail_audit : GovernedExecutorMode o → Option o.Jail
  jail_audit (GovernedExecutorMode.jailed_batch (some (jail, wall))) = some jail
  jail_audit _ = none
