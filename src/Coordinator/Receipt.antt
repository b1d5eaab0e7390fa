-- ===== src/Coordinator/Receipt.antt =====
-- Audit receipts and settlements of
-- tool-runtime-core/src/governed_execution_coordinator.rs.
use magic_run.Prelude.{ℕ, String, Option, Text, length}
use magic_run.Manifest.Mcp.{ApprovalClass}
use magic_run.Execution.Terminal
use magic_run.Execution.Terminal.{GovernedExecutionTerminal, GovernedExecutionTerminalState}
use magic_run.Coordinator.Evidence.{
  Digest, GovernedExecutionCallContext, GovernedAuthorizationEvidence, GovernedAuthorizationRequest,
}

abbrev pub governed_execution_coordinator_v1 : String
governed_execution_coordinator_v1 = "tool-runtime.governed-execution-coordinator.v1"

pub data GovernedExecutionAuditOutcome : Type 0 where
  authorization_denied approval_required authorization_unavailable : GovernedExecutionAuditOutcome
  cancelled timed_out preparation_failed : GovernedExecutionAuditOutcome
  execution_failed completed : GovernedExecutionAuditOutcome

-- tool-runtime-core/src/credential_injection.rs
pub data CredentialExecutionFailure : Type 0 where
  resolution_failed authorization_denied approval_denied : CredentialExecutionFailure
  environment_unavailable stdin_unavailable scoped_path_unavailable : CredentialExecutionFailure
  materialization_failed process_cancelled process_timed_out : CredentialExecutionFailure
  process_memory_exceeded process_exited_non_zero : CredentialExecutionFailure
  output_malformed output_truncated redaction_failed : CredentialExecutionFailure
  cleanup_failed audit_failed internal : CredentialExecutionFailure

-- tool-runtime-core/src/credential_injection.rs
pub data CredentialExecutionOutcome : Type 0 where
  succeeded cancelled : CredentialExecutionOutcome
  failed : CredentialExecutionFailure → CredentialExecutionOutcome

pub record GovernedAuthorizationAudit : Type 0 where
  pub policy_revision : Text
  pub approved_class : ApprovalClass
  pub approval_receipt_id : Option Text
  pub granted_grant_count : ℕ
  pub granted_resource_scope_count : ℕ
  pub granted_resource_authority_count : ℕ

unfoldable pub authorization_audit : GovernedAuthorizationEvidence → GovernedAuthorizationAudit
authorization_audit evidence = record {
  policy_revision = evidence.policy_revision;
  approved_class = evidence.approved_class;
  approval_receipt_id = evidence.approval_receipt_id;
  granted_grant_count = length evidence.granted_grants;
  granted_resource_scope_count = length evidence.granted_resource_scopes;
  granted_resource_authority_count = length evidence.granted_resource_authorities;
}

-- tool-runtime-core/src/governed_execution_authority.rs
pub record GovernedExecutableProvenance : Type 0 where
  pub schema_version : String
  pub length : ℕ
  pub sha256 : Digest

pub record AuthorizationAuditFields : Type 0 where
  pub request_digest : Digest
  pub contract_digest : Digest
  pub credential_plan_digest : Digest

unfoldable pub fields_of : GovernedAuthorizationRequest → AuthorizationAuditFields
fields_of request = record {
  request_digest = request.request_digest;
  contract_digest = request.contract_digest;
  credential_plan_digest = request.credential_plan_digest;
}

-- What the coordinator passes on without looking inside: the credential plan that the credential
-- receipt projects, the audit of a jail, the artifacts' metadata and the sealed output.
pub record Opaque : Type 1 where
  pub Plan : Type 0
  pub Jail : Type 0
  pub Artifacts : Type 0
  pub Output : Type 0

-- The receipt's counts and names are projections of the plan, which stands for them.
pub record CredentialInjectionReceipt (o : Opaque) : Type 0 where
  pub call_id : Text
  pub plan : o.Plan
  pub outcome : CredentialExecutionOutcome

pub record GovernedExecutionAuditReceipt (o : Opaque) : Type 0 where
  pub schema_version : String
  pub context : GovernedExecutionCallContext
  pub fields : AuthorizationAuditFields
  pub authorization : Option GovernedAuthorizationAudit
  pub outcome : GovernedExecutionAuditOutcome
  pub terminal : GovernedExecutionTerminalState
  pub credential : CredentialInjectionReceipt o
  pub executable : Option GovernedExecutableProvenance
  pub jail : Option o.Jail
  pub artifacts : Option o.Artifacts

pub record GovernedExecutionResult (o : Opaque) : Type 0 where
  pub terminal : GovernedExecutionTerminalState
  pub output : o.Output
  pub artifact_metadata : o.Artifacts

pub record GovernedExecutionSettlement (o : Opaque) : Type 0 where
  pub result : GovernedExecutionResult o
  pub audit : GovernedExecutionAuditReceipt o

credential_outcome : GovernedExecutionTerminal → CredentialExecutionOutcome
credential_outcome Terminal.success = CredentialExecutionOutcome.succeeded
credential_outcome Terminal.cancelled = CredentialExecutionOutcome.cancelled
credential_outcome Terminal.timed_out = failed process_timed_out
credential_outcome Terminal.non_zero_exit = failed process_exited_non_zero
credential_outcome Terminal.output_limit_exceeded = failed output_truncated
credential_outcome Terminal.memory_limit_exceeded = failed process_memory_exceeded
credential_outcome Terminal.cpu_limit_exceeded = failed internal
credential_outcome Terminal.process_limit_exceeded = failed internal
credential_outcome Terminal.file_limit_exceeded = failed internal
credential_outcome Terminal.artifact_rejected = failed output_malformed
credential_outcome Terminal.launch_rejected = failed internal
credential_outcome Terminal.runtime_failure = failed internal

unfoldable pub credential_outcome_for_terminal :
    GovernedExecutionTerminalState → CredentialExecutionOutcome
unfolding credential_outcome
credential_outcome_for_terminal state = credential_outcome state.terminal

audit_outcome : GovernedExecutionTerminal → GovernedExecutionAuditOutcome
audit_outcome Terminal.success = completed
audit_outcome Terminal.cancelled = GovernedExecutionAuditOutcome.cancelled
audit_outcome Terminal.timed_out = timed_out
audit_outcome _ = execution_failed

unfoldable pub audit_outcome_for_terminal :
    GovernedExecutionTerminalState → GovernedExecutionAuditOutcome
unfolding audit_outcome
audit_outcome_for_terminal state = audit_outcome state.terminal
