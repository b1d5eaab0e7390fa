-- ===== src/Tests/Coordinator.antt =====
-- Runs of the coordinator of tool-runtime-core/src/governed_execution_coordinator.rs.
use magic_run.Prelude.{◌≡◌, ◌⊎◌, ◌↔◌, ◌+◌, true, false, none, some, [], ◌∷◌, codes}
use magic_run.Manifest.Mcp.{ApprovalClass}
use magic_run.Manifest.Auth.{PolicyFloor}
use magic_run.Execution.Terminal.{
  executor_owned, success, dispatched, GovernedExecutionTerminalState,
}
use magic_run.Tests.Execution.{intent_with}
use magic_run.Coordinator.Evidence.{
  GovernedExecutionCallContext, GovernedAuthorizationRequest, GovernedAuthorizationEvidence,
  GovernedAuthorizationDecision, authorization_matches, IsBoundTo,
}
use magic_run.Coordinator.Bound.{authorization_matches_iff}
use magic_run.Coordinator.Receipt.{Opaque}
use magic_run.Coordinator.Host.{
  returned, Host, GovernedExecutorMode, GovernedExecutionInvocation, RequestDigests,
}
use magic_run.Coordinator.Execute.{execute}
use magic_run.Coordinator.Protocol.{execute-IsProtocol, IsUnbuilt, IsSilent, IsProtocol}

abbrev opaque : Opaque
opaque = record { Plan = Unit {0}; Jail = Unit {0}; Artifacts = Unit {0}; Output = Unit {0} }

abbrev call_context : GovernedExecutionCallContext
call_context = record {
  call_id = codes "call-1";
  capability_id = codes "jq";
  action_id = codes "filter";
}

abbrev floor : PolicyFloor
floor = record {
  approval = ApprovalClass.delegated_workspace_write;
  required_grants = codes "workspace" ∷ [];
  resource_scopes = [];
  required_resource_authorities = [];
}

abbrev digests : RequestDigests
digests = record {
  request_digest = 1 ∷ 2 ∷ [];
  contract_digest = 3 ∷ [];
  credential_plan_digest = 4 ∷ [];
  stdin_digest = none;
}

abbrev asked_for : GovernedAuthorizationRequest
asked_for = record {
  context = call_context;
  policy_floor = floor;
  request_digest = 1 ∷ 2 ∷ [];
  contract_digest = 3 ∷ [];
  credential_plan_digest = 4 ∷ [];
  stdin_digest = none;
  deadline = 110;
}

abbrev approval : GovernedAuthorizationEvidence
approval = record {
  request_digest = 1 ∷ 2 ∷ [];
  policy_revision = codes "r1";
  approved_class = ApprovalClass.native_ui_control;
  approval_receipt_id = some (codes "receipt-9");
  granted_grants = codes "network" ∷ codes "workspace" ∷ [];
  granted_resource_scopes = [];
  granted_resource_authorities = [];
}

abbrev succeeded : GovernedExecutionTerminalState
succeeded = executor_owned success dispatched

abbrev host : Host opaque
host = record {
  cancelled = λ point. false;
  now = λ point. 100;
  checked_add = λ instant seconds. some (instant + seconds);
  digests = some digests;
  authorizer = λ request. some (GovernedAuthorizationDecision.approved approval);
  profile_authority = none;
  resolver = returned tt;
  materialize = returned none;
  redactor = returned tt;
  bind_authority =
      λ intent. returned (record { schema_version = "v1"; length = 3; sha256 = 7 ∷ [] });
  environment = returned tt;
  duplicate_redactor = returned tt;
  process = returned tt;
  execute_until = returned succeeded;
  seal = λ state. returned (record { terminal = state; output = tt; artifact_metadata = tt });
  cleanup = returned tt;
  audit_sink = λ receipt. true;
}

abbrev invocation : GovernedExecutionInvocation opaque
invocation = record {
  context = call_context;
  intent = intent_with false;
  policy_floor = floor;
  injection = tt;
}

authorization_matches_iff_example :
    (authorization_matches asked_for approval ≡ true) ↔ IsBoundTo asked_for approval
authorization_matches_iff_example = authorization_matches_iff asked_for approval

execute-IsProtocol_example :
    (IsUnbuilt opaque host GovernedExecutorMode.batch invocation false
      × IsSilent opaque (execute opaque host GovernedExecutorMode.batch invocation false).0)
    ⊎ ((IsUnbuilt opaque host GovernedExecutorMode.batch invocation false → ⊥)
        × IsProtocol host (execute opaque host GovernedExecutorMode.batch invocation false).0)
execute-IsProtocol_example =
    execute-IsProtocol opaque host GovernedExecutorMode.batch invocation false
