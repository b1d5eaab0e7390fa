-- ===== src/Coordinator/Evidence.antt =====
-- Call context, authorization request and evidence of
-- tool-runtime-core/src/governed_execution_coordinator.rs.
use magic_run.Prelude.{
  ℕ, ◌≤◌, ◌≡◌, ◌≢◌, Bool, false, ◌&&◌, ◌||◌, not, Option, none, some, List, Text, Result, ok, guard,
  ◌>>◌, leb, ◌==◌, all, length, holds, is_some, Text-discrete, byte_len, is_alphanumeric,
}
use magic_run.Prelude.Sets.{is_subset, Covers}
use magic_run.Manifest.Mcp.{ApprovalClass}
use magic_run.Manifest.Auth.{PolicyFloor}
use magic_run.Coordinator.Error.{GovernedExecutionCoordinatorError}
use magic_run.Coordinator.Errors.{invalid_call_context, invalid_authorization_evidence}

abbrev pub max_governed_authorization_identifier_bytes : ℕ
max_governed_authorization_identifier_bytes = 128

abbrev pub max_governed_authorization_evidence_items : ℕ
max_governed_authorization_evidence_items = 64

unfoldable pub identifier_byte : ℕ → Bool
identifier_byte c =
    is_alphanumeric c || c == b'_' || c == b'-' || c == b'.' || c == b':' || c == b'/'

unfoldable pub valid_identifier : Text → Bool
valid_identifier value =
    not (byte_len value == 0)
    && leb (byte_len value) max_governed_authorization_identifier_bytes
    && all identifier_byte value

unfoldable pub valid_evidence_set : List Text → Bool
valid_evidence_set values =
    leb (length values) max_governed_authorization_evidence_items && all valid_identifier values

pub record GovernedExecutionCallContext : Type 0 where
  pub call_id : Text
  pub capability_id : Text
  pub action_id : Text

unfoldable pub context_new :
    Text → Text → Text → Result GovernedExecutionCoordinatorError GovernedExecutionCallContext
context_new call_id capability_id action_id = do
  guard (not (not (valid_identifier capability_id) || not (valid_identifier action_id)))
      invalid_call_context
  ok (record { call_id = call_id; capability_id = capability_id; action_id = action_id })

-- A `[u8; 32]` is the list of its bytes.
abbrev pub Digest : Type 0
Digest = List ℕ

-- The parts of the request that are read after it was built.
pub record GovernedAuthorizationRequest : Type 0 where
  pub context : GovernedExecutionCallContext
  pub policy_floor : PolicyFloor
  pub request_digest : Digest
  pub contract_digest : Digest
  pub credential_plan_digest : Digest
  pub stdin_digest : Option Digest
  pub deadline : ℕ

pub record GovernedAuthorizationEvidence : Type 0 where
  pub request_digest : Digest
  pub policy_revision : Text
  pub approved_class : ApprovalClass
  pub approval_receipt_id : Option Text
  pub granted_grants : List Text
  pub granted_resource_scopes : List Text
  pub granted_resource_authorities : List Text

invalid_receipt_id : Option Text → Bool
invalid_receipt_id none = false
invalid_receipt_id (some value) = not (valid_identifier value)

unfoldable pub evidence_new :
    Digest
    → Text
    → ApprovalClass
    → Option Text
    → List Text
    → List Text
    → List Text
    → Result GovernedExecutionCoordinatorError GovernedAuthorizationEvidence
unfolding invalid_receipt_id
evidence_new request_digest policy_revision approved_class receipt_id grants scopes authorities = do
  guard
      (not (
        not (valid_identifier policy_revision)
        || invalid_receipt_id receipt_id
        || not (valid_evidence_set grants)
        || not (valid_evidence_set scopes)
        || not (valid_evidence_set authorities)))
      invalid_authorization_evidence
  ok (record {
    request_digest = request_digest;
    policy_revision = policy_revision;
    approved_class = approved_class;
    approval_receipt_id = receipt_id;
    granted_grants = grants;
    granted_resource_scopes = scopes;
    granted_resource_authorities = authorities;
  })

pub data GovernedAuthorizationDecision : Type 0 where
  approved : GovernedAuthorizationEvidence → GovernedAuthorizationDecision
  denied approval_required unavailable : GovernedAuthorizationDecision

-- The derived order of `ApprovalClass`.
abbrev pub approval_rank : ApprovalClass → ℕ
approval_rank ApprovalClass.ordinary = 0
approval_rank ApprovalClass.conditional_external_side_effect = 1
approval_rank ApprovalClass.delegated_workspace_write = 2
approval_rank ApprovalClass.native_ui_control = 3
approval_rank ApprovalClass.commerce_checkout = 4

unfoldable pub authorization_matches :
    GovernedAuthorizationRequest → GovernedAuthorizationEvidence → Bool
authorization_matches request evidence =
    holds (Text-discrete evidence.request_digest request.request_digest)
    && leb (approval_rank request.policy_floor.approval) (approval_rank evidence.approved_class)
    && (approval_rank request.policy_floor.approval == 0 || is_some evidence.approval_receipt_id)
    && is_subset request.policy_floor.required_grants evidence.granted_grants
    && is_subset request.policy_floor.resource_scopes evidence.granted_resource_scopes
    && is_subset request.policy_floor.required_resource_authorities
        evidence.granted_resource_authorities

-- The evidence is bound to the request and meets the whole policy floor.
pub record IsBoundTo (request : GovernedAuthorizationRequest)
    (evidence : GovernedAuthorizationEvidence) : Type 0 where
  pub digest : evidence.request_digest ≡ request.request_digest
  pub class : approval_rank request.policy_floor.approval ≤ approval_rank evidence.approved_class
  pub receipt :
      request.policy_floor.approval ≢ ApprovalClass.ordinary
      → (id : Text) × (evidence.approval_receipt_id ≡ some id)
  pub grants : Covers request.policy_floor.required_grants evidence.granted_grants
  pub scopes : Covers request.policy_floor.resource_scopes evidence.granted_resource_scopes
  pub authorities :
      Covers request.policy_floor.required_resource_authorities
        evidence.granted_resource_authorities
