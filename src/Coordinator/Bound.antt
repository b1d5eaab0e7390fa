-- ===== src/Coordinator/Bound.antt =====
-- What `authorization_matches` of tool-runtime-core/src/governed_execution_coordinator.rs demands.
use magic_run.Prelude.{
  ◌≡◌, ◌≢◌, ◌↔◌, refl, true, false, ◌||◌, Option, none, some, List, [], ◌∷◌, Text, arith, ◌==◌,
  holds→, →holds, le→leb, leb→le, is_some, Text-discrete, Bool-cases, inl, inr,
}
use magic_run.Prelude.Sets.{contains, is_subset, Covers, contains-head, is_subset-Covers}
use magic_run.Manifest.Mcp.{ApprovalClass}
use magic_run.Coordinator.Evidence.{
  GovernedAuthorizationRequest, GovernedAuthorizationEvidence, approval_rank, authorization_matches,
  IsBoundTo,
}

contains-later :
    (x : Text) (small : List Text) (value : Text)
    → contains small value ≡ true
    → contains (x ∷ small) value ≡ true
unfolding contains
contains-later x small value e = ground (arith)

Covers-is_subset : (small large : List Text) → Covers small large → is_subset small large ≡ true
unfolding is_subset
Covers-is_subset [] large covers = refl
Covers-is_subset (x ∷ small) large covers =
    let head = covers x (contains-head x small) in
    let rest =
      Covers-is_subset small large (λ value e. covers value (contains-later x small value e)) in
    ground (arith)

rank_zero : (c : ApprovalClass) → approval_rank c == 0 ≡ true → c ≡ ApprovalClass.ordinary
rank_zero ApprovalClass.ordinary e = refl
rank_zero ApprovalClass.conditional_external_side_effect e = cc
rank_zero ApprovalClass.delegated_workspace_write e = cc
rank_zero ApprovalClass.native_ui_control e = cc
rank_zero ApprovalClass.commerce_checkout e = cc

rank_positive : (c : ApprovalClass) → approval_rank c == 0 ≡ false → c ≢ ApprovalClass.ordinary
rank_positive ApprovalClass.ordinary e = cc
rank_positive ApprovalClass.conditional_external_side_effect e = λ same. cc
rank_positive ApprovalClass.delegated_workspace_write e = λ same. cc
rank_positive ApprovalClass.native_ui_control e = λ same. cc
rank_positive ApprovalClass.commerce_checkout e = λ same. cc

is_some_value : (id : Option Text) → is_some id ≡ true → (value : Text) × (id ≡ some value)
is_some_value none e = cc
is_some_value (some value) e = (value, refl)

receipt_of :
    (c : ApprovalClass) (id : Option Text)
    → approval_rank c == 0 || is_some id ≡ true
    → c ≢ ApprovalClass.ordinary
    → (value : Text) × (id ≡ some value)
receipt_of c id e other = elim (Bool-cases (approval_rank c == 0)) [
  | inl zero ↦ absurd (other (rank_zero c zero))
  | inr positive ↦ is_some_value id (ground (arith))
]

receipt_test :
    (c : ApprovalClass) (id : Option Text)
    → (c ≢ ApprovalClass.ordinary → (value : Text) × (id ≡ some value))
    → approval_rank c == 0 || is_some id ≡ true
receipt_test c id found = elim (Bool-cases (approval_rank c == 0)) [
  | inl zero ↦ rw zero refl
  | inr positive ↦ let (value, e) = found (rank_positive c positive) in rw positive (rw e refl)
]

module _ (request : GovernedAuthorizationRequest) (evidence : GovernedAuthorizationEvidence) where
  authorization_matches-IsBoundTo :
      authorization_matches request evidence ≡ true → IsBoundTo request evidence
  unfolding authorization_matches
  authorization_matches-IsBoundTo e = record {
    digest = holds→ (Text-discrete evidence.request_digest request.request_digest) (ground (arith));
    class = leb→le _ _ (ground (arith));
    receipt =
        receipt_of request.policy_floor.approval evidence.approval_receipt_id (ground (arith));
    grants = is_subset-Covers _ _ (ground (arith));
    scopes = is_subset-Covers _ _ (ground (arith));
    authorities = is_subset-Covers _ _ (ground (arith));
  }

  IsBoundTo-authorization_matches :
      IsBoundTo request evidence → authorization_matches request evidence ≡ true
  unfolding authorization_matches
  IsBoundTo-authorization_matches bound =
      let digest =
        →holds (Text-discrete evidence.request_digest request.request_digest) bound.digest in
      let class =
        le→leb (approval_rank request.policy_floor.approval) (approval_rank evidence.approved_class)
          bound.class in
      let receipt =
        receipt_test request.policy_floor.approval evidence.approval_receipt_id bound.receipt in
      let grants = Covers-is_subset _ _ bound.grants in
      let scopes = Covers-is_subset _ _ bound.scopes in
      let authorities = Covers-is_subset _ _ bound.authorities in ground (arith)

  -- The evidence passes exactly when it carries the request's digest, its approval class is not
  -- below the floor's, it has a receipt unless the floor is ordinary, and every grant, scope and
  -- authority that the floor requires is among those it grants.
  pub authorization_matches_iff :
      (authorization_matches request evidence ≡ true) ↔ IsBoundTo request evidence
  authorization_matches_iff = (authorization_matches-IsBoundTo, IsBoundTo-authorization_matches)
