-- ===== src/Catalog/Additive.antt =====
-- What `decision` of tool-runtime-core/src/mcp_catalog_policy.rs publishes.
use magic_run.Prelude.{
  ◌≡◌, ◌≤◌, ◌⊎◌, inl, inr, refl, ap, subst, Bool, true, false, not, ◌&&◌, ◌||◌, Option, none, some,
  List, [], ◌∷◌, ◌++◌, Text, Result, ok, err, arith, ltb, keep, length, holds, holds→,
  Text-discrete, Bool-cases, length-append, if◌then◌else◌, ◌>>=◌,
}
use magic_run.Prelude.Sets.{is_nil, contains, Covers, get}
use magic_run.Manifest.Mcp.{ApprovalClass, McpToolRiskClass, McpToolPolicy}
use magic_run.Manifest.Bounds.{max_policy_entries}
use magic_run.Catalog.Policy.{
  McpCatalogPolicyContract, McpEffectiveToolPolicy, McpToolPublicationDecision,
  McpCatalogPolicyError, union_len, union_iter, additions, risk_approval, within_ceiling, effective,
  compose_effective, risk_of, decision, required_grants, resource_scopes,
  required_resource_authorities,
}

-- The classes that a list of approvals has.
abbrev pub Requires : List ApprovalClass → ApprovalClass → Type 0
Requires [] class = ⊥
Requires (c ∷ classes) class = (c ≡ class) ⊎ Requires classes class

contains-append :
    (xs ys : List Text) (value : Text)
    → contains (xs ++ ys) value ≡ contains xs value || contains ys value
unfolding contains
contains-append [] ys value = refl
contains-append (x ∷ xs) ys value = ground (arith, contains-append xs ys value)

differs :
    (p : Text → Bool) (x value : Text)
    → p x ≡ false
    → p value ≡ true
    → holds (Text-discrete x value) ≡ false
differs p x value a b = elim (Bool-cases (holds (Text-discrete x value))) [
  | inl e ↦ let same = ap p (holds→ (Text-discrete x value) e) in cc
  | inr e ↦ e
]

contains-keep :
    (p : Text → Bool) (xs : List Text) (value : Text)
    → p value ≡ true
    → contains xs value ≡ true
    → contains (keep p xs) value ≡ true
unfolding contains
contains-keep p [] value h e = e
contains-keep p (x ∷ xs) value h e = elim (Bool-cases (p x)) [
  | inl kept ↦ ground (arith, contains-keep p xs value h)
  | inr left ↦ let other = differs p x value left h in ground (arith, contains-keep p xs value h)
]

-- A union has the elements of both sets, and is as long as it is counted.
union_iter-left : (base more : List Text) → Covers base (union_iter base more)
unfolding union_iter
union_iter-left base more value e =
    let parts = contains-append base (additions base more) value in ground arith

union_iter-right : (base more : List Text) → Covers more (union_iter base more)
unfolding union_iter
union_iter-right base more value e =
    let parts = contains-append base (additions base more) value in
    elim (Bool-cases (contains base value)) [
      | inl old ↦ ground arith
      | inr new ↦
          let added = contains-keep (λ v. not (contains base v)) more value (ground (arith)) e in
          ground arith
    ]

length-union_iter : (base more : List Text) → length (union_iter base more) ≡ union_len base more
unfolding union_iter union_len
length-union_iter base more = length-append base (additions base more)

keep-contains :
    (p : Text → Bool) (xs : List Text) (value : Text)
    → contains (keep p xs) value ≡ true
    → contains xs value ≡ true
unfolding contains
keep-contains p [] value e = e
keep-contains p (x ∷ xs) value e = ground (arith, keep-contains p xs value)

union_iter-only :
    (base more : List Text) (value : Text)
    → contains (union_iter base more) value ≡ true
    → (contains base value ≡ true) ⊎ (contains more value ≡ true)
unfolding union_iter
union_iter-only base more value e =
    let parts = contains-append base (additions base more) value in
    elim (Bool-cases (contains base value)) [
      | inl old ↦ inl old
      | inr new ↦ inr (keep-contains (λ v. not (contains base v)) more value (ground (arith)))
    ]

-- The set that joins a base and additions, with no other element, and within the ceiling.
abbrev pub Joins : List Text → List Text → List Text → Type 0
Joins base more whole =
    Covers base whole
    × Covers more whole
    × ((value : Text)
        → contains whole value ≡ true
        → (contains base value ≡ true) ⊎ (contains more value ≡ true))
    × (length whole ≤ max_policy_entries)

union_iter-Joins :
    (base more : List Text)
    → ltb max_policy_entries (union_len base more) ≡ false
    → Joins base more (union_iter base more)
union_iter-Joins base more e =
    let size = length-union_iter base more in
    (union_iter-left base more, union_iter-right base more, union_iter-only base more, ground arith)

abbrev additional : (McpToolPolicy → List Text) → Option McpToolPolicy → List Text
additional field none = []
additional field (some policy) = field policy

abbrev additional_approvals_of : Option McpToolPolicy → List ApprovalClass
additional_approvals_of none = []
additional_approvals_of (some policy) = policy.additional_approvals

-- A tool is eligible, and its effective policy keeps the base policy and adds the local policy.
pub record IsAdditive (contract : McpCatalogPolicyContract) (remote : Text)
    (local : Option McpToolPolicy) (e : McpEffectiveToolPolicy) : Type 0 where
  pub not_denied : contains contract.deny_tools remote ≡ false
  pub allowed : is_nil contract.allow_tools || contains contract.allow_tools remote ≡ true
  pub risk : e.risk ≡ risk_of local
  pub base_approval : Requires e.required_approvals contract.base_policy.approval
  pub own_approval : Requires e.required_approvals (risk_approval e.risk)
  pub more_approvals :
      (class : ApprovalClass)
      → Requires (additional_approvals_of local) class
      → Requires e.required_approvals class
  pub no_more_approvals :
      (class : ApprovalClass)
      → Requires e.required_approvals class
      → (contract.base_policy.approval ≡ class)
        ⊎ (risk_approval e.risk ≡ class)
        ⊎ Requires (additional_approvals_of local) class
  pub grants :
      Joins contract.base_policy.required_grants
        (additional (λ p. p.additional_required_grants) local)
        (required_grants e)
  pub scopes :
      Joins contract.base_policy.resource_scopes
        (additional (λ p. p.additional_resource_scopes) local)
        (resource_scopes e)
  pub authorities :
      Joins contract.base_policy.required_resource_authorities
        (additional (λ p. p.additional_required_resource_authorities) local)
        (required_resource_authorities e)

module _ (contract : McpCatalogPolicyContract) (remote : Text) where
  within-IsAdditive :
      (local : Option McpToolPolicy)
      → contains contract.deny_tools remote ≡ false
      → is_nil contract.allow_tools || contains contract.allow_tools remote ≡ true
      → within_ceiling contract.base_policy (effective contract.base_policy (risk_of local) local)
        ≡ true
      → IsAdditive contract remote local (effective contract.base_policy (risk_of local) local)
  unfolding effective within_ceiling required_grants resource_scopes required_resource_authorities
  within-IsAdditive none free listed within = record {
    not_denied = free;
    allowed = listed;
    risk = refl;
    base_approval = inl refl;
    own_approval = inr (inl refl);
    more_approvals = λ class r. inr (inr r);
    no_more_approvals = λ class r. r;
    grants = union_iter-Joins _ _ (ground arith);
    scopes = union_iter-Joins _ _ (ground arith);
    authorities = union_iter-Joins _ _ (ground arith);
  }
  within-IsAdditive (some policy) free listed within = record {
    not_denied = free;
    allowed = listed;
    risk = refl;
    base_approval = inl refl;
    own_approval = inr (inl refl);
    more_approvals = λ class r. inr (inr r);
    no_more_approvals = λ class r. r;
    grants = union_iter-Joins _ _ (ground arith);
    scopes = union_iter-Joins _ _ (ground arith);
    authorities = union_iter-Joins _ _ (ground arith);
  }

  compose_effective-eq :
      (risk : McpToolRiskClass) (local : Option McpToolPolicy) {e : McpEffectiveToolPolicy}
      → compose_effective contract risk local ≡ ok e
      → (within_ceiling contract.base_policy (effective contract.base_policy risk local) ≡ true)
        × (effective contract.base_policy risk local ≡ e)
  unfolding compose_effective
  compose_effective-eq risk local h = (ground arith, ground arith)

published :
    (refused : Bool) (r : Result McpCatalogPolicyError McpEffectiveToolPolicy)
    (e : McpEffectiveToolPolicy)
    → (if refused
        then ok McpToolPublicationDecision.denied
        else (r >>= λ policy. ok (McpToolPublicationDecision.publish policy)))
      ≡ ok (McpToolPublicationDecision.publish e)
    → (refused ≡ false) × (r ≡ ok e)
published true r e h = cc
published false (err failure) e h = cc
published false (ok policy) e h = (refl, cc)

-- A tool is published only if no rule denies it and the allowed tools are none or have it. Its
-- effective policy requires the base approval, that of its risk, those that its local policy adds
-- and no other. Its grants, scopes and authorities are those of the base policy and those that the
-- local policy adds and no other, at most 256 of each.
pub decision-IsAdditive :
    (contract : McpCatalogPolicyContract) (remote : Text) (e : McpEffectiveToolPolicy)
    → decision contract remote ≡ ok (McpToolPublicationDecision.publish e)
    → IsAdditive contract remote (get contract.tool_policies remote) e
unfolding decision
decision-IsAdditive contract remote e h =
    let local = get contract.tool_policies remote in
    let (eligible, composed) =
      published
        (contains contract.deny_tools remote
          || (not (is_nil contract.allow_tools) && not (contains contract.allow_tools remote)))
        (compose_effective contract (risk_of local) local) e h in
    let (within, same) = compose_effective-eq contract remote (risk_of local) local composed in
    subst (IsAdditive contract remote local) same
      (within-IsAdditive contract remote local (ground arith) (ground arith) within)
