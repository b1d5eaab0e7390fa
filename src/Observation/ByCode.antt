-- ===== src/Observation/ByCode.antt =====
-- What manifest validation, of tool-runtime-core/src/manifest_validation.rs, guarantees of an
-- observation by exit codes.
use magic_run.Prelude.{
  ℕ, ◌≡◌, refl, subst, Bool, true, false, some, List, [], ◌∷◌, Result, ok, err, arith, find, All,
  All-get_elem?, →holds,
}
use magic_run.Prelude.Finding.{Excludes, find-In, IsPairwise-map}
use magic_run.Prelude.Sorting.{IsPairwise}
use magic_run.Manifest.Refusal.{ManifestValidationError}
use magic_run.Manifest.Auth.{
  IdentityContract, LifecycleStatusOutputFormat, LifecycleStatusRule, LifecycleStatusObservation,
}
use magic_run.Manifest.Equality.{LifecycleStatusOutputFormat-discrete}
use magic_run.Manifest.Lifecycles.{
  is_format, expects_profile, check_exit_codes, check_rule_shape, check_rules,
  validate_lifecycle_status_observation,
}
use magic_run.Manifest.Observed.{
  Disjoint, rule_step, observation-rules, validate_lifecycle_status_observation-IsObservation,
}
use magic_run.Observation.Evaluate.{lists}

abbrev pub IsBare : LifecycleStatusRule → Type 0
IsBare rule = rule.all ≡ []

check_rules-IsBare_first :
    (identity : IdentityContract) (seen : List LifecycleStatusRule) (exits : List ℕ) (ready : Bool)
    (total : ℕ) (rule : LifecycleStatusRule) (rules : List LifecycleStatusRule)
    → check_rules LifecycleStatusOutputFormat.exit_code identity seen exits ready total
        (rule ∷ rules)
      ≡ ok tt
    → IsBare rule
unfolding check_rules check_rule_shape LifecycleStatusOutputFormat-discrete
check_rules-IsBare_first identity seen exits ready total rule rules h =
    by_codes (check_exit_codes LifecycleStatusOutputFormat.exit_code exits rule.exit_codes) refl
      rule.all refl
  where
    by_codes :
        (r : Result ManifestValidationError (List ℕ))
        → check_exit_codes LifecycleStatusOutputFormat.exit_code exits rule.exit_codes ≡ r
        → (predicates : List _) → rule.all ≡ predicates
        → IsBare rule
    by_codes (ok exits') e [] bare = bare
    by_codes (ok exits') e (p ∷ ps) bare = absurd (ground arith)
    by_codes (err failure) e predicates bare = absurd (ground arith)

-- Rules by exit code have no predicates.
check_rules-IsBare :
    (identity : IdentityContract) (seen : List LifecycleStatusRule) (exits : List ℕ) (ready : Bool)
    (total : ℕ) (rules : List LifecycleStatusRule)
    → check_rules LifecycleStatusOutputFormat.exit_code identity seen exits ready total rules
      ≡ ok tt
    → All IsBare rules
check_rules-IsBare identity seen exits ready total [] h = tt
check_rules-IsBare identity seen exits ready total (rule ∷ rules) h =
    let (exits', codes, run) =
      rule_step identity LifecycleStatusOutputFormat.exit_code seen exits ready total rule rules
        h in
    (
      check_rules-IsBare_first identity seen exits ready total rule rules h,
      check_rules-IsBare identity (rule ∷ seen) exits' _ _ rules run,
    )

pub unprofiled :
    (contract : LifecycleStatusObservation) (identity : IdentityContract)
    → contract.format ≡ LifecycleStatusOutputFormat.exit_code
    → validate_lifecycle_status_observation contract identity ≡ ok tt
    → expects_profile identity ≡ false
unfolding validate_lifecycle_status_observation
unprofiled contract identity by_code valid =
    let same : is_format contract.format LifecycleStatusOutputFormat.exit_code ≡ true =
      →holds (LifecycleStatusOutputFormat-discrete contract.format _) by_code in
    ground arith

module _ (contract : LifecycleStatusObservation) (identity : IdentityContract) (code : ℕ)
    (by_code : contract.format ≡ LifecycleStatusOutputFormat.exit_code)
    (valid : validate_lifecycle_status_observation contract identity ≡ ok tt) where
  all-IsBare : All IsBare contract.rules
  all-IsBare = check_rules-IsBare identity [] [] false 0 contract.rules (
      subst (λ f. check_rules f identity [] [] false 0 contract.rules ≡ ok tt) by_code
        (observation-rules contract identity valid))

  pub excluded : IsPairwise (Excludes (lists code)) contract.rules
  excluded =
      let shape = validate_lifecycle_status_observation-IsObservation contract identity valid in
      IsPairwise-map IsBare Disjoint (Excludes (lists code)) (λ a b p q apart. apart code)
        contract.rules all-IsBare (shape.disjoint by_code)

  pub found-IsBare :
      (rule : LifecycleStatusRule) → find (lists code) contract.rules ≡ some rule → IsBare rule
  found-IsBare rule e =
      let (i, place) = find-In (lists code) contract.rules e in
      All-get_elem? IsBare contract.rules i all-IsBare place
