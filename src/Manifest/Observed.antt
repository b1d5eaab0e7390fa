-- ===== src/Manifest/Observed.antt =====
-- The status observations that tool-runtime-core/src/manifest_validation.rs lets through.
use magic_run.Prelude.{
  ℕ, ◌+◌, ◌≡◌, ◌⊎◌, inl, inr, refl, subst, Bool, true, false, ◌||◌, List, [], ◌∷◌, Result, ok, err,
  arith, ◌==◌, length, any, holds→, All, All-map, ok-injective, Bool-cases,
}
use magic_run.Prelude.Sorting.{IsPairwise}
use magic_run.Manifest.Refusal.{ManifestValidationError}
use magic_run.Manifest.Auth.{
  LifecycleStatusOutputFormat, LifecycleObservedAuthState, LifecycleStatusRule,
  LifecycleStatusObservation, IdentityContract,
}
use magic_run.Manifest.Equality.{
  LifecycleStatusOutputFormat-discrete, LifecycleObservedAuthState-discrete,
}
use magic_run.Manifest.Lifecycles.{
  is_state, check_exit_codes, check_rules, validate_lifecycle_status_observation,
}

-- The exit code stands in the rule.
abbrev pub Lists : LifecycleStatusRule → ℕ → Type 0
Lists rule code = any (λ c. c == code) rule.exit_codes ≡ true

-- No exit code stands in both rules.
abbrev pub Disjoint : LifecycleStatusRule → LifecycleStatusRule → Type 0
Disjoint a b = (code : ℕ) → Lists a code → Lists b code → ⊥

abbrev pub IsReady : List LifecycleStatusRule → Type 0
IsReady [] = ⊥
IsReady (rule ∷ rules) = (rule.state ≡ LifecycleObservedAuthState.ready) ⊎ IsReady rules

abbrev Has : List ℕ → ℕ → Type 0
Has codes code = any (λ c. c == code) codes ≡ true

abbrev Lacks : List ℕ → ℕ → Type 0
Lacks codes code = any (λ c. c == code) codes ≡ false

exit_code_step :
    (seen codes final : List ℕ) (c : ℕ)
    → check_exit_codes LifecycleStatusOutputFormat.exit_code seen (c ∷ codes) ≡ ok final
    → Lacks seen c
      × (check_exit_codes LifecycleStatusOutputFormat.exit_code (c ∷ seen) codes ≡ ok final)
unfolding check_exit_codes LifecycleStatusOutputFormat-discrete
exit_code_step seen codes final c h = (ground arith, ground arith)

-- The codes of a rule are new, and are kept.
check_exit_codes_lem :
    (seen codes final : List ℕ)
    → check_exit_codes LifecycleStatusOutputFormat.exit_code seen codes ≡ ok final
    → ((code : ℕ) → Has codes code → Lacks seen code)
      × ((code : ℕ) → Has seen code → Has final code)
      × ((code : ℕ) → Has codes code → Has final code)
unfolding check_exit_codes
check_exit_codes_lem seen [] final h =
    let same : seen ≡ final = ok-injective h in
    (λ code e. cc, λ code e. subst (λ l. Has l code) same e, λ code e. cc)
check_exit_codes_lem seen (c ∷ codes) final h =
    let (fresh, run) = exit_code_step seen codes final c h in
    let (news, keeps, adds) = check_exit_codes_lem (c ∷ seen) codes final run in
    (
      λ code e. elim (Bool-cases (c == code)) [
        | inl here ↦ let same : c ≡ code = ground (arith) in subst (Lacks seen) same fresh
        | inr other ↦ let later = news code (ground (arith)) in ground (arith)
      ],
      λ code e. keeps code (ground (arith)),
      λ code e. elim (Bool-cases (c == code)) [
        | inl here ↦ keeps code (ground (arith))
        | inr other ↦ adds code (ground (arith))
      ],
    )

ready_state :
    (rule : LifecycleStatusRule)
    → is_state rule.state LifecycleObservedAuthState.ready ≡ true
    → rule.state ≡ LifecycleObservedAuthState.ready
ready_state rule h = holds→ (LifecycleObservedAuthState-discrete rule.state _) h

module _ (identity : IdentityContract) where
  -- What one round of the loop passes on.
  pub rule_step :
      (format : LifecycleStatusOutputFormat) (seen : List LifecycleStatusRule) (exits : List ℕ)
      (ready : Bool) (total : ℕ) (rule : LifecycleStatusRule) (rules : List LifecycleStatusRule)
      → check_rules format identity seen exits ready total (rule ∷ rules) ≡ ok tt
      → (exits' : List ℕ) × (check_exit_codes format exits rule.exit_codes ≡ ok exits')
        × (check_rules format identity
              (rule ∷ seen)
              exits'
              (ready || is_state rule.state LifecycleObservedAuthState.ready)
              (total + length rule.all)
              rules
            ≡ ok tt)
  unfolding check_rules
  rule_step format seen exits ready total rule rules h =
      by_codes (check_exit_codes format exits rule.exit_codes) refl
    where
      by_codes :
          (r : Result ManifestValidationError (List ℕ))
          → check_exit_codes format exits rule.exit_codes ≡ r
          → (exits' : List ℕ) × (check_exit_codes format exits rule.exit_codes ≡ ok exits')
            × (check_rules format identity
                  (rule ∷ seen)
                  exits'
                  (ready || is_state rule.state LifecycleObservedAuthState.ready)
                  (total + length rule.all)
                  rules
                ≡ ok tt)
      by_codes (ok exits') e = (exits', e, ground arith)
      by_codes (err failure) e = absurd (ground arith)

  check_rules-IsReady :
      (format : LifecycleStatusOutputFormat) (seen : List LifecycleStatusRule) (exits : List ℕ)
      (ready : Bool) (total : ℕ) (rules : List LifecycleStatusRule)
      → check_rules format identity seen exits ready total rules ≡ ok tt
      → (ready ≡ true) ⊎ IsReady rules
  unfolding check_rules
  check_rules-IsReady format seen exits ready total [] h = inl (ground arith)
  check_rules-IsReady format seen exits ready total (rule ∷ rules) h =
      let (exits', codes, run) = rule_step format seen exits ready total rule rules h in
      elim (check_rules-IsReady format (rule ∷ seen) exits' _ _ rules run) [
        | inl now ↦ elim (Bool-cases ready) [
          | inl before ↦ inl before
          | inr other ↦ inr (inl (ready_state rule (ground (arith))))
        ]
        | inr later ↦ inr (inr later)
      ]

  check_rules-Disjoint :
      (seen : List LifecycleStatusRule) (exits : List ℕ) (ready : Bool) (total : ℕ)
      (rules : List LifecycleStatusRule)
      → check_rules LifecycleStatusOutputFormat.exit_code identity seen exits ready total rules
        ≡ ok tt
      → All (λ rule. (code : ℕ) → Lists rule code → Lacks exits code) rules
        × IsPairwise Disjoint rules
  check_rules-Disjoint seen exits ready total [] h = (tt, tt)
  check_rules-Disjoint seen exits ready total (rule ∷ rules) h =
      let (exits', codes, run) =
        rule_step LifecycleStatusOutputFormat.exit_code seen exits ready total rule rules h in
      let (news, keeps, adds) = check_exit_codes_lem exits rule.exit_codes exits' codes in
      let (fresh, apart) = check_rules-Disjoint (rule ∷ seen) exits' _ _ rules run in
      (
        (
          news,
          All-map _ _
              (λ other lacks code listed.
                lacking exits exits' code (lacks code listed) (keeps code))
              rules fresh,
        ),
        (
          All-map _ _
              (λ other lacks code mine theirs.
                both_ways exits' code (adds code mine) (lacks code theirs))
              rules fresh,
          apart,
        ),
      )
    where
      lacking :
          (exits exits' : List ℕ) (code : ℕ)
          → Lacks exits' code
          → (Has exits code → Has exits' code)
          → Lacks exits code
      lacking exits exits' code lacks keep = elim (Bool-cases (any (λ c. c == code) exits)) [
        | inl e ↦ let kept = keep e in cc
        | inr e ↦ e
      ]

      both_ways : (exits : List ℕ) (code : ℕ) → Has exits code → Lacks exits code → ⊥
      both_ways exits code e f = cc

-- An observation that can report readiness and, by exit codes, at most one state.
pub record IsObservation (observation : LifecycleStatusObservation) : Type 0 where
  pub ready : IsReady observation.rules
  pub disjoint :
      observation.format ≡ LifecycleStatusOutputFormat.exit_code
      → IsPairwise Disjoint observation.rules

pub observation-rules :
    (observation : LifecycleStatusObservation) (identity : IdentityContract)
    → validate_lifecycle_status_observation observation identity ≡ ok tt
    → check_rules observation.format identity [] [] false 0 observation.rules ≡ ok tt
unfolding validate_lifecycle_status_observation
observation-rules observation identity h = ground arith

-- In a validated status observation some rule reports that the profile is ready, and where it reads
-- only the exit code, no exit code stands in two rules.
pub validate_lifecycle_status_observation-IsObservation :
    (observation : LifecycleStatusObservation) (identity : IdentityContract)
    → validate_lifecycle_status_observation observation identity ≡ ok tt
    → IsObservation observation
validate_lifecycle_status_observation-IsObservation observation identity valid =
    let run = observation-rules observation identity valid in
    record {
      ready =
          not_before _
            (check_rules-IsReady identity observation.format [] [] false 0 observation.rules run);
      disjoint = λ e.
          (check_rules-Disjoint identity [] [] false 0 observation.rules
            (subst (λ f. check_rules f identity [] [] false 0 observation.rules ≡ ok tt) e run)).1;
    }
  where
    not_before : (rules : List LifecycleStatusRule) → (false ≡ true) ⊎ IsReady rules → IsReady rules
    not_before rules (inl e) = cc
    not_before rules (inr ready) = ready
