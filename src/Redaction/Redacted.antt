-- ===== src/Redaction/Redacted.antt =====
-- The loop of `redact_with_limits` of tool-runtime-core/src/credential_materialization.rs scrubs its
-- input.
use magic_run.Prelude.{
  ℕ, zero, suc, ◌+◌, ◌≡◌, refl, sym, ap, ◌∙◌, subst, false, none, some, List, [], ◌∷◌, ◌++◌, arith,
  ok, err, length, Bool-cases, inl, inr,
}
use magic_run.Redaction.Redactor.{Bytes, CredentialValueRedactor}
use magic_run.Redaction.Scan.{
  Outcome, Found, ◌>>=◌, find_next, append_bounded_to, copy_stage, redact_loop, has_patterns,
  redact_with_limits,
}
use magic_run.Redaction.Match.{IsRedactor, IsPattern}
use magic_run.Redaction.Scrub.{Scrubbed, done, copied}
use magic_run.Redaction.Leads.{Tells, find_next-Tells}
use mathlib.Core.List.{append_assoc}

pub append_bounded_to-ok :
    (output bytes : Bytes) (maximum : ℕ) {result : Bytes}
    → append_bounded_to output bytes maximum ≡ ok result
    → output ++ bytes ≡ result
unfolding append_bounded_to
append_bounded_to-ok output bytes maximum e = ground arith

pub outcome_inversion :
    {A B : Type 0} (step : Outcome A) (rest : A → Outcome B) {result : B}
    → (step >>= rest) ≡ ok result
    → (value : A) × (step ≡ ok value) × (rest value ≡ ok result)
outcome_inversion (err failure) rest e = cc
outcome_inversion (ok value) rest e = (value, refl, e)

-- Three pieces joined one after the other.
joined_lem :
    (output before out : Bytes) (c : ℕ) {copy mark final : Bytes}
    → output ++ before ≡ copy
    → copy ++ (c ∷ []) ≡ mark
    → mark ++ out ≡ final
    → output ++ (before ++ (c ∷ out)) ≡ final
joined_lem output before out c {copy} {mark} one two joined =
    sym (append_assoc output before (c ∷ out))
    ∙ ap (λ l. l ++ (c ∷ out)) one
    ∙ sym (append_assoc copy (c ∷ []) out)
    ∙ ap (λ l. l ++ out) two
    ∙ joined

abbrev pub one_mark : ℕ → ℕ
one_mark n = 1

pub has_patterns-false : (patterns : List Bytes) → has_patterns patterns ≡ false → patterns ≡ []
has_patterns-false [] e = refl
has_patterns-false (pattern ∷ rest) e = cc

module _ (r : CredentialValueRedactor) (marks : ℕ → ℕ) where
  pub nothing_stands : r.patterns ≡ [] → (pattern : Bytes) → IsPattern r pattern → ⊥
  nothing_stands e pattern (i, found) = cc

  pub nothing-Scrubbed : r.patterns ≡ [] → (input : Bytes) → Scrubbed r marks input input
  nothing-Scrubbed e [] = done
  nothing-Scrubbed e (c ∷ rest) =
      copied (λ pattern found. absurd (nothing_stands e pattern found)) (nothing-Scrubbed e rest)

module _ (r : CredentialValueRedactor) (made : IsRedactor r) (max_output : ℕ) where
  -- What the loop adds to its output.
  abbrev Adds : Bytes → Bytes → Bytes → Type 0
  Adds input output final = (out : Bytes) × (output ++ out ≡ final) × Scrubbed r one_mark input out

  copy_stage-Adds :
      (input output : Bytes) (again : Bytes → Bytes → ℕ → Outcome Bytes) (answer : Found)
      (compared : ℕ) {final : Bytes}
      → Tells r made one_mark input answer
      → ((rest marked : Bytes) (spent : ℕ)
          → again rest marked spent ≡ ok final
          → Adds rest marked final)
      → copy_stage r max_output input output again (answer, compared) ≡ ok final
      → Adds input output final
  unfolding copy_stage
  copy_stage-Adds input output again none compared tells later e =
      (input, append_bounded_to-ok output input max_output e, tells)
  copy_stage-Adds input output again (some (before, n, after)) compared tells later e =
      let (copy, first, e1) = outcome_inversion (append_bounded_to output before max_output) _ e in
      let (mark, second, e2) =
        outcome_inversion (append_bounded_to copy (r.replacement ∷ []) max_output) _ e1 in
      let (out, joined, scrubbed) = later after mark compared e2 in
      let one = append_bounded_to-ok output before max_output first in
      let two = append_bounded_to-ok copy (r.replacement ∷ []) max_output second in
      (
        before ++ (r.replacement ∷ out),
        joined_lem output before out r.replacement one two joined,
        tells.scrubs out scrubbed,
      )

  redact_loop-Adds :
      (fuel : ℕ) (input output : Bytes) (compared : ℕ) {final : Bytes}
      → redact_loop fuel r max_output input output compared ≡ ok final
      → Adds input output final
  unfolding redact_loop
  redact_loop-Adds zero input output compared e = cc
  redact_loop-Adds (suc fuel) input output compared e =
      let ((answer, spent), found, e1) = outcome_inversion (find_next r input compared) _ e in
      copy_stage-Adds input output (redact_loop fuel r max_output) answer spent
        (find_next-Tells r made one_mark input compared answer spent found)
        (λ rest marked c. redact_loop-Adds fuel rest marked c) e1

  pub redact_with_limits-Scrubbed :
      (input : Bytes) (max_input : ℕ) {final : Bytes}
      → redact_with_limits r input max_input max_output ≡ ok final
      → Scrubbed r one_mark input final
  unfolding redact_with_limits
  redact_with_limits-Scrubbed input max_input {final} e =
      elim (Bool-cases (has_patterns r.patterns)) [
        | inl some_pattern ↦
            let looped : redact_loop (length input + 1) r max_output input [] 0 ≡ ok final =
              ground arith in
            let (out, same, scrubbed) = redact_loop-Adds (length input + 1) input [] 0 looped in
            subst (Scrubbed r one_mark input) same scrubbed
        | inr no_pattern ↦
            let same : input ≡ final = ground arith in
            subst (Scrubbed r one_mark input) same
              (nothing-Scrubbed r one_mark (has_patterns-false r.patterns no_pattern) input)
      ]
