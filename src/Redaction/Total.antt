-- ===== src/Redaction/Total.antt =====
-- When the redaction of one buffer of
-- tool-runtime-core/src/credential_materialization.rs succeeds.
use magic_run.Prelude.{
  ℕ, zero, suc, ◌+◌, ◌≡◌, ◌<◌, ◌≤◌, sym, ap, ◌∙◌, false, none, some, List, [], ◌∷◌, arith, ok, err,
  length, length-append, ltb, ◌⊎◌,
}
use magic_run.Redaction.Errors.{redaction_work_limit_exceeded}
use magic_run.Redaction.Redactor.{Bytes, CredentialValueRedactor, redactor_new}
use magic_run.Redaction.Scan.{
  Outcome, failed, Found, find_next, append_bounded_to, copy_stage, redact_loop, has_patterns,
  redact_with_limits, redact, max_redaction_input_bytes, max_redaction_output_bytes,
}
use magic_run.Redaction.Match.{IsRedactor}
use magic_run.Redaction.Made.{redactor_new-IsRedactor}
use magic_run.Redaction.Leads.{Tells, find_next-Tells}
use magic_run.Redaction.Redacted.{one_mark, append_bounded_to-ok}
use magic_run.Redaction.Limits.{Works, Works-bind, Works-if, Works-either, find_next-Works}

pub append_bounded_to-Works :
    (output bytes : Bytes) (maximum : ℕ)
    → length output + length bytes ≤ maximum
    → Works (append_bounded_to output bytes maximum)
unfolding append_bounded_to
append_bounded_to-Works output bytes maximum h =
    let fits : ltb maximum (length output + length bytes) ≡ false = ground arith in rw fits tt

pub append_bounded_to-length :
    (output bytes : Bytes) (maximum : ℕ) {result : Bytes}
    → append_bounded_to output bytes maximum ≡ ok result
    → length result ≡ length output + length bytes
append_bounded_to-length output bytes maximum e =
    sym (ap length (append_bounded_to-ok output bytes maximum e)) ∙ length-append output bytes

module _ (r : CredentialValueRedactor) (made : IsRedactor r) (max_output : ℕ) where
  copy_stage-Works :
      (input output : Bytes) (again : Bytes → Bytes → ℕ → Outcome Bytes) (answer : Found)
      (compared : ℕ)
      → Tells r made one_mark input answer
      → length output + length input ≤ max_output
      → ((rest marked : Bytes) (spent : ℕ)
          → length rest < length input
          → length marked + length rest ≤ max_output
          → Works (again rest marked spent))
      → Works (copy_stage r max_output input output again (answer, compared))
  unfolding copy_stage
  copy_stage-Works input output again none compared tells h w =
      append_bounded_to-Works output input max_output h
  copy_stage-Works input output again (some (before, n, after)) compared tells h w =
      let less = tells.shorter in
      Works-bind (append_bounded_to output before max_output) _
        (append_bounded_to-Works output before max_output (omega arith))
        (λ copy one.
          let copied = append_bounded_to-length output before max_output one in
          Works-bind (append_bounded_to copy (r.replacement ∷ []) max_output) _
            (append_bounded_to-Works copy (r.replacement ∷ []) max_output (omega arith))
            (λ mark two.
              let marked = append_bounded_to-length copy (r.replacement ∷ []) max_output two in
              w after mark compared (omega arith) (omega arith)))

  redact_loop-Works :
      (fuel : ℕ) (input output : Bytes) (compared : ℕ)
      → length input < fuel
      → length output + length input ≤ max_output
      → Works (redact_loop fuel r max_output input output compared)
  unfolding redact_loop
  redact_loop-Works zero input output compared enough h = absurd (omega arith)
  redact_loop-Works (suc fuel) input output compared enough h =
      Works-bind (find_next r input compared) _ (find_next-Works r made input compared)
        (λ value found.
          let (answer, spent) = value in
          copy_stage-Works input output (redact_loop fuel r max_output) answer spent
            (find_next-Tells r made one_mark input compared answer spent found) h
            (λ rest marked c shorter fits. redact_loop-Works fuel rest marked c (omega arith) fits))

  pub redact_with_limits-Works :
      (input : Bytes) (max_input : ℕ)
      → length input ≤ max_input
      → length input ≤ max_output
      → Works (redact_with_limits r input max_input max_output)
  unfolding redact_with_limits
  redact_with_limits-Works input max_input small fits =
      let within : ltb max_input (length input) ≡ false = ground arith in
      rw within (
        Works-if (has_patterns r.patterns) (redact_loop (length input + 1) r max_output input [] 0)
          (ok input) (redact_loop-Works (length input + 1) input [] 0 (omega arith) (omega arith))
          tt)

-- A redaction of at most 1 MiB ends with an output, or with the error that the budget of
-- comparisons is spent, and with no other.
pub redact-total :
    (secrets : List Bytes) (r : CredentialValueRedactor) (input : Bytes)
    → redactor_new secrets ≡ ok r
    → length input ≤ max_redaction_input_bytes
    → ((output : Bytes) × (redact r input ≡ ok output))
      ⊎ (redact r input ≡ err (failed redaction_work_limit_exceeded))
unfolding redact
redact-total secrets r input built small = Works-either (redact r input) (
    redact_with_limits-Works r (redactor_new-IsRedactor secrets built) max_redaction_output_bytes
      input max_redaction_input_bytes small (omega arith))
