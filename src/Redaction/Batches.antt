-- ===== src/Redaction/Batches.antt =====
-- When `redact_segments` of tool-runtime-core/src/credential_materialization.rs succeeds.
use magic_run.Prelude.{
  ℕ, zero, suc, ◌+◌, ◌≡◌, ◌<◌, ◌≤◌, sym, ap, ◌∙◌, false, none, some, List, [], ◌∷◌, arith, ok, err,
  ◌⊎◌, length, length-append, ltb, drop, concat,
}
use magic_run.Redaction.Errors.{redaction_work_limit_exceeded}
use magic_run.Redaction.Redactor.{Bytes, CredentialValueRedactor, redactor_new}
use magic_run.Redaction.Scan.{
  Outcome, Found, failed, find_next, has_patterns, max_redaction_output_bytes,
}
use magic_run.Redaction.Segments.{
  append_bounded, check_total, append_all, fill_stage, fill_loop, split_redacted_segments,
  redact_segments,
}
use magic_run.Redaction.Match.{IsRedactor}
use magic_run.Redaction.Leads.{Tells, find_next-Tells}
use magic_run.Redaction.Made.{redactor_new-IsRedactor}
use magic_run.Redaction.Records.{each_byte, fill_loop-Scrubbed, append_all-concat}
use magic_run.Redaction.Limits.{Works, Works-bind, Works-if, Works-either, find_next-Works}
use magic_run.Redaction.Total.{append_bounded_to-Works, append_bounded_to-length}
use magic_run.Redaction.Streamed.{length-Scrubbed}

check_total-Works :
    (total : ℕ) (inputs : List Bytes)
    → total + length (concat inputs) ≤ max_redaction_output_bytes
    → Works (check_total total inputs)
unfolding check_total
check_total-Works total [] h = tt
check_total-Works total (input ∷ inputs) h =
    let sum = length-append input (concat inputs) in
    let fits : ltb max_redaction_output_bytes (total + length input) ≡ false = ground arith in
    rw fits (check_total-Works (total + length input) inputs (omega arith))

append_all-Works :
    (current : Bytes) (inputs : List Bytes)
    → length current + length (concat inputs) ≤ max_redaction_output_bytes
    → Works (append_all current inputs)
unfolding append_all
append_all-Works current [] h = tt
append_all-Works current (input ∷ inputs) h =
    let sum = length-append input (concat inputs) in
    Works-bind (append_bounded current input) (λ next. append_all next inputs)
      (append_bounded_to-Works current input max_redaction_output_bytes (omega arith))
      (λ next appended.
        let longer = append_bounded_to-length current input max_redaction_output_bytes appended in
        append_all-Works next inputs (omega arith))

length-drop : (n : ℕ) (xs : Bytes) → n ≤ length xs → n + length (drop n xs) ≡ length xs
length-drop zero xs h = omega arith
length-drop (suc n) [] h = absurd (omega arith)
length-drop (suc n) (x ∷ xs) h = let rest = length-drop n xs (omega arith) in omega arith

split-Works :
    (combined : Bytes) (inputs : List Bytes)
    → length combined ≡ length (concat inputs)
    → Works (split_redacted_segments combined inputs)
unfolding split_redacted_segments
split-Works [] [] h = tt
split-Works (c ∷ rest) [] h = absurd (omega arith)
split-Works combined (input ∷ inputs) h =
    let sum = length-append input (concat inputs) in
    let fits : ltb (length combined) (length input) ≡ false = ground arith in
    let left = length-drop (length input) combined (omega arith) in
    rw fits (
      Works-bind (split_redacted_segments (drop (length input) combined) inputs) _
        (split-Works (drop (length input) combined) inputs (omega arith)) (λ outputs parted. tt))

module _ (r : CredentialValueRedactor) (made : IsRedactor r) where
  fill_stage-Works :
      (current : Bytes) (again : Bytes → ℕ → Outcome Bytes) (answer : Found) (compared : ℕ)
      → Tells r made each_byte current answer
      → ((rest : Bytes) (spent : ℕ) → length rest < length current → Works (again rest spent))
      → Works (fill_stage r current again (answer, compared))
  fill_stage-Works current again none compared tells w = tt
  fill_stage-Works current again (some (before, n, after)) compared tells w =
      let less = tells.shorter in
      Works-bind (again after compared) _ (w after compared (omega arith)) (λ rest filled. tt)

  fill_loop-Works :
      (fuel : ℕ) (current : Bytes) (compared : ℕ)
      → length current < fuel
      → Works (fill_loop fuel r current compared)
  unfolding fill_loop
  fill_loop-Works zero current compared enough = absurd (omega arith)
  fill_loop-Works (suc fuel) current compared enough =
      Works-bind (find_next r current compared) (fill_stage r current (fill_loop fuel r))
        (find_next-Works r made current compared)
        (λ value found.
          let (answer, spent) = value in
          fill_stage-Works current (fill_loop fuel r) answer spent
            (find_next-Tells r made each_byte current compared answer spent found)
            (λ rest c shorter. fill_loop-Works fuel rest c (omega arith)))

  redact_segments-Works :
      (inputs : List Bytes)
      → length (concat inputs) ≤ max_redaction_output_bytes
      → Works (redact_segments r inputs)
  unfolding redact_segments
  redact_segments-Works inputs small =
      Works-bind (check_total 0 inputs) _ (check_total-Works 0 inputs (omega arith))
        (λ total counted.
          Works-if (has_patterns r.patterns) _ (ok inputs)
            (Works-bind (append_all [] inputs) _ (append_all-Works [] inputs (omega arith))
              (λ current appended.
                Works-bind (fill_loop (length current + 1) r current 0) _
                  (fill_loop-Works (length current + 1) current 0 (omega arith))
                  (λ filled looped. split-Works filled inputs (
                    length-Scrubbed r
                      (fill_loop-Scrubbed r made (length current + 1) current 0 looped)
                    ∙ sym (ap length (append_all-concat [] inputs appended))))))
            tt)

-- A batch of at most 8 MiB ends with its redacted records, or with the error that the budget of
-- comparisons is spent, and with no other.
pub redact_segments-total :
    (secrets : List Bytes) (r : CredentialValueRedactor) (inputs : List Bytes)
    → redactor_new secrets ≡ ok r
    → length (concat inputs) ≤ max_redaction_output_bytes
    → ((outputs : List Bytes) × (redact_segments r inputs ≡ ok outputs))
      ⊎ (redact_segments r inputs ≡ err (failed redaction_work_limit_exceeded))
redact_segments-total secrets r inputs built small =
    Works-either (redact_segments r inputs)
      (redact_segments-Works r (redactor_new-IsRedactor secrets built) inputs small)
