-- ===== src/Redaction/Records.antt =====
-- What `redact_segments` of tool-runtime-core/src/credential_materialization.rs makes of the records.
use magic_run.Prelude.{
  ℕ, zero, suc, ◌+◌, ◌≡◌, ◌<◌, ◌≤◌, refl, sym, ap, ◌∙◌, subst, false, none, some, List, [], ◌∷◌,
  ◌++◌, arith, ok, length, take, drop, replicate, concat, map, ok-injective, if◌then◌else◌,
  Bool-cases, inl, inr, All,
}
use mathlib.Core.List.{append_assoc, append-nil}
use magic_run.Redaction.Redactor.{Bytes, CredentialValueRedactor, redactor_new}
use magic_run.Redaction.Scan.{
  Outcome, Found, ◌>>=◌, find_next, has_patterns, max_redaction_output_bytes,
}
use magic_run.Redaction.Segments.{
  append_bounded, check_total, append_all, fill_stage, fill_loop, split_redacted_segments,
  redact_segments,
}
use magic_run.Redaction.Match.{IsRedactor}
use magic_run.Redaction.Scrub.{Scrubbed, occurs, Scrubbed-clean}
use magic_run.Redaction.Leads.{Tells, find_next-Tells}
use magic_run.Redaction.Redacted.{
  append_bounded_to-ok, outcome_inversion, nothing-Scrubbed, has_patterns-false,
}
use magic_run.Redaction.Made.{redactor_new-IsRedactor, All-secrets}

-- Every byte of a pattern gets a mark.
abbrev pub each_byte : ℕ → ℕ
each_byte n = n

module _ (r : CredentialValueRedactor) (made : IsRedactor r) where
  fill_stage-Scrubbed :
      (current : Bytes) (again : Bytes → ℕ → Outcome Bytes) (answer : Found) (compared : ℕ)
      {final : Bytes}
      → Tells r made each_byte current answer
      → ((rest : Bytes) (spent : ℕ) (out : Bytes)
          → again rest spent ≡ ok out
          → Scrubbed r each_byte rest out)
      → fill_stage r current again (answer, compared) ≡ ok final
      → Scrubbed r each_byte current final
  fill_stage-Scrubbed current again none compared {final} tells later e =
      let same : current ≡ final = cc in subst (Scrubbed r each_byte current) same tells
  fill_stage-Scrubbed current again (some (before, n, after)) compared {final} tells later e =
      let (out, went, e1) =
        outcome_inversion (again after compared)
          (λ rest. ok (before ++ (replicate n r.replacement ++ rest))) e in
      let same : before ++ (replicate n r.replacement ++ out) ≡ final = cc in
      subst (Scrubbed r each_byte current) same (tells.scrubs out (later after compared out went))

  pub fill_loop-Scrubbed :
      (fuel : ℕ) (current : Bytes) (compared : ℕ) {final : Bytes}
      → fill_loop fuel r current compared ≡ ok final
      → Scrubbed r each_byte current final
  unfolding fill_loop
  fill_loop-Scrubbed zero current compared e = cc
  fill_loop-Scrubbed (suc fuel) current compared e =
      let ((answer, spent), found, e1) =
        outcome_inversion (find_next r current compared) (fill_stage r current (fill_loop fuel r))
          e in
      fill_stage-Scrubbed current (fill_loop fuel r) answer spent
        (find_next-Tells r made each_byte current compared answer spent found)
        (λ rest c out. fill_loop-Scrubbed fuel rest c) e1

pub append_all-concat :
    (current : Bytes) (inputs : List Bytes) {final : Bytes}
    → append_all current inputs ≡ ok final
    → current ++ concat inputs ≡ final
unfolding append_all
append_all-concat current [] e = append-nil current ∙ ok-injective e
append_all-concat current (input ∷ inputs) e =
    let (next, one, e1) = outcome_inversion (append_bounded current input) _ e in
    let here = append_bounded_to-ok current input max_redaction_output_bytes one in
    let later = append_all-concat next inputs e1 in
    sym (append_assoc current input (concat inputs)) ∙ ap (λ l. l ++ concat inputs) here ∙ later

-- The pieces make up the whole and have the old lengths.
pub record Splits (combined : Bytes) (inputs outputs : List Bytes) : Type 0 where
  pub joined : concat outputs ≡ combined
  pub lengths : map length outputs ≡ map length inputs

take-drop : (n : ℕ) (xs : Bytes) → take n xs ++ drop n xs ≡ xs
take-drop zero xs = refl
take-drop (suc n) [] = refl
take-drop (suc n) (x ∷ xs) = ap (λ l. x ∷ l) (take-drop n xs)

length-take : (n : ℕ) (xs : Bytes) → n ≤ length xs → length (take n xs) ≡ n
length-take zero xs h = refl
length-take (suc n) [] h = absurd (omega arith)
length-take (suc n) (x ∷ xs) h = let rest = length-take n xs (omega arith) in omega arith

Splits-cons :
    (combined input : Bytes) (inputs later : List Bytes)
    → length input ≤ length combined
    → Splits (drop (length input) combined) inputs later
    → Splits combined (input ∷ inputs) (take (length input) combined ∷ later)
Splits-cons combined input inputs later fits s = record {
  joined = ap (λ l. take (length input) combined ++ l) s.joined ∙ take-drop (length input) combined;
  lengths = let here = length-take (length input) combined fits in let rest = s.lengths in cc;
}

split-Splits :
    (combined : Bytes) (inputs : List Bytes) {outputs : List Bytes}
    → split_redacted_segments combined inputs ≡ ok outputs
    → Splits combined inputs outputs
unfolding split_redacted_segments
split-Splits [] [] e =
    subst (Splits [] []) (ok-injective e) (record { joined = refl; lengths = refl })
split-Splits (c ∷ rest) [] e = cc
split-Splits combined (input ∷ inputs) {outputs} e =
    let later = split_redacted_segments (drop (length input) combined) inputs in
    let went : (later >>= λ outputs. ok (take (length input) combined ∷ outputs)) ≡ ok outputs =
      ground arith in
    let (rest, split, e1) = outcome_inversion later _ went in
    subst (Splits combined (input ∷ inputs)) (ok-injective e1) (
      Splits-cons combined input inputs rest (ground (arith))
        (split-Splits (drop (length input) combined) inputs split))

-- What a batch of records becomes.
record IsBatch (r : CredentialValueRedactor) (inputs outputs : List Bytes) : Type 0 where
  scrubbed : Scrubbed r each_byte (concat inputs) (concat outputs)
  lengths : map length outputs ≡ map length inputs

module _ (r : CredentialValueRedactor) (made : IsRedactor r) where
  redact_segments-IsBatch :
      (inputs : List Bytes) {outputs : List Bytes}
      → redact_segments r inputs ≡ ok outputs
      → IsBatch r inputs outputs
  unfolding redact_segments
  redact_segments-IsBatch inputs {outputs} e =
      let split = λ (filled : Bytes). split_redacted_segments filled inputs in
      let fill = λ (current : Bytes). fill_loop (length current + 1) r current 0 >>= split in
      let whole = append_all [] inputs >>= fill in
      let (total, counted, e1) =
        outcome_inversion (check_total 0 inputs)
          (λ (total : ℕ). if has_patterns r.patterns then whole else ok inputs) e in
      elim (Bool-cases (has_patterns r.patterns)) [
        | inl some_pattern ↦
            let run : whole ≡ ok outputs = ground arith in
            let (current, appended, e2) = outcome_inversion (append_all [] inputs) fill run in
            let (filled, looped, e3) =
              outcome_inversion (fill_loop (length current + 1) r current 0) split e2 in
            let parts = split-Splits filled inputs e3 in
            record {
              scrubbed =
                  subst (λ l. Scrubbed r each_byte l (concat outputs))
                    (sym (append_all-concat [] inputs appended))
                    (subst (Scrubbed r each_byte current) (sym parts.joined)
                      (fill_loop-Scrubbed r made (length current + 1) current 0 looped));
              lengths = parts.lengths;
            }
        | inr no_pattern ↦
            let same : inputs ≡ outputs = ground arith in
            subst (IsBatch r inputs) same (record {
              scrubbed =
                  nothing-Scrubbed r each_byte (has_patterns-false r.patterns no_pattern)
                    (concat inputs);
              lengths = refl;
            })
      ]

pub each_byte-positive : (n : ℕ) → 0 < n → 0 < each_byte n
each_byte-positive n h = h

-- Records redacted as one stream keep their number and their lengths, and no secret of the redactor
-- stands in the records joined together.
pub redact_segments-clean :
    (secrets : List Bytes) (r : CredentialValueRedactor) (inputs outputs : List Bytes)
    → redactor_new secrets ≡ ok r
    → redact_segments r inputs ≡ ok outputs
    → (map length outputs ≡ map length inputs)
      × All (λ secret. occurs secret (concat outputs) ≡ false) secrets
redact_segments-clean secrets r inputs outputs made redacted =
    let is_redactor = redactor_new-IsRedactor secrets made in
    let batch = redact_segments-IsBatch r is_redactor inputs redacted in
    (
      batch.lengths,
      All-secrets (λ secret. occurs secret (concat outputs) ≡ false) secrets made
          (λ pattern found.
            Scrubbed-clean r each_byte is_redactor each_byte-positive pattern found batch.scrubbed),
    )
