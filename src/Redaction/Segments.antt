-- ===== src/Redaction/Segments.antt =====
-- `redact_segments` of tool-runtime-core/src/credential_materialization.rs: several records
-- redacted as one stream of bytes and split at their old bounds.
use magic_run.Prelude.{
  ℕ, zero, suc, ◌+◌, none, some, List, [], ◌∷◌, ◌++◌, ok, err, ltb, length, take, drop, replicate,
  if◌then◌else◌,
}
use magic_run.Redaction.Errors.{redaction_output_too_large}
use magic_run.Redaction.Redactor.{Bytes, CredentialValueRedactor}
use magic_run.Redaction.Scan.{
  Outcome, Found, failed, out_of_fuel, ◌>>=◌, find_next, append_bounded_to, has_patterns,
  max_redaction_output_bytes,
}

abbrev pub append_bounded : Bytes → Bytes → Outcome Bytes
append_bounded output bytes = append_bounded_to output bytes max_redaction_output_bytes

unfoldable pub check_total : ℕ → List Bytes → Outcome ℕ
check_total total [] = ok total
check_total total (input ∷ inputs) =
    let rest = check_total (total + length input) inputs in
    if ltb max_redaction_output_bytes (total + length input)
    then err (failed redaction_output_too_large)
    else rest

unfoldable pub append_all : Bytes → List Bytes → Outcome Bytes
append_all current [] = ok current
append_all current (input ∷ inputs) =
    append_bounded current input >>= λ next. append_all next inputs

-- A match is filled in place, and the scan goes on behind it.
abbrev pub fill_stage :
    CredentialValueRedactor → Bytes → (Bytes → ℕ → Outcome Bytes) → Found × ℕ → Outcome Bytes
fill_stage r current again (none, compared) = ok current
fill_stage r current again (some (before, n, after), compared) =
    again after compared >>= λ rest. ok (before ++ (replicate n r.replacement ++ rest))

unfoldable pub fill_loop : ℕ → CredentialValueRedactor → Bytes → ℕ → Outcome Bytes
fill_loop zero r current compared = err out_of_fuel
fill_loop (suc fuel) r current compared =
    find_next r current compared >>= fill_stage r current (fill_loop fuel r)

unfoldable pub split_redacted_segments : Bytes → List Bytes → Outcome (List Bytes)
split_redacted_segments [] [] = ok []
split_redacted_segments (c ∷ rest) [] = err (failed redaction_output_too_large)
split_redacted_segments combined (input ∷ inputs) =
    let later = split_redacted_segments (drop (length input) combined) inputs in
    if ltb (length combined) (length input)
    then err (failed redaction_output_too_large)
    else (later >>= λ outputs. ok (take (length input) combined ∷ outputs))

unfoldable pub redact_segments : CredentialValueRedactor → List Bytes → Outcome (List Bytes)
redact_segments r inputs = check_total 0 inputs >>= λ total.
    if has_patterns r.patterns
    then (append_all [] inputs >>= λ current.
        fill_loop (length current + 1) r current 0 >>= λ filled.
        split_redacted_segments filled inputs)
    else ok inputs
