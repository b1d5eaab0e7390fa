-- ===== src/Redaction/Clean.antt =====
-- What a redaction of tool-runtime-core/src/credential_materialization.rs leaves.
use magic_run.Prelude.{ℕ, ◌≡◌, ◌<◌, false, List, ok, arith, All}
use magic_run.Redaction.Redactor.{Bytes, CredentialValueRedactor, redactor_new}
use magic_run.Redaction.Scan.{redact_with_limits}
use magic_run.Redaction.Made.{redactor_new-IsRedactor, All-secrets}
use magic_run.Redaction.Scrub.{occurs, Scrubbed-clean}
use magic_run.Redaction.Redacted.{one_mark, redact_with_limits-Scrubbed}

one_mark-positive : (n : ℕ) → 0 < n → 0 < one_mark n
one_mark-positive n h = omega arith

-- No secret of a redactor stands in a redacted buffer, within any limits.
pub redact-clean :
    (secrets : List Bytes) (r : CredentialValueRedactor) (input output : Bytes)
    (max_input max_output : ℕ)
    → redactor_new secrets ≡ ok r
    → redact_with_limits r input max_input max_output ≡ ok output
    → All (λ secret. occurs secret output ≡ false) secrets
redact-clean secrets r input output max_input max_output made done =
    let is_redactor = redactor_new-IsRedactor secrets made in
    let scrubbed = redact_with_limits-Scrubbed r is_redactor max_output input max_input done in
    All-secrets (λ secret. occurs secret output ≡ false) secrets made
      (λ pattern found.
        Scrubbed-clean r one_mark is_redactor one_mark-positive pattern found scrubbed)
