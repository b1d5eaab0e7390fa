-- ===== src/Redaction/Pushing.antt =====
-- How a push of the streaming redactor of tool-runtime-core/src/credential_materialization.rs ends.
use magic_run.Prelude.{
  ◌+◌, ◌≡◌, ◌≤◌, false, not, List, [], ◌++◌, arith, ok, err, ◌⊎◌, length, length-append, ltb,
  if◌then◌else◌,
}
use magic_run.Redaction.Errors.{redaction_work_limit_exceeded, redaction_input_too_large}
use magic_run.Redaction.Redactor.{Bytes, CredentialValueRedactor, redactor_new}
use magic_run.Redaction.Scan.{failed, has_patterns, max_redaction_input_bytes}
use magic_run.Redaction.Streaming.{
  CredentialStreamingRedactor, max_pattern_len, Drained, drain_stable, push,
}
use magic_run.Redaction.Match.{IsRedactor}
use magic_run.Redaction.Made.{redactor_new-IsRedactor}
use magic_run.Redaction.Limits.{Works, Works-if, Works-either}
use magic_run.Redaction.Flow.{drain_loop-Works}

module _ (r : CredentialValueRedactor) (made : IsRedactor r) where
  drain_stable-Works :
      (s : CredentialStreamingRedactor)
      → length s.pending ≤ max_redaction_input_bytes + max_pattern_len r.patterns
      → Works (drain_stable r s false)
  unfolding drain_stable
  drain_stable-Works s fits =
      drain_loop-Works r made (length s.pending + 1)
        (max_redaction_input_bytes + max_pattern_len r.patterns) [] s.pending s.compared_bytes
        (omega arith) (omega arith)

  push-Works :
      (s : CredentialStreamingRedactor) (input : Bytes)
      → length s.pending + length input ≤ max_redaction_input_bytes
      → Works (push r s input)
  unfolding push
  push-Works s input fits =
      let next : CredentialStreamingRedactor = record {
        pending = s.pending ++ input;
        compared_bytes = s.compared_bytes;
      } in
      let maximum = if ltb (max_pattern_len r.patterns) 1 then 1 else max_pattern_len r.patterns in
      let total = length-append s.pending input in
      let small : ltb max_redaction_input_bytes (length input) ≡ false = ground arith in
      let within : ltb (max_redaction_input_bytes + maximum) (length s.pending + length input)
          ≡ false =
        ground arith in
      Works-if (not (has_patterns r.patterns))
        (if ltb max_redaction_input_bytes (length input)
          then err (failed redaction_input_too_large)
          else ok (input, s))
        (if ltb (max_redaction_input_bytes + maximum) (length s.pending + length input)
          then err (failed redaction_input_too_large)
          else drain_stable r next false)
        (rw small tt) (rw within (drain_stable-Works next (omega arith)))

-- A push ends with what it gives out, or with the error that the budget of comparisons is spent,
-- and with no other, where what is pending and the input are together at most 1 MiB.
pub push-total :
    (secrets : List Bytes) (r : CredentialValueRedactor) (s : CredentialStreamingRedactor)
    (input : Bytes)
    → redactor_new secrets ≡ ok r
    → length s.pending + length input ≤ max_redaction_input_bytes
    → ((pushed : Drained) × (push r s input ≡ ok pushed))
      ⊎ (push r s input ≡ err (failed redaction_work_limit_exceeded))
push-total secrets r s input built fits =
    Works-either (push r s input)
      (push-Works r (redactor_new-IsRedactor secrets built) s input fits)
