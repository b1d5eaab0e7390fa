-- ===== src/Tests/Redaction.antt =====
-- Runs of the redaction of tool-runtime-core/src/credential_materialization.rs.
use magic_run.Prelude.{
  ◌≡◌, ◌*◌, ◌⊎◌, ◌+◌, refl, false, some, List, [], ◌∷◌, ok, err, codes, Text-discrete, arith, All,
  concat, length, map,
}
use magic_run.Prelude.Sorting.{sort, insert_sorted}
use magic_run.Redaction.Errors.{redaction_work_limit_exceeded}
use magic_run.Redaction.Redactor.{
  Bytes, CredentialValueRedactor, bytes_le, pattern_le, dedup, total_bytes, marker_candidates,
  is_absent, credential_pattern_prefix, enumerate, prefix_le, redactor_new,
}
use magic_run.Redaction.Scan.{
  failed, starts_with, candidates, try_entry, match_entries, match_at_key, match_two, match_one,
  match_here, find_next, append_bounded_to, copy_stage, redact_loop, redact_with_limits, redact,
}
use magic_run.Redaction.Segments.{
  check_total, append_all, fill_loop, split_redacted_segments, redact_segments,
}
use magic_run.Redaction.Streaming.{
  CredentialStreamingRedactor, max_pattern_len, min, evaluate_streaming_pattern, evaluate_entries,
  evaluate_streaming_key, evaluate_first, evaluate_here, next_decision, drain_step, drain_loop,
  drain_stable, push, Drained, streaming, push_all,
}
use magic_run.Redaction.Scrub.{occurs}
use magic_run.Redaction.Clean.{redact-clean}
use magic_run.Redaction.Total.{redact-total}
use magic_run.Redaction.Records.{redact_segments-clean}
use magic_run.Redaction.Batches.{redact_segments-total}
use magic_run.Redaction.Pushing.{push-total}
use magic_run.Redaction.Reference.{longest_standing, match_here-longest_standing}
use magic_run.Redaction.Streamed.{push_all-clean}

abbrev secrets : List Bytes
secrets = codes "to" ∷ codes "token" ∷ codes "x" ∷ codes "to" ∷ []

abbrev redactor : CredentialValueRedactor
redactor = record {
  patterns = codes "token" ∷ codes "to" ∷ codes "x" ∷ [];
  prefixes =
      record { key = 120; pattern_index = 2 }
      ∷ record { key = 256 + 116 * 256 + 111; pattern_index = 0 }
      ∷ record { key = 256 + 116 * 256 + 111; pattern_index = 1 }
      ∷ [];
  replacement = 42;
}

built : redactor_new secrets ≡ ok redactor
unfolding Text-discrete redactor_new sort insert_sorted pattern_le bytes_le dedup total_bytes
    marker_candidates is_absent credential_pattern_prefix enumerate prefix_le
built = refl

redacted : redact_with_limits redactor (codes "a token, a tx") 100 100 ≡ ok (codes "a *, a t*")
unfolding starts_with candidates try_entry match_entries match_at_key match_two match_one match_here
    find_next append_bounded_to copy_stage redact_loop redact_with_limits
redacted = refl

redact-clean_example : All (λ secret. occurs secret (codes "a *, a t*") ≡ false) secrets
redact-clean_example =
    redact-clean secrets redactor (codes "a token, a tx") (codes "a *, a t*") 100 100 built redacted

redact-total_example :
    ((output : Bytes) × (redact redactor (codes "token") ≡ ok output))
    ⊎ (redact redactor (codes "token") ≡ err (failed redaction_work_limit_exceeded))
redact-total_example = redact-total secrets redactor (codes "token") built (omega arith)

-- A secret that is split between two records.
segmented :
    redact_segments redactor (codes "a tok" ∷ codes "en" ∷ codes "x" ∷ [])
    ≡ ok (codes "a ***" ∷ codes "**" ∷ codes "*" ∷ [])
unfolding starts_with candidates try_entry match_entries match_at_key match_two match_one match_here
    find_next append_bounded_to check_total append_all fill_loop split_redacted_segments
    redact_segments
segmented = refl

redact_segments-clean_example :
    (map length (codes "a ***" ∷ codes "**" ∷ codes "*" ∷ [])
      ≡ map length (codes "a tok" ∷ codes "en" ∷ codes "x" ∷ []))
    × All
        (λ secret. occurs secret (concat (codes "a ***" ∷ codes "**" ∷ codes "*" ∷ [])) ≡ false)
        secrets
redact_segments-clean_example =
    redact_segments-clean secrets redactor (codes "a tok" ∷ codes "en" ∷ codes "x" ∷ [])
      (codes "a ***" ∷ codes "**" ∷ codes "*" ∷ []) built segmented

abbrev last : CredentialStreamingRedactor
last = record { pending = codes "t"; compared_bytes = 14 }

-- A secret that is split between two chunks.
streamed :
    push_all redactor streaming (codes "a tok" ∷ codes "ent" ∷ [])
    ≡ ok (codes "a " ∷ codes "*****" ∷ [], last)
unfolding Text-discrete max_pattern_len min candidates evaluate_streaming_pattern evaluate_entries
    evaluate_streaming_key evaluate_first evaluate_here next_decision drain_step drain_loop
    drain_stable push push_all append_bounded_to
streamed = refl

push_all-clean_example :
    All (λ secret. occurs secret (concat (codes "a " ∷ codes "*****" ∷ [])) ≡ false) secrets
    × (length (concat (codes "a " ∷ codes "*****" ∷ [])) + length last.pending
        ≡ length (concat (codes "a tok" ∷ codes "ent" ∷ [])))
push_all-clean_example =
    push_all-clean secrets redactor (codes "a tok" ∷ codes "ent" ∷ [])
      (codes "a " ∷ codes "*****" ∷ []) last built streamed

redact_segments-total_example :
    ((outputs : List Bytes) × (redact_segments redactor (codes "a tok" ∷ codes "en" ∷ [])
        ≡ ok outputs))
    ⊎ (redact_segments redactor (codes "a tok" ∷ codes "en" ∷ [])
        ≡ err (failed redaction_work_limit_exceeded))
redact_segments-total_example =
    redact_segments-total secrets redactor (codes "a tok" ∷ codes "en" ∷ []) built (omega arith)

push-total_example :
    ((pushed : Drained) × (push redactor last (codes "oken") ≡ ok pushed))
    ⊎ (push redactor last (codes "oken") ≡ err (failed redaction_work_limit_exceeded))
push-total_example = push-total secrets redactor last (codes "oken") built (omega arith)

-- The longer of two patterns that stand.
matched : match_here redactor 116 (codes "oken") 0 ≡ ok (some 5, 5)
unfolding starts_with candidates try_entry match_entries match_at_key match_two match_one match_here
matched = refl

match_here-longest_standing_example : some 5 ≡ longest_standing redactor.patterns (codes "token")
match_here-longest_standing_example =
    match_here-longest_standing secrets redactor 116 (codes "oken") 0 5 (some 5) built matched
