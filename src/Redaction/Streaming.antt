-- ===== src/Redaction/Streaming.antt =====
-- `CredentialStreamingRedactor` of tool-runtime-core/src/credential_materialization.rs. Its cursor
-- is 0 between two calls, so its state is what is pending and the bytes compared so far.
use magic_run.Prelude.{
  ℕ, zero, suc, ◌+◌, ◌*◌, Bool, false, ◌&&◌, ◌||◌, not, Option, none, some, List, [], ◌∷◌, ◌++◌, ok,
  err, ltb, ◌==◌, length, take, drop, replicate, get_elem?, holds, Text-discrete, if◌then◌else◌,
}
use magic_run.Redaction.Errors.{
  prepared_material_mismatch, redaction_work_limit_exceeded, redaction_input_too_large,
  redaction_output_too_large,
}
use magic_run.Redaction.Redactor.{
  Bytes, CredentialPatternPrefix, CredentialValueRedactor, max_redaction_comparison_bytes,
}
use magic_run.Redaction.Scan.{
  Outcome, failed, out_of_fuel, ◌>>=◌, candidates, append_bounded_to, has_patterns,
  max_redaction_input_bytes,
}

pub record CredentialStreamingRedactor : Type 0 where
  pub pending : Bytes
  pub compared_bytes : ℕ

pub data StreamingDecision : Type 0 where
  wait : StreamingDecision
  emit_one : StreamingDecision
  redact : ℕ → StreamingDecision

-- What the tests of the patterns at one position have found out.
pub record Evaluation : Type 0 where
  pub compared : ℕ
  pub longest_exact : Option ℕ
  pub needs_more : Bool

unfoldable pub max_pattern_len : List Bytes → ℕ
max_pattern_len [] = 0
max_pattern_len (pattern ∷ rest) = length pattern

unfoldable pub min : ℕ → ℕ → ℕ
min a b = if ltb b a then b else a

abbrev pub longer : Option ℕ → ℕ → Option ℕ
longer none n = some n
longer (some current) n = if ltb current n then some n else some current

unfoldable pub evaluate_streaming_pattern : Bytes → Bytes → Bool → Evaluation → Outcome Evaluation
evaluate_streaming_pattern pattern pending final_input e =
    let n = min (length pattern) (length pending) in
    let spent = e.compared + n in
    if ltb max_redaction_comparison_bytes spent
    then err (failed redaction_work_limit_exceeded)
    else if not (holds (Text-discrete (take n pattern) (take n pending)))
    then ok
        (record { compared = spent; longest_exact = e.longest_exact; needs_more = e.needs_more })
    else if ltb (length pending) (length pattern)
    then ok (record {
      compared = spent;
      longest_exact = e.longest_exact;
      needs_more = not final_input || e.needs_more;
    })
    else ok (record {
      compared = spent;
      longest_exact = longer e.longest_exact (length pattern);
      needs_more = e.needs_more;
    })

abbrev pub evaluate_entry : Option Bytes → Bytes → Bool → Evaluation → Outcome Evaluation
evaluate_entry none pending final_input e = err (failed prepared_material_mismatch)
evaluate_entry (some pattern) pending final_input e =
    evaluate_streaming_pattern pattern pending final_input e

unfoldable pub evaluate_entries :
    List Bytes → List CredentialPatternPrefix → Bytes → Bool → Evaluation → Outcome Evaluation
evaluate_entries patterns [] pending final_input e = ok e
evaluate_entries patterns (entry ∷ entries) pending final_input e =
    evaluate_entry (get_elem? patterns entry.pattern_index) pending final_input e
    >>= evaluate_entries patterns entries pending final_input

unfoldable pub evaluate_streaming_key :
    CredentialValueRedactor → ℕ → Bytes → Bool → Evaluation → Outcome Evaluation
evaluate_streaming_key r key pending final_input =
    evaluate_entries r.patterns (candidates key r.prefixes) pending final_input

abbrev pub starts_at : ℕ → Bytes → Bool
starts_at first [] = false
starts_at first (a ∷ pattern) = a == first

-- One pending byte: every pattern that starts with it.
unfoldable pub evaluate_first : ℕ → List Bytes → Bytes → Bool → Evaluation → Outcome Evaluation
evaluate_first first [] pending final_input e = ok e
evaluate_first first (pattern ∷ patterns) pending final_input e =
    (if starts_at first pattern
      then evaluate_streaming_pattern pattern pending final_input e
      else ok e)
    >>= evaluate_first first patterns pending final_input

abbrev pub decided : Bool → Evaluation → StreamingDecision
decided final_input e =
    if e.needs_more && not final_input
    then wait
    else elim e.longest_exact [ none ↦ emit_one | some n ↦ redact n ]

abbrev pub decide : Bool → Evaluation → Outcome (StreamingDecision × ℕ)
decide final_input e = ok (decided final_input e, e.compared)

abbrev pub nothing_yet : ℕ → Evaluation
nothing_yet compared = record { compared = compared; longest_exact = none; needs_more = false }

unfoldable pub evaluate_here :
    CredentialValueRedactor → Bytes → Bool → Evaluation → Outcome Evaluation
evaluate_here r [] final_input e = ok e
evaluate_here r (a ∷ []) final_input e = evaluate_first a r.patterns (a ∷ []) final_input e
evaluate_here r (a ∷ b ∷ rest) final_input e =
    evaluate_streaming_key r (256 + a * 256 + b) (a ∷ b ∷ rest) final_input e
    >>= evaluate_streaming_key r a (a ∷ b ∷ rest) final_input

unfoldable pub next_decision :
    CredentialValueRedactor → Bytes → Bool → ℕ → Outcome (StreamingDecision × ℕ)
next_decision r [] final_input compared = ok (wait, compared)
next_decision r (c ∷ rest) final_input compared =
    if not (has_patterns r.patterns)
    then ok (emit_one, compared)
    else (evaluate_here r (c ∷ rest) final_input (nothing_yet compared) >>= decide final_input)

abbrev pub Drained : Type 0
Drained = Bytes × CredentialStreamingRedactor

unfoldable pub drain_step :
    CredentialValueRedactor
    → ℕ
    → ℕ
    → Bytes
    → Bytes
    → (Bytes → Bytes → ℕ → Outcome Drained)
    → StreamingDecision × ℕ
    → Outcome Drained
drain_step r max_output c rest output again (wait, compared) =
    ok (output, record { pending = c ∷ rest; compared_bytes = compared })
drain_step r max_output c rest output again (emit_one, compared) =
    append_bounded_to output (c ∷ []) max_output >>= λ next. again next rest compared
drain_step r max_output c rest output again (redact n, compared) =
    if ltb max_output (length output + n)
    then err (failed redaction_output_too_large)
    else again (output ++ replicate n r.replacement) (drop n (c ∷ rest)) compared

unfoldable pub drain_loop :
    ℕ → CredentialValueRedactor → ℕ → Bool → Bytes → Bytes → ℕ → Outcome Drained
drain_loop fuel r max_output final_input output [] compared =
    ok (output, record { pending = []; compared_bytes = compared })
drain_loop zero r max_output final_input output (c ∷ rest) compared = err out_of_fuel
drain_loop (suc fuel) r max_output final_input output (c ∷ rest) compared =
    next_decision r (c ∷ rest) final_input compared
    >>= drain_step r max_output c rest output (drain_loop fuel r max_output final_input)

unfoldable pub drain_stable :
    CredentialValueRedactor → CredentialStreamingRedactor → Bool → Outcome Drained
drain_stable r s final_input =
    drain_loop (length s.pending + 1) r (max_redaction_input_bytes + max_pattern_len r.patterns)
      final_input [] s.pending s.compared_bytes

unfoldable pub push :
    CredentialValueRedactor → CredentialStreamingRedactor → Bytes → Outcome Drained
push r s input =
    if not (has_patterns r.patterns)
    then if ltb max_redaction_input_bytes (length input)
      then err (failed redaction_input_too_large)
      else ok (input, s)
    else (let maximum =
          if ltb (max_pattern_len r.patterns) 1 then 1 else max_pattern_len r.patterns in
        if ltb (max_redaction_input_bytes + maximum) (length s.pending + length input)
        then err (failed redaction_input_too_large)
        else drain_stable r
            (record { pending = s.pending ++ input; compared_bytes = s.compared_bytes }) false)

abbrev pub streaming : CredentialStreamingRedactor
streaming = record { pending = []; compared_bytes = 0 }

-- The chunks one after the other, with what each push gives out.
unfoldable pub push_all :
    CredentialValueRedactor
    → CredentialStreamingRedactor
    → List Bytes
    → Outcome (List Bytes × CredentialStreamingRedactor)
push_all r s [] = ok ([], s)
push_all r s (input ∷ inputs) = push r s input >>= λ pushed.
    push_all r pushed.1 inputs >>= λ later. ok (pushed.0 ∷ later.0, later.1)
