-- ===== src/Redaction/Flow.antt =====
-- When a push of the streaming redactor of tool-runtime-core/src/credential_materialization.rs
-- succeeds.
use magic_run.Prelude.{
  ℕ, zero, suc, ◌+◌, ◌*◌, ◌≡◌, ◌<◌, ◌≤◌, refl, sym, ap, ◌∙◌, subst, Bool, true, false, not, ◌||◌,
  List, [], ◌∷◌, ◌++◌, arith, ok, err, All, length, length-append, ltb, take, drop, get_elem?,
  replicate, holds, Text-discrete, if◌then◌else◌,
}
use magic_run.Redaction.Errors.{redaction_work_limit_exceeded}
use magic_run.Redaction.Redactor.{
  Bytes, CredentialPatternPrefix, CredentialValueRedactor, max_redaction_comparison_bytes,
}
use magic_run.Redaction.Scan.{Outcome, failed, ◌>>=◌, candidates, append_bounded_to, has_patterns}
use magic_run.Redaction.Streaming.{
  Evaluation, StreamingDecision, wait, emit_one, redact, min, longer, evaluate_streaming_pattern,
  evaluate_entry, evaluate_entries, evaluate_streaming_key, evaluate_first, starts_at,
  evaluate_here, decide, nothing_yet, next_decision, Drained, drain_step, drain_loop,
}
use magic_run.Redaction.Match.{IsRedactor, Stands}
use magic_run.Redaction.Scrub.{length_pattern, starts_with-drop}
use magic_run.Redaction.Limits.{Works, Works-bind, Works-if, InRange, candidates-InRange}
use magic_run.Redaction.Total.{append_bounded_to-Works, append_bounded_to-length}
use magic_run.Redaction.Choose.{Decides, next_decision-Decides}

tests-Works :
    (over differs short : Bool) (x y z : Evaluation)
    → Works {A = Evaluation} (
        if over
        then err (failed redaction_work_limit_exceeded)
        else if differs
        then ok x
        else if short
        then ok y
        else ok z)
tests-Works true differs short x y z = refl
tests-Works false true short x y z = tt
tests-Works false false true x y z = tt
tests-Works false false false x y z = tt

evaluate-Works :
    (pattern pending : Bytes) (final_input : Bool) (e : Evaluation)
    → Works (evaluate_streaming_pattern pattern pending final_input e)
unfolding evaluate_streaming_pattern
evaluate-Works pattern pending final_input e =
    let n = min (length pattern) (length pending) in
    let spent = e.compared + n in
    tests-Works (ltb max_redaction_comparison_bytes spent)
      (not (holds (Text-discrete (take n pattern) (take n pending))))
      (ltb (length pending) (length pattern))
      (record { compared = spent; longest_exact = e.longest_exact; needs_more = e.needs_more })
      (record {
        compared = spent;
        longest_exact = e.longest_exact;
        needs_more = not final_input || e.needs_more;
      })
      (record {
        compared = spent;
        longest_exact = longer e.longest_exact (length pattern);
        needs_more = e.needs_more;
      })

evaluate_entries-Works :
    (patterns : List Bytes) (entries : List CredentialPatternPrefix) (pending : Bytes)
    (final_input : Bool) (e : Evaluation)
    → All (InRange patterns) entries
    → Works (evaluate_entries patterns entries pending final_input e)
unfolding evaluate_entries
evaluate_entries-Works patterns [] pending final_input e h = tt
evaluate_entries-Works patterns (entry ∷ entries) pending final_input e ((pattern, found), h) =
    Works-bind (evaluate_entry (get_elem? patterns entry.pattern_index) pending final_input e)
      (evaluate_entries patterns entries pending final_input)
      (subst (λ o. Works (evaluate_entry o pending final_input e)) (sym found)
        (evaluate-Works pattern pending final_input e))
      (λ next _. evaluate_entries-Works patterns entries pending final_input next h)

evaluate_first-Works :
    (first : ℕ) (patterns : List Bytes) (pending : Bytes) (final_input : Bool) (e : Evaluation)
    → Works (evaluate_first first patterns pending final_input e)
unfolding evaluate_first
evaluate_first-Works first [] pending final_input e = tt
evaluate_first-Works first (pattern ∷ patterns) pending final_input e =
    Works-bind
      (if starts_at first pattern
        then evaluate_streaming_pattern pattern pending final_input e
        else ok e)
      (evaluate_first first patterns pending final_input)
      (Works-if (starts_at first pattern) (evaluate_streaming_pattern pattern pending final_input e)
        (ok e) (evaluate-Works pattern pending final_input e) tt)
      (λ next _. evaluate_first-Works first patterns pending final_input next)

module _ (r : CredentialValueRedactor) (made : IsRedactor r) where
  evaluate_streaming_key-Works :
      (key : ℕ) (pending : Bytes) (final_input : Bool) (e : Evaluation)
      → Works (evaluate_streaming_key r key pending final_input e)
  unfolding evaluate_streaming_key
  evaluate_streaming_key-Works key pending final_input e =
      evaluate_entries-Works r.patterns (candidates key r.prefixes) pending final_input e
        (candidates-InRange r made key)

  evaluate_here-Works :
      (pending : Bytes) (final_input : Bool) (e : Evaluation)
      → Works (evaluate_here r pending final_input e)
  unfolding evaluate_here
  evaluate_here-Works [] final_input e = tt
  evaluate_here-Works (a ∷ []) final_input e =
      evaluate_first-Works a r.patterns (a ∷ []) final_input e
  evaluate_here-Works (a ∷ b ∷ rest) final_input e =
      Works-bind (evaluate_streaming_key r (256 + a * 256 + b) (a ∷ b ∷ rest) final_input e)
        (evaluate_streaming_key r a (a ∷ b ∷ rest) final_input)
        (evaluate_streaming_key-Works (256 + a * 256 + b) (a ∷ b ∷ rest) final_input e)
        (λ next _. evaluate_streaming_key-Works a (a ∷ b ∷ rest) final_input next)

  next_decision-Works :
      (pending : Bytes) (final_input : Bool) (compared : ℕ)
      → Works (next_decision r pending final_input compared)
  unfolding next_decision
  next_decision-Works [] final_input compared = tt
  next_decision-Works (c ∷ rest) final_input compared =
      Works-if (not (has_patterns r.patterns)) (ok (emit_one, compared))
        (evaluate_here r (c ∷ rest) final_input (nothing_yet compared) >>= decide final_input) tt
        (Works-bind (evaluate_here r (c ∷ rest) final_input (nothing_yet compared))
          (decide final_input) (evaluate_here-Works (c ∷ rest) final_input (nothing_yet compared))
          (λ e _. tt))

  -- A match is not empty, and what is left behind it is shorter by its length.
  Stands-length :
      (input : Bytes) (n : ℕ)
      → Stands r input n
      → (0 < n) × (n + length (drop n input) ≡ length input)
  Stands-length input n (pattern, found, stands, same) =
      let whole =
        ap length (starts_with-drop pattern input stands)
        ∙ length-append pattern (drop (length pattern) input) in
      subst (λ m. (0 < m) × (m + length (drop m input) ≡ length input)) (sym same)
        (length_pattern r made pattern found, sym whole)

  length-replicate : (n c : ℕ) → length (replicate n c) ≡ n
  length-replicate zero c = refl
  length-replicate (suc n) c = let rest = length-replicate n c in omega arith

  drain_step-Works :
      (max_output c : ℕ) (rest output : Bytes) (again : Bytes → Bytes → ℕ → Outcome Drained)
      (decision : StreamingDecision) (compared : ℕ)
      → Decides r (c ∷ rest) decision
      → length output + length (c ∷ rest) ≤ max_output
      → ((next left : Bytes) (spent : ℕ)
          → length left ≤ length rest
          → length next + length left ≤ max_output
          → Works (again next left spent))
      → Works (drain_step r max_output c rest output again (decision, compared))
  unfolding drain_step
  drain_step-Works max_output c rest output again wait compared says fits w = tt
  drain_step-Works max_output c rest output again emit_one compared says fits w =
      Works-bind (append_bounded_to output (c ∷ []) max_output) (λ next. again next rest compared)
        (append_bounded_to-Works output (c ∷ []) max_output (omega arith))
        (λ next appended.
          let longer = append_bounded_to-length output (c ∷ []) max_output appended in
          w next rest compared (omega arith) (omega arith))
  drain_step-Works max_output c rest output again (redact n) compared says fits w =
      let (positive, whole) = Stands-length (c ∷ rest) n says in
      let room : ltb max_output (length output + n) ≡ false = ground arith in
      let marks = length-replicate n r.replacement in
      let longer = length-append output (replicate n r.replacement) in
      rw room (
        w (output ++ replicate n r.replacement) (drop n (c ∷ rest)) compared (omega arith)
          (omega arith))

  pub drain_loop-Works :
      (fuel max_output : ℕ) (output pending : Bytes) (compared : ℕ)
      → length pending < fuel
      → length output + length pending ≤ max_output
      → Works (drain_loop fuel r max_output false output pending compared)
  unfolding drain_loop
  drain_loop-Works fuel max_output output [] compared enough fits = tt
  drain_loop-Works zero max_output output (c ∷ rest) compared enough fits = absurd (omega arith)
  drain_loop-Works (suc fuel) max_output output (c ∷ rest) compared enough fits =
      Works-bind (next_decision r (c ∷ rest) false compared)
        (drain_step r max_output c rest output (drain_loop fuel r max_output false))
        (next_decision-Works (c ∷ rest) false compared)
        (λ value decided.
          let (decision, spent) = value in
          drain_step-Works max_output c rest output (drain_loop fuel r max_output false) decision
            spent (next_decision-Decides r made c rest compared spent decision decided) fits
            (λ next left c' shorter small.
              drain_loop-Works fuel max_output next left c' (omega arith) small))
