-- ===== src/Redaction/Stream.antt =====
-- What the pushes of the streaming redactor of
-- tool-runtime-core/src/credential_materialization.rs give out.
use magic_run.Prelude.{
  ℕ, zero, suc, ◌≡◌, sym, ap, ◌∙◌, subst, false, [], ◌∷◌, ◌++◌, arith, ok, drop, replicate,
  ok-injective,
}
use mathlib.Core.List.{append_assoc, append-nil}
use magic_run.Redaction.Redactor.{Bytes, CredentialValueRedactor}
use magic_run.Redaction.Scan.{Outcome, append_bounded_to}
use magic_run.Redaction.Streaming.{
  StreamingDecision, wait, emit_one, redact, next_decision, Drained, drain_step, drain_loop,
}
use magic_run.Redaction.Match.{IsRedactor, IsClear, Stands}
use magic_run.Redaction.Scrub.{Scrubbed, copied, hidden, starts_with-drop}
use magic_run.Redaction.Redacted.{outcome_inversion, append_bounded_to-ok}
use magic_run.Redaction.Records.{each_byte}
use magic_run.Redaction.Choose.{Decides, next_decision-Decides}

module _ (r : CredentialValueRedactor) where
  -- Whatever comes after the input, its redaction begins with what was given out, and goes on with
  -- the redaction of what is pending.
  abbrev pub Streams : Bytes → Bytes → Bytes → Type 0
  Streams input given pending =
      (future out : Bytes)
      → Scrubbed r each_byte (pending ++ future) out
      → Scrubbed r each_byte (input ++ future) (given ++ out)

  -- The drain gives out more after what it was started with.
  pub record Adds (pending output : Bytes) (drained : Drained) : Type 0 where
    pub given : Bytes
    pub joined : output ++ given ≡ drained.0
    pub streams : Streams pending given drained.1.pending

  Adds-emitted :
      (c : ℕ) (rest output next : Bytes) (drained : Drained)
      → output ++ (c ∷ []) ≡ next
      → ((future : Bytes) → IsClear r ((c ∷ rest) ++ future))
      → Adds rest next drained
      → Adds (c ∷ rest) output drained
  Adds-emitted c rest output next drained same clear a = record {
    given = c ∷ a.given;
    joined = sym (append_assoc output (c ∷ []) a.given) ∙ ap (λ l. l ++ a.given) same ∙ a.joined;
    streams = λ future out s. copied (clear future) (a.streams future out s);
  }

  Adds-redacted :
      (input output : Bytes) (n : ℕ) (drained : Drained)
      → Stands r input n
      → Adds (drop n input) (output ++ replicate n r.replacement) drained
      → Adds input output drained
  Adds-redacted input output n drained (pattern, found, stands, same) a = record {
    given = replicate n r.replacement ++ a.given;
    joined = sym (append_assoc output (replicate n r.replacement) a.given) ∙ a.joined;
    streams = λ future out s.
        hidden pattern (drop n input ++ future) (a.given ++ out) found
          (ap (λ l. l ++ future)
              (starts_with-drop pattern input stands ∙ ap (λ m. pattern ++ drop m input) (sym same))
            ∙ append_assoc pattern (drop n input) future)
          (append_assoc (replicate n r.replacement) a.given out
            ∙ ap (λ m. replicate m r.replacement ++ (a.given ++ out)) same)
          (a.streams future out s);
  }

  module _ (made : IsRedactor r) (max_output : ℕ) where
    drain_step-Adds :
        (c : ℕ) (rest output : Bytes) (again : Bytes → Bytes → ℕ → Outcome Drained)
        (decision : StreamingDecision) (compared : ℕ) (drained : Drained)
        → Decides r (c ∷ rest) decision
        → ((next left : Bytes) (spent : ℕ)
            → again next left spent ≡ ok drained
            → Adds left next drained)
        → drain_step r max_output c rest output again (decision, compared) ≡ ok drained
        → Adds (c ∷ rest) output drained
    unfolding drain_step
    drain_step-Adds c rest output again wait compared drained says later h =
        subst (Adds (c ∷ rest) output) (ok-injective h)
          (record { given = []; joined = append-nil output; streams = λ future out s. s })
    drain_step-Adds c rest output again emit_one compared drained says later h =
        let (next, one, two) =
          outcome_inversion (append_bounded_to output (c ∷ []) max_output)
            (λ next. again next rest compared) h in
        Adds-emitted c rest output next drained
          (append_bounded_to-ok output (c ∷ []) max_output one) says (later next rest compared two)
    drain_step-Adds c rest output again (redact n) compared drained says later h =
        Adds-redacted (c ∷ rest) output n drained says (
          later (output ++ replicate n r.replacement) (drop n (c ∷ rest)) compared (ground (arith)))

    pub drain_loop-Adds :
        (fuel : ℕ) (output pending : Bytes) (compared : ℕ) (drained : Drained)
        → drain_loop fuel r max_output false output pending compared ≡ ok drained
        → Adds pending output drained
    unfolding drain_loop
    drain_loop-Adds fuel output [] compared drained h =
        subst (Adds [] output) (ok-injective h)
          (record { given = []; joined = append-nil output; streams = λ future out s. s })
    drain_loop-Adds zero output (c ∷ rest) compared drained h = cc
    drain_loop-Adds (suc fuel) output (c ∷ rest) compared drained h =
        let ((decision, spent), one, two) =
          outcome_inversion (next_decision r (c ∷ rest) false compared)
            (drain_step r max_output c rest output (drain_loop fuel r max_output false)) h in
        drain_step-Adds c rest output (drain_loop fuel r max_output false) decision spent drained
          (next_decision-Decides r made c rest compared spent decision one)
          (λ next left c'. drain_loop-Adds fuel next left c' drained) two
