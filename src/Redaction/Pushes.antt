-- ===== src/Redaction/Pushes.antt =====
-- A whole stream of the streaming redactor of
-- tool-runtime-core/src/credential_materialization.rs.
use magic_run.Prelude.{
  ◌+◌, ◌≡◌, sym, ap, ◌∙◌, subst, Bool, true, false, List, [], ◌∷◌, ◌++◌, arith, ok, length, concat,
  Bool-cases, inl, inr,
}
use mathlib.Core.List.{append_assoc, append-nil}
use magic_run.Redaction.Redactor.{Bytes, CredentialValueRedactor}
use magic_run.Redaction.Scan.{◌>>=◌, has_patterns, max_redaction_input_bytes}
use magic_run.Redaction.Streaming.{
  CredentialStreamingRedactor, Drained, drain_stable, push, push_all, max_pattern_len,
}
use magic_run.Redaction.Match.{IsRedactor}
use magic_run.Redaction.Scrub.{Scrubbed, copied}
use magic_run.Redaction.Redacted.{outcome_inversion, nothing_stands, has_patterns-false}
use magic_run.Redaction.Records.{each_byte}
use magic_run.Redaction.Stream.{Streams, drain_loop-Adds}

module _ (r : CredentialValueRedactor) where
  -- Without patterns nothing is pending.
  abbrev pub IsStream : CredentialStreamingRedactor → Type 0
  IsStream s = has_patterns r.patterns ≡ false → s.pending ≡ []

  idle_copies :
      r.patterns ≡ []
      → (input future out : Bytes) → Scrubbed r each_byte future out
      → Scrubbed r each_byte (input ++ future) (input ++ out)
  idle_copies e [] future out s = s
  idle_copies e (c ∷ input) future out s =
      copied (λ pattern found. absurd (nothing_stands r each_byte e pattern found))
        (idle_copies e input future out s)

  idle_Streams : r.patterns ≡ [] → (input : Bytes) → Streams r ([] ++ input) input []
  idle_Streams e input future out s = idle_copies e input future out s

  -- One push after the other.
  Streams-chain :
      (pending input given between later rest last : Bytes)
      → Streams r (pending ++ input) given between
      → Streams r (between ++ later) rest last
      → Streams r (pending ++ (input ++ later)) (given ++ rest) last
  Streams-chain pending input given between later rest last one two future out s =
      let after =
        subst (λ l. Scrubbed r each_byte l (rest ++ out)) (append_assoc between later future)
          (two future out s) in
      let whole = one (later ++ future) (rest ++ out) after in
      let input_same : (pending ++ input) ++ (later ++ future)
          ≡ (pending ++ (input ++ later)) ++ future =
        sym (append_assoc (pending ++ input) later future)
        ∙ ap (λ l. l ++ future) (append_assoc pending input later) in
      subst (λ l. Scrubbed r each_byte l ((given ++ rest) ++ out)) input_same
        (subst (Scrubbed r each_byte ((pending ++ input) ++ (later ++ future)))
          (sym (append_assoc given rest out)) whole)

  module _ (made : IsRedactor r) where
    drain_stable-Streams :
        (s : CredentialStreamingRedactor) (drained : Drained)
        → drain_stable r s false ≡ ok drained
        → Streams r s.pending drained.0 drained.1.pending
    unfolding drain_stable
    drain_stable-Streams s drained h =
        let a =
          drain_loop-Adds r made (max_redaction_input_bytes + max_pattern_len r.patterns)
            (length s.pending + 1) [] s.pending s.compared_bytes drained h in
        subst (λ g. Streams r s.pending g drained.1.pending) a.joined a.streams

    push-Streams :
        (s : CredentialStreamingRedactor) (input : Bytes) (pushed : Drained)
        → IsStream s
        → push r s input ≡ ok pushed
        → IsStream pushed.1 × Streams r (s.pending ++ input) pushed.0 pushed.1.pending
    unfolding push
    push-Streams s input pushed idle h = elim (Bool-cases (has_patterns r.patterns)) [
      | inl some_pattern ↦
          let run : drain_stable r
                (record { pending = s.pending ++ input; compared_bytes = s.compared_bytes }) false
              ≡ ok pushed =
            ground arith in
          (
            λ no_pattern. absurd (clash some_pattern no_pattern),
            drain_stable-Streams
                (record { pending = s.pending ++ input; compared_bytes = s.compared_bytes }) pushed
                run,
          )
      | inr no_pattern ↦
          let same : ◌≡◌ {A = Drained} (input, s) pushed = ground arith in
          subst (λ d. IsStream d.1 × Streams r (s.pending ++ input) d.0 d.1.pending) same
            (
              idle,
              subst (λ p. Streams r (p ++ input) input p) (sym (idle no_pattern))
                  (idle_Streams (has_patterns-false r.patterns no_pattern) input),
            )
    ]
      where
        clash : {b : Bool} → b ≡ true → b ≡ false → ⊥
        clash {b} x y = cc

    pub push_all-Streams :
        (s : CredentialStreamingRedactor) (inputs outputs : List Bytes)
        (last : CredentialStreamingRedactor)
        → IsStream s
        → push_all r s inputs ≡ ok (outputs, last)
        → Streams r (s.pending ++ concat inputs) (concat outputs) last.pending
    unfolding push_all
    push_all-Streams s [] outputs last idle h =
        let given : [] ≡ outputs = cc in
        let state : s ≡ last = cc in
        subst (λ l. Streams r (s.pending ++ []) (concat l) last.pending) given
          (subst (λ l. Streams r (s.pending ++ []) [] l.pending) state
            (subst (λ l. Streams r l [] s.pending) (sym (append-nil s.pending))
              (λ future out t. t)))
    push_all-Streams s (input ∷ inputs) outputs last idle h =
        let (pushed, one, h1) =
          outcome_inversion (push r s input)
            (λ pushed. push_all r pushed.1 inputs >>= λ later. ok (pushed.0 ∷ later.0, later.1))
            h in
        let (later, two, h2) =
          outcome_inversion (push_all r pushed.1 inputs) (λ later. ok (pushed.0 ∷ later.0, later.1))
            h1 in
        let (idle1, first) = push-Streams s input pushed idle one in
        let rest = push_all-Streams pushed.1 inputs later.0 later.1 idle1 two in
        let given : pushed.0 ∷ later.0 ≡ outputs = cc in
        let state : later.1 ≡ last = cc in
        subst (λ l. Streams r (s.pending ++ concat (input ∷ inputs)) (concat l) last.pending) given
          (subst
            (λ l.
              Streams r (s.pending ++ concat (input ∷ inputs)) (concat (pushed.0 ∷ later.0))
                l.pending)
            state
            (Streams-chain s.pending input pushed.0 pushed.1.pending (concat inputs)
              (concat later.0) later.1.pending first rest))
