-- ===== src/Redaction/Choose.antt =====
-- The match that the streaming redactor of
-- tool-runtime-core/src/credential_materialization.rs decides on, and its decisions.
use magic_run.Prelude.{
  ℕ, suc, ◌+◌, ◌*◌, ◌≡◌, refl, ap, ◌∙◌, subst, Bool, true, false, Option, none, some, List, [], ◌∷◌,
  ◌++◌, arith, ok, get_elem?, if◌then◌else◌, Bool-cases, inl, inr, ◌⊎◌, ok-injective,
}
use magic_run.Redaction.Redactor.{Bytes, CredentialPatternPrefix, CredentialValueRedactor}
use magic_run.Redaction.Scan.{Outcome, ◌>>=◌, candidates, has_patterns}
use magic_run.Redaction.Streaming.{
  Evaluation, StreamingDecision, wait, emit_one, redact, evaluate_streaming_pattern, evaluate_entry,
  evaluate_entries, evaluate_streaming_key, evaluate_first, starts_at, evaluate_here, decide,
  decided, nothing_yet, next_decision,
}
use magic_run.Redaction.Match.{IsRedactor, IsPattern, IsClear, Stands}
use magic_run.Redaction.Redacted.{outcome_inversion, nothing_stands, has_patterns-false}
use magic_run.Redaction.Evaluate.{NeverStands, evaluate-found}
use magic_run.Redaction.Decide.{evaluate_here-never}

module _ (r : CredentialValueRedactor) (pending : Bytes) where
  -- The length was known before, or a pattern of it stands here.
  abbrev Known : Evaluation → ℕ → Type 0
  Known e n = (e.longest_exact ≡ some n) ⊎ Stands r pending n

  -- A step that finds only what stands.
  abbrev IsSound : (Evaluation → Outcome Evaluation) → Type 0
  IsSound step =
      (e after : Evaluation) (n : ℕ) → step e ≡ ok after → after.longest_exact ≡ some n → Known e n

  IsSound-bind :
      (first second : Evaluation → Outcome Evaluation)
      → IsSound first
      → IsSound second
      → IsSound (λ e. first e >>= second)
  IsSound-bind first second f s e after n h found =
      let (middle, one, two) = outcome_inversion (first e) second h in
      elim (s middle after n two found) [
        | inl before ↦ f e middle n one before
        | inr stands ↦ inr stands
      ]

  IsSound-same : IsSound (λ e. ok e)
  IsSound-same e after n h found = inl (ap (λ x. x.longest_exact) (ok-injective h) ∙ found)

  evaluate-IsSound :
      (pattern : Bytes)
      → IsPattern r pattern
      → IsSound (evaluate_streaming_pattern pattern pending false)
  evaluate-IsSound pattern is_pattern e after n h found =
      elim (evaluate-found pattern pending e after n h found) [
        | inl before ↦ inl before
        | inr (stands, same) ↦ inr (pattern, is_pattern, stands, same)
      ]

  evaluate_entry-IsSound :
      (i : ℕ) (found : Option Bytes)
      → get_elem? r.patterns i ≡ found
      → IsSound (evaluate_entry found pending false)
  evaluate_entry-IsSound i none same = λ e after n h found. cc
  evaluate_entry-IsSound i (some pattern) same = evaluate-IsSound pattern (i, same)

  evaluate_entries-IsSound :
      (entries : List CredentialPatternPrefix)
      → IsSound (evaluate_entries r.patterns entries pending false)
  unfolding evaluate_entries
  evaluate_entries-IsSound [] = IsSound-same
  evaluate_entries-IsSound (entry ∷ entries) =
      IsSound-bind (evaluate_entry (get_elem? r.patterns entry.pattern_index) pending false)
        (evaluate_entries r.patterns entries pending false)
        (evaluate_entry-IsSound entry.pattern_index _ refl) (evaluate_entries-IsSound entries)

  evaluate_streaming_key-IsSound : (key : ℕ) → IsSound (evaluate_streaming_key r key pending false)
  unfolding evaluate_streaming_key
  evaluate_streaming_key-IsSound key = evaluate_entries-IsSound (candidates key r.prefixes)

  by_test-IsSound :
      (t : Bool) (step : Evaluation → Outcome Evaluation)
      → IsSound step
      → IsSound (λ e. if t then step e else ok e)
  by_test-IsSound true step s = s
  by_test-IsSound false step s = IsSound-same

  evaluate_first-IsSound :
      (first : ℕ) (patterns : List Bytes)
      → ((i : ℕ) (p : Bytes) → get_elem? patterns i ≡ some p → IsPattern r p)
      → IsSound (evaluate_first first patterns pending false)
  unfolding evaluate_first
  evaluate_first-IsSound first [] all = IsSound-same
  evaluate_first-IsSound first (p ∷ patterns) all =
      IsSound-bind
        (λ e. if starts_at first p then evaluate_streaming_pattern p pending false e else ok e)
        (evaluate_first first patterns pending false)
        (by_test-IsSound (starts_at first p) (evaluate_streaming_pattern p pending false)
          (evaluate-IsSound p (all 0 p refl)))
        (evaluate_first-IsSound first patterns (λ i q found. all (suc i) q found))

module _ (r : CredentialValueRedactor) where
  evaluate_here-IsSound : (pending : Bytes) → IsSound r pending (evaluate_here r pending false)
  unfolding evaluate_here
  evaluate_here-IsSound [] = IsSound-same r []
  evaluate_here-IsSound (a ∷ []) =
      evaluate_first-IsSound r (a ∷ []) a r.patterns (λ i p found. (i, found))
  evaluate_here-IsSound (a ∷ b ∷ rest) =
      IsSound-bind r (a ∷ b ∷ rest)
        (evaluate_streaming_key r (256 + a * 256 + b) (a ∷ b ∷ rest) false)
        (evaluate_streaming_key r a (a ∷ b ∷ rest) false)
        (evaluate_streaming_key-IsSound r (a ∷ b ∷ rest) (256 + a * 256 + b))
        (evaluate_streaming_key-IsSound r (a ∷ b ∷ rest) a)

  -- What a decision says.
  abbrev pub Decides : Bytes → StreamingDecision → Type 0
  Decides pending wait = Unit
  Decides pending emit_one = (future : Bytes) → IsClear r (pending ++ future)
  Decides pending (redact n) = Stands r pending n

  decided-Decides :
      (pending : Bytes) (more : Bool) (found : Option ℕ) (compared : ℕ)
      → (found ≡ none
          → more ≡ false
          → (pattern : Bytes) → IsPattern r pattern
          → NeverStands pending pattern)
      → ((n : ℕ) → found ≡ some n → Stands r pending n)
      → Decides pending
          (decided false (record { compared = compared; longest_exact = found; needs_more = more }))
  decided-Decides pending true found compared never stands = tt
  decided-Decides pending false none compared never stands =
      λ future pattern is_pattern. never refl refl pattern is_pattern future
  decided-Decides pending false (some n) compared never stands = stands n refl

  module _ (made : IsRedactor r) where
    pub next_decision-Decides :
        (c : ℕ) (rest : Bytes) (compared spent : ℕ) (decision : StreamingDecision)
        → next_decision r (c ∷ rest) false compared ≡ ok (decision, spent)
        → Decides (c ∷ rest) decision
    unfolding next_decision
    next_decision-Decides c rest compared spent decision h =
        elim (Bool-cases (has_patterns r.patterns)) [
          | inl some_pattern ↦
              let run : (evaluate_here r (c ∷ rest) false (nothing_yet compared) >>= decide false)
                  ≡ ok (decision, spent) =
                ground arith in
              let (e, here, last) =
                outcome_inversion (evaluate_here r (c ∷ rest) false (nothing_yet compared))
                  (decide false) run in
              let same : decided false e ≡ decision = cc in
              subst (Decides (c ∷ rest)) same (
                decided-Decides (c ∷ rest) e.needs_more e.longest_exact e.compared
                  (λ unmatched complete.
                    evaluate_here-never r made c rest (nothing_yet compared) e here
                      (record { unmatched = unmatched; complete = complete }))
                  (λ n found.
                    elim (evaluate_here-IsSound (c ∷ rest) (nothing_yet compared) e n here found) [
                      | inl before ↦ absurd (none_some n before)
                      | inr stands ↦ stands
                    ]))
          | inr no_pattern ↦
              let same : emit_one ≡ decision = ground arith in
              subst (Decides (c ∷ rest)) same (λ future pattern found. absurd (
                nothing_stands r (λ n. n) (has_patterns-false r.patterns no_pattern) pattern found))
        ]
      where
        none_some : (n : ℕ) → ◌≡◌ {A = Option ℕ} none (some n) → ⊥
        none_some n x = cc
