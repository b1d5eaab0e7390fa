-- ===== src/Redaction/Decide.antt =====
-- What the decisions of the streaming redactor of
-- tool-runtime-core/src/credential_materialization.rs say of the bytes to come.
use magic_run.Prelude.{
  ℕ, ◌+◌, ◌*◌, ◌≡◌, sym, subst, Bool, true, false, Option, none, some, List, [], ◌∷◌, ◌++◌, arith,
  ok, All, All-get_elem?, get_elem?, if◌then◌else◌, Bool-cases, inl, inr, ok-injective,
}
use magic_run.Redaction.Redactor.{
  Bytes, CredentialPatternPrefix, CredentialValueRedactor, credential_pattern_prefix, is_empty,
}
use magic_run.Redaction.Scan.{Outcome, starts_with, candidates}
use magic_run.Redaction.Streaming.{
  Evaluation, evaluate_streaming_pattern, evaluate_entry, evaluate_entries, evaluate_streaming_key,
  evaluate_first, starts_at, evaluate_here,
}
use magic_run.Redaction.Index.{candidates-pattern}
use magic_run.Redaction.Match.{IsRedactor, IsPattern, two_bytes, one_byte, not_true}
use magic_run.Redaction.Redacted.{outcome_inversion}
use magic_run.Redaction.Evaluate.{IsUndecided, NeverStands, evaluate-never}

-- The entry's pattern never stands at what is pending.
abbrev NeverHere : List Bytes → Bytes → CredentialPatternPrefix → Type 0
NeverHere patterns pending entry =
    (pattern : Bytes)
    → get_elem? patterns entry.pattern_index ≡ some pattern
    → NeverStands pending pattern

evaluate_entry-never :
    (found : Option Bytes) (pending : Bytes) (e after : Evaluation)
    → evaluate_entry found pending false e ≡ ok after
    → IsUndecided after
    → IsUndecided e × ((pattern : Bytes) → found ≡ some pattern → NeverStands pending pattern)
evaluate_entry-never none pending e after h u = cc
evaluate_entry-never (some p) pending e after h u =
    let (before, never) = evaluate-never p pending e after h u in
    (
      before,
      λ pattern same. let value : p ≡ pattern = cc in subst (NeverStands pending) value never,
    )

evaluate_entries-never :
    (patterns : List Bytes) (entries : List CredentialPatternPrefix) (pending : Bytes)
    (e after : Evaluation)
    → evaluate_entries patterns entries pending false e ≡ ok after
    → IsUndecided after
    → IsUndecided e × All (NeverHere patterns pending) entries
unfolding evaluate_entries
evaluate_entries-never patterns [] pending e after h u =
    (subst IsUndecided (sym (ok-injective h)) u, tt)
evaluate_entries-never patterns (entry ∷ entries) pending e after h u =
    let (middle, one, two) =
      outcome_inversion (evaluate_entry (get_elem? patterns entry.pattern_index) pending false e)
        (evaluate_entries patterns entries pending false) h in
    let (between, later) = evaluate_entries-never patterns entries pending middle after two u in
    let (before, here) = evaluate_entry-never _ pending e middle one between in
    (before, (here, later))

evaluate_first-never :
    (first : ℕ) (patterns : List Bytes) (pending : Bytes) (e after : Evaluation)
    → evaluate_first first patterns pending false e ≡ ok after
    → IsUndecided after
    → IsUndecided e × All (λ p. starts_at first p ≡ true → NeverStands pending p) patterns
unfolding evaluate_first
evaluate_first-never first [] pending e after h u = (subst IsUndecided (sym (ok-injective h)) u, tt)
evaluate_first-never first (p ∷ patterns) pending e after h u =
    let step = if starts_at first p then evaluate_streaming_pattern p pending false e else ok e in
    let (middle, one, two) =
      outcome_inversion step (evaluate_first first patterns pending false) h in
    let (between, later) = evaluate_first-never first patterns pending middle after two u in
    elim (Bool-cases (starts_at first p)) [
      | inl starts ↦
          let ran : evaluate_streaming_pattern p pending false e ≡ ok middle = rw starts at one in
          let (before, never) = evaluate-never p pending e middle ran between in
          (before, (λ _. never, later))
      | inr other ↦
          let same : ◌≡◌ {A = Outcome Evaluation} (ok e) (ok middle) = rw other at one in
          (
            subst IsUndecided (sym (ok-injective same)) between,
            (λ starts. absurd (clash starts other), later),
          )
    ]
  where
    clash : {b : Bool} → b ≡ true → b ≡ false → ⊥
    clash {b} x y = cc

module _ (r : CredentialValueRedactor) (made : IsRedactor r) where
  evaluate_streaming_key-never :
      (pending : Bytes) (key : ℕ) (e after : Evaluation)
      → evaluate_streaming_key r key pending false e ≡ ok after
      → IsUndecided after
      → IsUndecided e
        × ((pattern : Bytes)
            → IsPattern r pattern
            → credential_pattern_prefix pattern ≡ key
            → NeverStands pending pattern)
  unfolding evaluate_streaming_key
  evaluate_streaming_key-never pending key e after h u =
      let (before, never) =
        evaluate_entries-never r.patterns (candidates key r.prefixes) pending e after h u in
      (
        before,
        λ pattern found same.
            let (i, place) = found in
            let at_key =
              subst (λ k. All (NeverHere r.patterns pending) (candidates k r.prefixes)) (sym same)
                never in
            let sorted =
              subst
                (λ l.
                  All (NeverHere r.patterns pending)
                    (candidates (credential_pattern_prefix pattern) l))
                made.indexed at_key in
            candidates-pattern (NeverHere r.patterns pending) r.patterns i sorted place pattern
              place,
      )

  never_two :
      (a b : ℕ) (rest pattern : Bytes)
      → is_empty pattern ≡ false
      → (credential_pattern_prefix pattern ≡ 256 + a * 256 + b → NeverStands (a ∷ b ∷ rest) pattern)
      → (credential_pattern_prefix pattern ≡ a → NeverStands (a ∷ b ∷ rest) pattern)
      → NeverStands (a ∷ b ∷ rest) pattern
  never_two a b rest [] full two one future = cc
  never_two a b rest (x ∷ []) full two one future =
      not_true r made _ (λ stands. one (one_byte r made x a (b ∷ (rest ++ future)) stands) future)
  never_two a b rest (x ∷ y ∷ pattern) full two one future =
      not_true r made _
        (λ stands. two (two_bytes r made x y a b pattern (rest ++ future) stands) future)

  never_one :
      (a : ℕ) (pattern : Bytes)
      → is_empty pattern ≡ false
      → (starts_at a pattern ≡ true → NeverStands (a ∷ []) pattern)
      → NeverStands (a ∷ []) pattern
  unfolding starts_with
  never_one a [] full h future = cc
  never_one a (x ∷ pattern) full h future = not_true r made _ (λ stands. h (ground (arith)) future)

  pub evaluate_here-never :
      (c : ℕ) (rest : Bytes) (e after : Evaluation)
      → evaluate_here r (c ∷ rest) false e ≡ ok after
      → IsUndecided after
      → (pattern : Bytes) → IsPattern r pattern
      → NeverStands (c ∷ rest) pattern
  unfolding evaluate_here
  evaluate_here-never c [] e after h u pattern (i, found) =
      let (before, never) = evaluate_first-never c r.patterns (c ∷ []) e after h u in
      never_one c pattern (All-get_elem? (λ p. is_empty p ≡ false) r.patterns i made.nonempty found)
        (All-get_elem? (λ p. starts_at c p ≡ true → NeverStands (c ∷ []) p) r.patterns i never
          found)
  evaluate_here-never c (d ∷ rest) e after h u pattern (i, found) =
      let (middle, first, second) =
        outcome_inversion (evaluate_streaming_key r (256 + c * 256 + d) (c ∷ d ∷ rest) false e)
          (evaluate_streaming_key r c (c ∷ d ∷ rest) false) h in
      let (between, one) = evaluate_streaming_key-never (c ∷ d ∷ rest) c middle after second u in
      let (before, two) =
        evaluate_streaming_key-never (c ∷ d ∷ rest) (256 + c * 256 + d) e middle first between in
      never_two c d rest pattern
        (All-get_elem? (λ p. is_empty p ≡ false) r.patterns i made.nonempty found)
        (two pattern (i, found)) (one pattern (i, found))
