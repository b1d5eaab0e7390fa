-- ===== src/Redaction/Evaluate.antt =====
-- What the tests of the streaming redactor of
-- tool-runtime-core/src/credential_materialization.rs find out at one position.
use magic_run.Prelude.{
  ℕ, ◌+◌, ◌≡◌, refl, sym, ap, ◌∙◌, Bool, true, false, not, Option, none, some, ◌++◌, arith, ok, err,
  ltb, length, take, holds, holds→, →holds, Text-discrete, if◌then◌else◌, inl, inr, ◌⊎◌,
  ok-injective,
}
use magic_run.Redaction.Errors.{redaction_work_limit_exceeded}
use magic_run.Redaction.Redactor.{Bytes, max_redaction_comparison_bytes}
use magic_run.Redaction.Scan.{Outcome, failed, starts_with}
use magic_run.Redaction.Streaming.{Evaluation, min, longer, evaluate_streaming_pattern}
use magic_run.Redaction.Prefix.{differs-clear, agrees-stands}

-- Nothing has been found and nothing more is waited for.
pub record IsUndecided (e : Evaluation) : Type 0 where
  pub unmatched : e.longest_exact ≡ none
  pub complete : e.needs_more ≡ false

-- Whatever follows what is pending, the pattern does not stand there.
abbrev pub NeverStands : Bytes → Bytes → Type 0
NeverStands pending pattern = (future : Bytes) → starts_with pattern (pending ++ future) ≡ false

true-false : ◌≡◌ {A = Bool} true false → ⊥
true-false e = cc

longer-some : (found : Option ℕ) (n : ℕ) → longer found n ≡ none → ⊥
longer-some none n e = cc
longer-some (some current) n e = ground arith

longer-either : (found : Option ℕ) (n m : ℕ) → longer found n ≡ some m → (found ≡ some m) ⊎ (m ≡ n)
longer-either none n m e = inr (cc)
longer-either (some current) n m e = ground arith

-- What one test makes of an evaluation, by its three tests.
abbrev tested : Bool → Bool → Bool → ℕ → ℕ → Evaluation → Outcome Evaluation
tested over agrees short n spent e =
    if over
    then err (failed redaction_work_limit_exceeded)
    else if not agrees
    then ok
        (record { compared = spent; longest_exact = e.longest_exact; needs_more = e.needs_more })
    else if short
    then ok (record { compared = spent; longest_exact = e.longest_exact; needs_more = true })
    else ok (record {
      compared = spent;
      longest_exact = longer e.longest_exact n;
      needs_more = e.needs_more;
    })

tested-IsUndecided :
    (over agrees short : Bool) (n spent : ℕ) (e after : Evaluation)
    → tested over agrees short n spent e ≡ ok after
    → IsUndecided after
    → IsUndecided e × (agrees ≡ false)
tested-IsUndecided true agrees short n spent e after h u = cc
tested-IsUndecided false false short n spent e after h u =
    let one = u.unmatched in
    let two = u.complete in
    (
      record {
        unmatched = ap (λ x. x.longest_exact) (ok-injective h) ∙ one;
        complete = ap (λ x. x.needs_more) (ok-injective h) ∙ two;
      },
      refl,
    )
tested-IsUndecided false true true n spent e after h u =
    let two = ap (λ x. x.needs_more) (ok-injective h) ∙ u.complete in cc
tested-IsUndecided false true false n spent e after h u =
    absurd
      (longer-some e.longest_exact n (ap (λ x. x.longest_exact) (ok-injective h) ∙ u.unmatched))

tested-found :
    (over agrees short : Bool) (n m spent : ℕ) (e after : Evaluation)
    → tested over agrees short n spent e ≡ ok after
    → after.longest_exact ≡ some m
    → (e.longest_exact ≡ some m) ⊎ ((agrees ≡ true) × (short ≡ false) × (m ≡ n))
tested-found true agrees short n m spent e after h found = cc
tested-found false false short n m spent e after h found =
    inl (ap (λ x. x.longest_exact) (ok-injective h) ∙ found)
tested-found false true true n m spent e after h found =
    inl (ap (λ x. x.longest_exact) (ok-injective h) ∙ found)
tested-found false true false n m spent e after h found =
    elim (longer-either e.longest_exact n m (ap (λ x. x.longest_exact) (ok-injective h) ∙ found)) [
      | inl before ↦ inl before
      | inr now ↦ inr (refl, refl, now)
    ]

module _ (pattern pending : Bytes) (e : Evaluation) where
  abbrev n : ℕ
  n = min (length pattern) (length pending)

  abbrev agreement : Dec (take n pattern ≡ take n pending)
  agreement = Text-discrete (take n pattern) (take n pending)

  abbrev over : Bool
  over = ltb max_redaction_comparison_bytes (e.compared + n)

  pub evaluate-never :
      (after : Evaluation)
      → evaluate_streaming_pattern pattern pending false e ≡ ok after
      → IsUndecided after
      → IsUndecided e × NeverStands pending pattern
  unfolding evaluate_streaming_pattern
  evaluate-never after h u =
      let (before, differs) =
        tested-IsUndecided over (holds agreement) (ltb (length pending) (length pattern))
          (length pattern) (e.compared + n) e after h u in
      (
        before,
        λ future.
            differs-clear pattern pending future
              (λ same. true-false (sym (→holds agreement same) ∙ differs)),
      )

  pub evaluate-found :
      (after : Evaluation) (m : ℕ)
      → evaluate_streaming_pattern pattern pending false e ≡ ok after
      → after.longest_exact ≡ some m
      → (e.longest_exact ≡ some m) ⊎ ((starts_with pattern pending ≡ true) × (m ≡ length pattern))
  unfolding evaluate_streaming_pattern
  evaluate-found after m h found =
      elim (tested-found over (holds agreement) (ltb (length pending) (length pattern))
        (length pattern) m (e.compared + n) e after h found) [
          | inl before ↦ inl before
          | inr (agrees, fits, same) ↦
              inr (agrees-stands pattern pending (ground (arith)) (holds→ agreement agrees), same)
        ]
