-- ===== src/Redaction/Streamed.antt =====
-- What a stream of tool-runtime-core/src/credential_materialization.rs leaves of the secrets.
use magic_run.Prelude.{
  ℕ, zero, suc, ◌+◌, ◌≡◌, ◌<◌, refl, ap, ◌∙◌, subst, Bool, true, false, some, List, [], ◌∷◌, ◌++◌,
  arith, ok, All, length, length-append, drop, replicate, concat, get_elem?, Bool-cases, inl, inr,
  ◌⊎◌,
}
use mathlib.Core.List.{append-nil}
use magic_run.Redaction.Redactor.{Bytes, CredentialValueRedactor, redactor_new}
use magic_run.Redaction.Scan.{starts_with}
use magic_run.Redaction.Streaming.{CredentialStreamingRedactor, push_all, streaming}
use magic_run.Redaction.Match.{IsRedactor}
use magic_run.Redaction.Scrub.{
  Scrubbed, done, copied, hidden, occurs, starts_with-drop, length_pattern, Scrubbed-clean,
}
use magic_run.Redaction.Records.{each_byte, each_byte-positive}
use magic_run.Redaction.Made.{redactor_new-IsRedactor, All-secrets}
use magic_run.Redaction.Pushes.{push_all-Streams}

-- A pattern that stands at the head of the input, or none does.
standing :
    (patterns : List Bytes) (input : Bytes)
    → ((i : ℕ) × (p : Bytes) × (get_elem? patterns i ≡ some p) × (starts_with p input ≡ true))
      ⊎ ((p : Bytes) → ((i : ℕ) × (get_elem? patterns i ≡ some p)) → starts_with p input ≡ false)
standing [] input = inr (λ p found. absurd (missing found.0 p found.1))
  where
    missing : (i : ℕ) (p : Bytes) → get_elem? [] i ≡ some p → ⊥
    missing i p e = cc
standing (q ∷ patterns) input = elim (Bool-cases (starts_with q input)) [
  | inl stands ↦ inl (0, q, refl, stands)
  | inr clear ↦ elim (standing patterns input) [
    | inl (i, p, found, stands) ↦ inl (suc i, p, found, stands)
    | inr never ↦ inr (λ p found. either q patterns input clear never p found.0 found.1)
  ]
]
  where
    either :
        (q : Bytes) (patterns : List Bytes) (input : Bytes)
        → starts_with q input ≡ false
        → ((p : Bytes) → ((i : ℕ) × (get_elem? patterns i ≡ some p)) → starts_with p input ≡ false)
        → (p : Bytes) (i : ℕ) → get_elem? (q ∷ patterns) i ≡ some p
        → starts_with p input ≡ false
    either q patterns input clear never p zero e =
        let same : q ≡ p = cc in subst (λ x. starts_with x input ≡ false) same clear
    either q patterns input clear never p (suc i) e = never p (i, e)

-- A buffer has a redaction.
Scrubbed-total :
    (r : CredentialValueRedactor) (made : IsRedactor r) (fuel : ℕ) (input : Bytes)
    → length input < fuel
    → (out : Bytes) × Scrubbed r each_byte input out
Scrubbed-total r made zero input enough = absurd (omega arith)
Scrubbed-total r made (suc fuel) [] enough = ([], done)
Scrubbed-total r made (suc fuel) (c ∷ rest) enough = elim (standing r.patterns (c ∷ rest)) [
  | inl (i, p, found, stands) ↦
      let cut = starts_with-drop p (c ∷ rest) stands in
      let full = length_pattern r made p (i, found) in
      let whole = ap length cut ∙ length-append p (drop (length p) (c ∷ rest)) in
      let (out, s) = Scrubbed-total r made fuel (drop (length p) (c ∷ rest)) (omega arith) in
      (
        replicate (length p) r.replacement ++ out,
        hidden p (drop (length p) (c ∷ rest)) out (i, found) cut refl s,
      )
  | inr clear ↦
      let (out, s) = Scrubbed-total r made fuel rest (omega arith) in
      (c ∷ out, copied (λ p found. clear p found) s)
]

length-replicate : (n c : ℕ) → length (replicate n c) ≡ n
length-replicate zero c = refl
length-replicate (suc n) c = let rest = length-replicate n c in omega arith

pub length-Scrubbed :
    (r : CredentialValueRedactor) {input output : Bytes}
    → Scrubbed r each_byte input output
    → length output ≡ length input
length-Scrubbed r done = refl
length-Scrubbed r (copied clear s) = let rest = length-Scrubbed r s in omega arith
length-Scrubbed r {input} {output} (hidden p rest out found before after s) =
    let later = length-Scrubbed r s in
    let old = ap length before ∙ length-append p rest in
    let new = ap length after ∙ length-append (replicate (length p) r.replacement) out in
    let marks = length-replicate (length p) r.replacement in omega arith

starts_with-append : (p xs ys : Bytes) → starts_with p xs ≡ true → starts_with p (xs ++ ys) ≡ true
unfolding starts_with
starts_with-append [] xs ys e = refl
starts_with-append (a ∷ p) [] ys e = cc
starts_with-append (a ∷ p) (c ∷ xs) ys e =
    let rest = starts_with-append p xs ys (ground (arith)) in ground arith

occurs-append : (p xs ys : Bytes) → occurs p xs ≡ true → occurs p (xs ++ ys) ≡ true
unfolding occurs starts_with
occurs-append [] [] [] e = refl
occurs-append [] [] (y ∷ ys) e = refl
occurs-append (a ∷ p) [] ys e = cc
occurs-append p (c ∷ xs) ys e = elim (Bool-cases (starts_with p (c ∷ xs))) [
  | inl here ↦ let start = starts_with-append p (c ∷ xs) ys here in ground arith
  | inr other ↦ let later = occurs-append p xs ys (ground (arith)) in ground arith
]

clean-append : (p xs ys : Bytes) → occurs p (xs ++ ys) ≡ false → occurs p xs ≡ false
clean-append p xs ys e = by_cases (occurs p xs) refl
  where
    by_cases : (b : Bool) → occurs p xs ≡ b → occurs p xs ≡ false
    by_cases true h = let long = occurs-append p xs ys h in cc
    by_cases false h = h

-- No secret of a redactor stands in what a stream gives out, however its input is cut into chunks.
-- What was given out and what is pending are together as long as the input.
pub push_all-clean :
    (secrets : List Bytes) (r : CredentialValueRedactor) (inputs outputs : List Bytes)
    (last : CredentialStreamingRedactor)
    → redactor_new secrets ≡ ok r
    → push_all r streaming inputs ≡ ok (outputs, last)
    → All (λ secret. occurs secret (concat outputs) ≡ false) secrets
      × (length (concat outputs) + length last.pending ≡ length (concat inputs))
push_all-clean secrets r inputs outputs last built pushed =
    let made = redactor_new-IsRedactor secrets built in
    let streams = push_all-Streams r made streaming inputs outputs last (λ idle. refl) pushed in
    let (out, s) =
      Scrubbed-total r made (length (last.pending ++ []) + 1) (last.pending ++ []) (omega arith) in
    let whole = streams [] out s in
    let total = length-Scrubbed r whole in
    let tail = length-Scrubbed r s in
    let joined = length-append (concat outputs) out in
    let same = ap length (append-nil last.pending) in
    let all = ap length (append-nil (concat inputs)) in
    (
      All-secrets (λ secret. occurs secret (concat outputs) ≡ false) secrets built
          (λ pattern found.
            clean-append pattern (concat outputs) out
              (Scrubbed-clean r each_byte made each_byte-positive pattern found whole)),
      omega arith,
    )
