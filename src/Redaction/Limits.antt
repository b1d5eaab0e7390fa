-- ===== src/Redaction/Limits.antt =====
-- Which errors the redaction of one buffer of
-- tool-runtime-core/src/credential_materialization.rs can end with.
use magic_run.Prelude.{
  ℕ, zero, suc, ◌+◌, ◌≡◌, ◌<◌, ◌≤◌, refl, sym, subst, Bool, true, false, Option, none, some, List,
  [], ◌∷◌, arith, ok, err, length, get_elem?, ltb, All, All-map, take_while, drop_while,
  if◌then◌else◌, if_induction, ◌⊎◌, inl, inr, ap,
}
use magic_run.Prelude.Sorting.{sort-All}
use magic_run.Redaction.Errors.{redaction_work_limit_exceeded}
use magic_run.Redaction.Redactor.{
  Bytes, CredentialPatternPrefix, CredentialValueRedactor, enumerate, prefix_le,
  max_redaction_comparison_bytes,
}
use magic_run.Redaction.Scan.{
  Outcome, failed, Found, ◌>>=◌, candidates, starts_with, try_entry, match_entries, match_at_key,
  match_two, match_one, match_here, prepend, found_or, find_next,
}
use magic_run.Redaction.Match.{IsRedactor}

-- It succeeds, or the budget for comparisons is spent.
abbrev pub Works : {A : Type 0} → Outcome A → Type 0
Works (ok value) = Unit
Works (err failure) = failure ≡ failed redaction_work_limit_exceeded

pub Works-either :
    {A : Type 0} (result : Outcome A)
    → Works result
    → ((output : A) × (result ≡ ok output)) ⊎ (result ≡ err (failed redaction_work_limit_exceeded))
Works-either (ok output) w = inl (output, refl)
Works-either (err failure) w = inr (ap err w)

pub Works-bind :
    {A B : Type 0} (step : Outcome A) (rest : A → Outcome B)
    → Works step
    → ((value : A) → step ≡ ok value → Works (rest value))
    → Works (step >>= rest)
Works-bind (err failure) rest w f = w
Works-bind (ok value) rest w f = f value refl

pub Works-if :
    {A : Type 0} (t : Bool) (x y : Outcome A) → Works x → Works y → Works (if t then x else y)
Works-if true x y hx hy = hx
Works-if false x y hx hy = hy

-- The index names a pattern.
abbrev pub InRange : List Bytes → CredentialPatternPrefix → Type 0
InRange patterns e = (pattern : Bytes) × (get_elem? patterns e.pattern_index ≡ some pattern)

get_elem?-inside :
    (patterns : List Bytes) (i : ℕ)
    → i < length patterns
    → (pattern : Bytes) × (get_elem? patterns i ≡ some pattern)
get_elem?-inside [] i h = absurd (omega arith)
get_elem?-inside (p ∷ patterns) zero h = (p, refl)
get_elem?-inside (p ∷ patterns) (suc i) h = get_elem?-inside patterns i (omega arith)

enumerate-below :
    (patterns : List Bytes) (start total : ℕ)
    → start + length patterns ≤ total
    → All (λ e. e.pattern_index < total) (enumerate start patterns)
unfolding enumerate
enumerate-below [] start total h = tt
enumerate-below (p ∷ patterns) start total h =
    (omega arith, enumerate-below patterns (start + 1) total (omega arith))

module _ {A : Type 0} (P : A → Type 0) (p : A → Bool) where
  drop_while-All : (xs : List A) → All P xs → All P (drop_while p xs)
  drop_while-All [] h = tt
  drop_while-All (x ∷ xs) (h, hs) =
      if_induction (All P) (p x) (λ _. drop_while-All xs hs) (λ _. (h, hs))

  take_while-All : (xs : List A) → All P xs → All P (take_while p xs)
  take_while-All [] h = tt
  take_while-All (x ∷ xs) (h, hs) =
      if_induction (All P) (p x) (λ _. (h, take_while-All xs hs)) (λ _. tt)

module _ (r : CredentialValueRedactor) (made : IsRedactor r) where
  prefixes-InRange : All (InRange r.patterns) r.prefixes
  prefixes-InRange = subst (All (InRange r.patterns)) (sym made.indexed) (
      sort-All (prefix_le r.patterns) (InRange r.patterns) (enumerate 0 r.patterns) (
        All-map _ _ (λ e h. get_elem?-inside r.patterns e.pattern_index h) (enumerate 0 r.patterns)
          (enumerate-below r.patterns 0 (length r.patterns) (omega arith))))

  try_entry-Works :
      (pattern input : Bytes) (compared : ℕ) (next : ℕ → Outcome (Option ℕ × ℕ))
      → ((c : ℕ) → Works (next c))
      → Works (try_entry (some pattern) input compared next)
  unfolding try_entry
  try_entry-Works pattern input compared next w =
      let spent = compared + length pattern in
      Works-if (ltb max_redaction_comparison_bytes spent)
        (err (failed redaction_work_limit_exceeded))
        (if starts_with pattern input then ok (some (length pattern), spent) else next spent) refl
        (Works-if (starts_with pattern input) (ok (some (length pattern), spent)) (next spent) tt
          (w spent))

  pub match_entries-Works :
      (entries : List CredentialPatternPrefix) (input : Bytes) (compared : ℕ)
      → All (InRange r.patterns) entries
      → Works (match_entries r.patterns entries input compared)
  unfolding match_entries
  match_entries-Works [] input compared h = tt
  match_entries-Works (e ∷ entries) input compared ((pattern, found), h) =
      subst (λ o. Works (try_entry o input compared (match_entries r.patterns entries input)))
        (sym found)
        (try_entry-Works pattern input compared (match_entries r.patterns entries input)
          (λ c. match_entries-Works entries input c h))

  pub candidates-InRange : (key : ℕ) → All (InRange r.patterns) (candidates key r.prefixes)
  unfolding candidates
  candidates-InRange key = take_while-All _ _ _ (drop_while-All _ _ r.prefixes prefixes-InRange)

  match_at_key-Works :
      (input : Bytes) (key compared : ℕ) → Works (match_at_key r input key compared)
  unfolding match_at_key
  match_at_key-Works input key compared =
      match_entries-Works _ input compared (candidates-InRange key)

  match_two-Works : (input : Bytes) (compared : ℕ) → Works (match_two r input compared)
  unfolding match_two
  match_two-Works [] compared = tt
  match_two-Works (a ∷ []) compared = tt
  match_two-Works (a ∷ b ∷ rest) compared = match_at_key-Works _ _ compared

  match_one-Works :
      (first : ℕ) (input : Bytes) (before : Option ℕ × ℕ) → Works (match_one r first input before)
  unfolding match_one
  match_one-Works first input (none, compared) = match_at_key-Works input first compared
  match_one-Works first input (some n, compared) = tt

  match_here-Works : (c : ℕ) (rest : Bytes) (compared : ℕ) → Works (match_here r c rest compared)
  unfolding match_here
  match_here-Works c rest compared =
      Works-bind (match_two r (c ∷ rest) compared) (match_one r c (c ∷ rest))
        (match_two-Works _ compared) (λ value _. match_one-Works c (c ∷ rest) value)

  prepend-Works : (c : ℕ) (found : Found × ℕ) → Works (prepend c found)
  prepend-Works c (none, compared) = tt
  prepend-Works c (some (before, n, after), compared) = tt

  found_or-Works :
      (c : ℕ) (rest : Bytes) (next : ℕ → Outcome (Found × ℕ)) (here : Option ℕ × ℕ)
      → ((compared : ℕ) → Works (next compared))
      → Works (found_or c rest next here)
  found_or-Works c rest next (some n, compared) w = tt
  found_or-Works c rest next (none, compared) w =
      Works-bind (next compared) (prepend c) (w compared) (λ value _. prepend-Works c value)

  pub find_next-Works : (input : Bytes) (compared : ℕ) → Works (find_next r input compared)
  unfolding find_next
  find_next-Works [] compared = tt
  find_next-Works (c ∷ rest) compared =
      Works-bind (match_here r c rest compared) (found_or c rest (find_next r rest))
        (match_here-Works c rest compared)
        (λ value _. found_or-Works c rest (find_next r rest) value (find_next-Works rest))
