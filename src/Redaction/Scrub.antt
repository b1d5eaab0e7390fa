-- ===== src/Redaction/Scrub.antt =====
-- What redaction does to a buffer, and why no pattern is left, for
-- tool-runtime-core/src/credential_materialization.rs.
use magic_run.Prelude.{
  ℕ, zero, suc, ◌≡◌, ◌<◌, refl, sym, ◌∙◌, subst, Bool, true, false, some, List, [], ◌∷◌, ◌++◌,
  arith, ◌==◌, all, any, not, ◌||◌, length, get_elem?, drop, replicate, All-get_elem?,
}
use magic_run.Redaction.Redactor.{Bytes, CredentialValueRedactor, is_empty, is_absent}
use magic_run.Redaction.Scan.{starts_with}
use magic_run.Redaction.Match.{IsRedactor, IsPattern, IsClear}

-- The pattern stands somewhere in the bytes.
unfoldable pub occurs : Bytes → Bytes → Bool
occurs pattern [] = starts_with pattern []
occurs pattern (c ∷ rest) = starts_with pattern (c ∷ rest) || occurs pattern rest

-- The output copies each byte at which no pattern stands, and has marks for a pattern that does;
-- `marks n` says how many for a pattern of `n` bytes.
pub data Scrubbed (r : CredentialValueRedactor) (marks : ℕ → ℕ) : Bytes → Bytes → Type 0 where
  done : Scrubbed r marks [] []
  copied :
      {c : ℕ} {rest out : Bytes}
      → IsClear r (c ∷ rest)
      → Scrubbed r marks rest out
      → Scrubbed r marks (c ∷ rest) (c ∷ out)
  hidden :
      {input output : Bytes} (pattern rest out : Bytes)
      → IsPattern r pattern
      → input ≡ pattern ++ rest
      → output ≡ replicate (marks (length pattern)) r.replacement ++ out
      → Scrubbed r marks rest out
      → Scrubbed r marks input output

-- What follows a pattern that stands here.
pub starts_with-drop :
    (pattern input : Bytes)
    → starts_with pattern input ≡ true
    → input ≡ pattern ++ drop (length pattern) input
unfolding starts_with
starts_with-drop [] input e = refl
starts_with-drop (a ∷ pattern) [] e = cc
starts_with-drop (a ∷ pattern) (c ∷ input) e =
    let rest = starts_with-drop pattern input (ground (arith)) in
    let head : a ≡ c = ground (arith) in ground (arith)

-- A text without the replacement that starts with no replacement.
lacks_head :
    (a k : ℕ) (pattern rest : Bytes)
    → any (λ c. c == k) (a ∷ pattern) ≡ false
    → starts_with (a ∷ pattern) (k ∷ rest) ≡ false
unfolding starts_with
lacks_head a k pattern rest e = ground arith

nonempty_length : (pattern : Bytes) → is_empty pattern ≡ false → 0 < length pattern
nonempty_length [] e = cc
nonempty_length (a ∷ rest) e = omega arith

true-false : ◌≡◌ {A = Bool} true false → ⊥
true-false e = cc

false_of_not : {b : Bool} → not b ≡ true → b ≡ false
false_of_not {b} e = ground arith

all-get_elem? :
    (p : Bytes → Bool) (xs : List Bytes) (i : ℕ) {x : Bytes}
    → all p xs ≡ true
    → get_elem? xs i ≡ some x
    → p x ≡ true
all-get_elem? p [] i h e = cc
all-get_elem? p (y ∷ ys) zero {x} h e =
    let same : y ≡ x = cc in subst (λ z. p z ≡ true) same (ground (arith))
all-get_elem? p (y ∷ ys) (suc i) h e = all-get_elem? p ys i (ground (arith)) e

starts_with-nil : (a : ℕ) (pattern : Bytes) → starts_with (a ∷ pattern) [] ≡ false
unfolding starts_with
starts_with-nil a pattern = refl

false_by : (x y : Bool) → (x ≡ true → y ≡ true) → y ≡ false → x ≡ false
false_by true y f e = sym (f refl) ∙ e
false_by false y f e = refl

module _ (r : CredentialValueRedactor) (made : IsRedactor r) where
  pub length_pattern : (pattern : Bytes) → IsPattern r pattern → 0 < length pattern
  length_pattern pattern (i, found) =
      nonempty_length pattern
        (All-get_elem? (λ p. is_empty p ≡ false) r.patterns i made.nonempty found)

module _ (r : CredentialValueRedactor) (marks : ℕ → ℕ) (made : IsRedactor r)
    (some_mark : (n : ℕ) → 0 < n → 0 < marks n) where
  -- Marks stop a text that has none.
  marks_stop :
      (n a : ℕ) (pattern out : Bytes)
      → 0 < n
      → any (λ c. c == r.replacement) (a ∷ pattern) ≡ false
      → starts_with (a ∷ pattern) (replicate n r.replacement ++ out) ≡ false
  marks_stop zero a pattern out h e = absurd (omega arith)
  marks_stop (suc n) a pattern out h e = lacks_head a r.replacement pattern _ e

  -- A text without the replacement that starts the output starts the input.
  starts_with-Scrubbed :
      (pattern : Bytes) {input output : Bytes}
      → any (λ c. c == r.replacement) pattern ≡ false
      → Scrubbed r marks input output
      → starts_with pattern output ≡ true
      → starts_with pattern input ≡ true
  unfolding starts_with
  starts_with-Scrubbed [] e s h = refl
  starts_with-Scrubbed (a ∷ pattern) e done h = h
  starts_with-Scrubbed (a ∷ pattern) e (copied {c} {rest} {out} clear s) h =
      let later = starts_with-Scrubbed pattern (ground (arith)) s (ground (arith)) in ground (arith)
  starts_with-Scrubbed (a ∷ pattern) e (hidden p rest out is_pattern before after s) h =
      let stopped =
        marks_stop (marks (length p)) a pattern out
          (some_mark (length p) (length_pattern r made p is_pattern)) e in
      let start = subst (λ o. starts_with (a ∷ pattern) o ≡ true) after h in cc

  marks_occur :
      (n a : ℕ) (pattern out : Bytes)
      → any (λ c. c == r.replacement) (a ∷ pattern) ≡ false
      → occurs (a ∷ pattern) out ≡ false
      → occurs (a ∷ pattern) (replicate n r.replacement ++ out) ≡ false
  unfolding occurs
  marks_occur zero a pattern out e h = h
  marks_occur (suc n) a pattern out e h =
      let stopped = lacks_head a r.replacement pattern (replicate n r.replacement ++ out) e in
      let later = marks_occur n a pattern out e h in ground (arith)

  Scrubbed-occurs :
      (a : ℕ) (pattern : Bytes) {input output : Bytes}
      → IsPattern r (a ∷ pattern)
      → any (λ c. c == r.replacement) (a ∷ pattern) ≡ false
      → Scrubbed r marks input output
      → occurs (a ∷ pattern) output ≡ false
  unfolding occurs
  Scrubbed-occurs a pattern is_pattern e done = starts_with-nil a pattern
  Scrubbed-occurs a pattern is_pattern e (copied {c} {rest} {out} clear s) =
      let later = Scrubbed-occurs a pattern is_pattern e s in
      let start =
        false_by (starts_with (a ∷ pattern) (c ∷ out)) (starts_with (a ∷ pattern) (c ∷ rest))
          (starts_with-Scrubbed (a ∷ pattern) e (copied clear s))
          (clear (a ∷ pattern) is_pattern) in
      ground (arith)
  Scrubbed-occurs a pattern is_pattern e (hidden p rest out used before after s) =
      subst (λ o. occurs (a ∷ pattern) o ≡ false) (sym after)
        (marks_occur (marks (length p)) a pattern out e (Scrubbed-occurs a pattern is_pattern e s))

  absent_marker :
      (pattern : Bytes) → IsPattern r pattern → any (λ c. c == r.replacement) pattern ≡ false
  unfolding is_absent
  absent_marker pattern (i, found) = false_of_not (all-get_elem? _ r.patterns i made.absent found)

  -- No pattern is left in what was scrubbed.
  pub Scrubbed-clean :
      (pattern : Bytes) {input output : Bytes}
      → IsPattern r pattern
      → Scrubbed r marks input output
      → occurs pattern output ≡ false
  Scrubbed-clean [] (i, found) s =
      absurd (true-false (All-get_elem? (λ p. is_empty p ≡ false) r.patterns i made.nonempty found))
  Scrubbed-clean (a ∷ pattern) found s =
      Scrubbed-occurs a pattern found (absent_marker (a ∷ pattern) found) s
