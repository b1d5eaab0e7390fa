-- ===== src/Redaction/Made.antt =====
-- What `CredentialValueRedactor::new` of
-- tool-runtime-core/src/credential_materialization.rs makes.
use magic_run.Prelude.{
  ℕ, suc, ◌≡◌, refl, sym, subst, Bool, true, false, some, List, [], ◌∷◌, arith, ok, Result, guard,
  ok_or, ltb, leb, ◌||◌, not, any, find, find-holds, All, length, get_elem?, holds, Text-discrete,
  ◌>>=◌, if◌then◌else◌, bind_inversion, guard_inversion, ok_or_inversion, ok-injective,
}
use magic_run.Prelude.Sorting.{sort, All-sort}
use magic_run.Redaction.Redactor.{
  Bytes, CredentialValueRedactor, redactor_new, dedup, is_empty, is_absent, pattern_le, keep_new,
  marker_candidates, enumerate, prefix_le, total_bytes, max_redaction_patterns,
  max_redaction_pattern_bytes,
}
use magic_run.Redaction.Error.{CredentialMaterializationError}
use magic_run.Redaction.Errors.{redaction_pattern_limit_exceeded, redaction_marker_unavailable}
use magic_run.Redaction.Match.{IsRedactor, IsPattern}

-- What the steps of `new` leave.
record Made (secrets : List Bytes) (r : CredentialValueRedactor) : Type 0 where
  kept : r.patterns ≡ dedup (sort pattern_le secrets)
  full : any is_empty r.patterns ≡ false
  indexed : r.prefixes ≡ sort (prefix_le r.patterns) (enumerate 0 r.patterns)
  absent : is_absent r.patterns r.replacement ≡ true

not_or : (a b : Bool) → not (a || b) ≡ true → b ≡ false
not_or a b e = ground arith

-- `new` without its checks.
abbrev built : List Bytes → ℕ → CredentialValueRedactor
built patterns marker = record {
  patterns = patterns;
  prefixes = sort (prefix_le patterns) (enumerate 0 patterns);
  replacement = marker;
}

redactor_new-Made :
    (secrets : List Bytes) {r : CredentialValueRedactor}
    → redactor_new secrets ≡ ok r
    → Made secrets r
unfolding redactor_new
redactor_new-Made secrets {r} e =
    let patterns = dedup (sort pattern_le secrets) in
    let usable = not (ltb max_redaction_patterns (length patterns) || any is_empty patterns) in
    let bounded = leb (total_bytes patterns) max_redaction_pattern_bytes in
    let markers = find (is_absent patterns) (marker_candidates 256 0) in
    let last : ℕ → Result CredentialMaterializationError CredentialValueRedactor =
      λ marker. ok (built patterns marker) in
    let (u, few, e1) =
      bind_inversion (guard usable redaction_pattern_limit_exceeded)
        (λ _. guard bounded redaction_pattern_limit_exceeded >>= λ _.
          ok_or markers redaction_marker_unavailable >>= last)
        e in
    let (v, small, e2) =
      bind_inversion (guard bounded redaction_pattern_limit_exceeded)
        (λ _. ok_or markers redaction_marker_unavailable >>= last) e1 in
    let (marker, found, e3) = bind_inversion (ok_or markers redaction_marker_unavailable) last e2 in
    let test = guard_inversion usable redaction_pattern_limit_exceeded few in
    let marked =
      find-holds (is_absent patterns) (marker_candidates 256 0)
        (ok_or_inversion markers redaction_marker_unavailable found) in
    subst (Made secrets) (ok-injective e3)
      (record { kept = refl; full = not_or _ _ test; indexed = refl; absent = marked })

none_empty :
    (patterns : List Bytes) → any is_empty patterns ≡ false → All (λ p. is_empty p ≡ false) patterns
none_empty [] e = tt
none_empty (p ∷ patterns) e = (ground (arith), none_empty patterns (ground (arith)))

pub redactor_new-IsRedactor :
    (secrets : List Bytes) {r : CredentialValueRedactor}
    → redactor_new secrets ≡ ok r
    → IsRedactor r
redactor_new-IsRedactor secrets {r} e =
    let made = redactor_new-Made secrets e in
    record {
      indexed = made.indexed;
      nonempty = none_empty r.patterns made.full;
      absent = made.absent;
    }

module _ (P : Bytes → Type 0) where
  by_equality :
      (pattern next : Bytes) (rest : List Bytes) (same : Dec (pattern ≡ next))
      → All P (if holds same then next ∷ rest else pattern ∷ next ∷ rest)
      → P pattern × All P (next ∷ rest)
  by_equality pattern next rest (yes same) (p, ps) = (subst P (sym same) p, (p, ps))
  by_equality pattern next rest (no other) h = h

  All-keep_new :
      (pattern : Bytes) (rest : List Bytes) → All P (keep_new pattern rest) → P pattern × All P rest
  All-keep_new pattern [] h = h
  All-keep_new pattern (next ∷ rest) h =
      by_equality pattern next rest (Text-discrete pattern next) h

  All-dedup : (patterns : List Bytes) → All P (dedup patterns) → All P patterns
  unfolding dedup
  All-dedup [] h = tt
  All-dedup (pattern ∷ rest) h =
      let (here, later) = All-keep_new pattern (dedup rest) h in (here, All-dedup rest later)

  All-each :
      (patterns : List Bytes)
      → ((p : Bytes) (i : ℕ) → get_elem? patterns i ≡ some p → P p)
      → All P patterns
  All-each [] f = tt
  All-each (p ∷ patterns) f = (f p 0 refl, All-each patterns (λ q i e. f q (suc i) e))

  -- What holds of each pattern holds of each secret.
  pub All-secrets :
      (secrets : List Bytes) {r : CredentialValueRedactor}
      → redactor_new secrets ≡ ok r
      → ((pattern : Bytes) → IsPattern r pattern → P pattern)
      → All P secrets
  All-secrets secrets {r} e f =
      let made = redactor_new-Made secrets e in
      All-sort pattern_le P secrets (
        All-dedup (sort pattern_le secrets)
          (subst (All P) made.kept (All-each r.patterns (λ p i found. f p (i, found)))))
