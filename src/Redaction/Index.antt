-- ===== src/Redaction/Index.antt =====
-- The sorted prefixes of a redactor of tool-runtime-core/src/credential_materialization.rs hold
-- every pattern under its key.
use magic_run.Prelude.{
  ℕ, zero, suc, ◌+◌, ◌≤◌, ◌<◌, ◌≡◌, refl, subst, true, false, some, List, [], ◌∷◌, arith, ltb, ◌==◌,
  All, All-map, get_elem?, take_while, Bool-cases, inl, inr,
}
use magic_run.Prelude.Sorting.{sort, IsSorted, sort-IsSorted, All-sort}
use magic_run.Redaction.Redactor.{
  Bytes, CredentialPatternPrefix, prefix_le, enumerate, credential_pattern_prefix,
}
use magic_run.Redaction.Scan.{candidates}

module _ (patterns : List Bytes) where
  pub prefix_le-total :
      (x y : CredentialPatternPrefix)
      → prefix_le patterns x y ≡ false
      → prefix_le patterns y x ≡ true
  unfolding prefix_le
  prefix_le-total x y h = ground arith

  pub prefix_le_trans :
      (x y z : CredentialPatternPrefix)
      → prefix_le patterns x y ≡ true
      → prefix_le patterns y z ≡ true
      → prefix_le patterns x z ≡ true
  unfolding prefix_le
  prefix_le_trans x y z h g = ground arith

  prefix_le-key : (x y : CredentialPatternPrefix) → prefix_le patterns x y ≡ true → x.key ≤ y.key
  unfolding prefix_le
  prefix_le-key x y h = ground arith

module _ (T : CredentialPatternPrefix → Type 0) (key : ℕ) where
  abbrev AtKey : CredentialPatternPrefix → Type 0
  AtKey e = e.key ≡ key → T e

  above_cover : (xs : List CredentialPatternPrefix) → All (λ e. key < e.key) xs → All AtKey xs
  above_cover [] h = tt
  above_cover (x ∷ xs) (above, h) = (λ e. absurd (omega arith), above_cover xs h)

  module _ (patterns : List Bytes) where
    above-All :
        (x : CredentialPatternPrefix) (xs : List CredentialPatternPrefix)
        → key < x.key
        → All (λ y. prefix_le patterns x y ≡ true) xs
        → All (λ e. key < e.key) xs
    above-All x xs above low =
        All-map _ _
          (λ (y : CredentialPatternPrefix) (l : prefix_le patterns x y ≡ true).
            omega (arith, prefix_le-key patterns x y l))
          xs low

    split_kept :
        (x : CredentialPatternPrefix) (xs : List CredentialPatternPrefix)
        → All T (x ∷ take_while (λ e. e.key == key) xs)
        → T x × All T (take_while (λ e. e.key == key) xs)
    split_kept x xs h = h

    take_cover :
        (xs : List CredentialPatternPrefix)
        → IsSorted (prefix_le patterns) xs
        → All (λ e. key ≤ e.key) xs
        → All T (take_while (λ e. e.key == key) xs)
        → All AtKey xs
    take_cover [] sorted from h = tt
    take_cover (x ∷ xs) (low, sorted) (least, from) h = elim (Bool-cases (x.key == key)) [
      | inl same ↦
          let (here, later) = split_kept x xs (rw same at h) in
          (λ e. here, take_cover xs sorted from later)
      | inr other ↦
          (λ e. absurd (ground (arith)), above_cover xs (above-All x xs (ground (arith)) low))
    ]

    candidates_cover :
        (xs : List CredentialPatternPrefix)
        → IsSorted (prefix_le patterns) xs
        → All T (candidates key xs)
        → All AtKey xs
    unfolding candidates
    candidates_cover [] sorted h = tt
    candidates_cover (x ∷ xs) (low, sorted) h = elim (Bool-cases (ltb x.key key)) [
      | inl below ↦ (λ e. absurd (ground (arith)), candidates_cover xs sorted (rw below at h))
      | inr from ↦
          take_cover (x ∷ xs) (low, sorted)
            (
              ground (arith),
              All-map _ _
                  (λ (y : CredentialPatternPrefix) (l : prefix_le patterns x y ≡ true).
                    let up = prefix_le-key patterns x y l in ground (arith))
                  xs low,
            )
            (rw from at h)
    ]

-- A fact of all entries is a fact of each pattern with its index.
enumerate-All :
    (R : CredentialPatternPrefix → Type 0) (patterns : List Bytes) (start i : ℕ) {pattern : Bytes}
    → All R (enumerate start patterns)
    → get_elem? patterns i ≡ some pattern
    → R (record { key = credential_pattern_prefix pattern; pattern_index = start + i })
unfolding enumerate
enumerate-All R [] start i h e = cc
enumerate-All R (p ∷ patterns) start zero {pattern} (r, h) e =
    let same : p ≡ pattern = cc in
    let place : start ≡ start + zero = omega arith in
    subst (λ n. R (record { key = credential_pattern_prefix pattern; pattern_index = n })) place
      (subst (λ q. R (record { key = credential_pattern_prefix q; pattern_index = start })) same r)
enumerate-All R (p ∷ patterns) start (suc i) {pattern} (r, h) e =
    let place : (start + 1) + i ≡ start + suc i = omega arith in
    subst (λ n. R (record { key = credential_pattern_prefix pattern; pattern_index = n })) place
      (enumerate-All R patterns (start + 1) i h e)

-- What holds of the candidates of a pattern's key holds of that pattern's own entry.
pub candidates-pattern :
    (T : CredentialPatternPrefix → Type 0) (patterns : List Bytes) (i : ℕ) {pattern : Bytes}
    → All T (
        candidates
          (credential_pattern_prefix pattern)
          (sort (prefix_le patterns) (enumerate 0 patterns)))
    → get_elem? patterns i ≡ some pattern
    → T (record { key = credential_pattern_prefix pattern; pattern_index = i })
candidates-pattern T patterns i {pattern} h e =
    let key = credential_pattern_prefix pattern in
    let sorted =
      sort-IsSorted (prefix_le patterns) (prefix_le-total patterns) (prefix_le_trans patterns)
        (enumerate 0 patterns) in
    let covered =
      candidates_cover T key patterns (sort (prefix_le patterns) (enumerate 0 patterns)) sorted h in
    let every = All-sort (prefix_le patterns) (AtKey T key) (enumerate 0 patterns) covered in
    let place : 0 + i ≡ i = omega arith in
    subst (λ n. T (record { key = key; pattern_index = n })) place
      (enumerate-All (AtKey T key) patterns 0 i every e refl)
