-- ===== src/Redaction/Longest.antt =====
-- The index of tool-runtime-core/src/credential_materialization.rs finds the longest pattern that
-- stands.
use magic_run.Prelude.{
  ℕ, zero, suc, ◌+◌, ◌≡◌, ◌≤◌, refl, sym, ap, subst, Bool, true, false, Option, none, some, List,
  [], ◌∷◌, arith, ok, ltb, ◌==◌, All, length, get_elem?, take_while, drop_while, if_induction,
  Bool-cases, inl, inr, ◌⊎◌,
}
use magic_run.Prelude.Sorting.{sort, IsSorted, sort-IsSorted}
use magic_run.Redaction.Redactor.{
  Bytes, CredentialPatternPrefix, CredentialValueRedactor, pattern_len, prefix_le, enumerate,
  credential_pattern_prefix,
}
use magic_run.Redaction.Scan.{
  Outcome, starts_with, candidates, try_entry, match_entries, match_at_key,
}
use magic_run.Redaction.Index.{candidates-pattern, prefix_le-total, prefix_le_trans}
use magic_run.Redaction.Match.{IsRedactor, IsPattern}

-- The entry's pattern is no longer than this, where it stands.
abbrev pub Below : List Bytes → Bytes → ℕ → CredentialPatternPrefix → Type 0
Below patterns input n e =
    (pattern : Bytes)
    → get_elem? patterns e.pattern_index ≡ some pattern
    → starts_with pattern input ≡ true
    → length pattern ≤ n

length-pattern_len :
    (patterns : List Bytes) (i : ℕ) {pattern : Bytes}
    → get_elem? patterns i ≡ some pattern
    → pattern_len patterns i ≡ length pattern
length-pattern_len [] i e = cc
length-pattern_len (p ∷ patterns) zero {pattern} e = let same : p ≡ pattern = cc in ap length same
length-pattern_len (p ∷ patterns) (suc i) e = length-pattern_len patterns i e

module _ (le : CredentialPatternPrefix → CredentialPatternPrefix → Bool)
    (p : CredentialPatternPrefix → Bool) where
  take_while-All :
      (P : CredentialPatternPrefix → Type 0) (xs : List CredentialPatternPrefix)
      → All P xs
      → All P (take_while p xs)
  take_while-All P [] h = tt
  take_while-All P (x ∷ xs) (h, hs) =
      if_induction (All P) (p x) (λ _. (h, take_while-All P xs hs)) (λ _. tt)

  take_while-IsSorted :
      (xs : List CredentialPatternPrefix) → IsSorted le xs → IsSorted le (take_while p xs)
  take_while-IsSorted [] h = tt
  take_while-IsSorted (x ∷ xs) (low, h) =
      if_induction (IsSorted le) (p x)
        (λ _. (take_while-All (λ y. le x y ≡ true) xs low, take_while-IsSorted xs h)) (λ _. tt)

  drop_while-IsSorted :
      (xs : List CredentialPatternPrefix) → IsSorted le xs → IsSorted le (drop_while p xs)
  drop_while-IsSorted [] h = tt
  drop_while-IsSorted (x ∷ xs) (low, h) =
      if_induction (IsSorted le) (p x) (λ _. drop_while-IsSorted xs h) (λ _. (low, h))

  take_while-holds : (xs : List CredentialPatternPrefix) → All (λ x. p x ≡ true) (take_while p xs)
  take_while-holds [] = tt
  take_while-holds (x ∷ xs) =
      if_induction (All (λ y. p y ≡ true)) (p x) (λ e. (e, take_while-holds xs)) (λ _. tt)

module _ (patterns : List Bytes) (input : Bytes) where
  -- Of two entries of one key the first has the longer pattern.
  first-longer :
      (first later : CredentialPatternPrefix) (key n : ℕ) (p : Bytes)
      → (first.key == key) ≡ true
      → (later.key == key) ≡ true
      → prefix_le patterns first later ≡ true
      → get_elem? patterns first.pattern_index ≡ some p
      → n ≡ length p
      → Below patterns input n later
  unfolding prefix_le
  first-longer first later key n p one two below found same pattern place stands =
      let a = length-pattern_len patterns first.pattern_index found in
      let b = length-pattern_len patterns later.pattern_index place in ground arith

  try_entry-first :
      (found : Option Bytes) (compared n after : ℕ) (next : ℕ → Outcome (Option ℕ × ℕ))
      → try_entry found input compared next ≡ ok (some n, after)
      → ((p : Bytes) × (found ≡ some p) × (n ≡ length p))
        ⊎ (((p : Bytes) → found ≡ some p → starts_with p input ≡ false)
            × ((c : ℕ) × (next c ≡ ok (some n, after))))
  unfolding try_entry
  try_entry-first none compared n after next e = cc
  try_entry-first (some p) compared n after next e = elim (Bool-cases (starts_with p input)) [
    | inl stands ↦ inl (p, refl, ground (arith))
    | inr other ↦ inr (
      λ q same. let value : p ≡ q = cc in subst (λ x. starts_with x input ≡ false) value other,
      (compared + length p, ground (arith)),
    )
  ]

  stands_not : (p : Bytes) → starts_with p input ≡ false → starts_with p input ≡ true → ⊥
  stands_not p x y = cc

  match_entries-longest :
      (entries : List CredentialPatternPrefix) (key compared n after : ℕ)
      → IsSorted (prefix_le patterns) entries
      → All (λ e. (e.key == key) ≡ true) entries
      → match_entries patterns entries input compared ≡ ok (some n, after)
      → All (Below patterns input n) entries
  unfolding match_entries
  match_entries-longest [] key compared n after sorted keyed h = tt
  match_entries-longest (e ∷ entries) key compared n after (low, sorted) (here, keyed) h =
      elim (try_entry-first (get_elem? patterns e.pattern_index) compared n after
        (match_entries patterns entries input) h) [
          | inl (p, found, same) ↦ (
            λ pattern place stands.
                let value : p ≡ pattern = cc in let size = ap length value in omega (arith),
            each entries low keyed p found same,
          )
          | inr (clear, (c, later)) ↦ (
            λ pattern place stands. absurd (stands_not pattern (clear pattern place) stands),
            match_entries-longest entries key c n after sorted keyed later,
          )
        ]
    where
      each :
          (rest : List CredentialPatternPrefix)
          → All (λ y. prefix_le patterns e y ≡ true) rest
          → All (λ y. (y.key == key) ≡ true) rest
          → (p : Bytes) → get_elem? patterns e.pattern_index ≡ some p
          → n ≡ length p
          → All (Below patterns input n) rest
      each [] low keyed p found same = tt
      each (y ∷ rest) (l, low) (k, keyed) p found same =
          (first-longer e y key n p here k l found same, each rest low keyed p found same)

module _ (r : CredentialValueRedactor) (made : IsRedactor r) where
  -- The match of a key is the longest of the patterns of that key.
  pub match_at_key-longest :
      (input : Bytes) (key compared n after : ℕ)
      → match_at_key r input key compared ≡ ok (some n, after)
      → (pattern : Bytes) → IsPattern r pattern
      → credential_pattern_prefix pattern ≡ key
      → starts_with pattern input ≡ true
      → length pattern ≤ n
  unfolding match_at_key candidates
  match_at_key-longest input key compared n after h pattern (i, place) same =
      let sorted = sort (prefix_le r.patterns) (enumerate 0 r.patterns) in
      let is_sorted =
        sort-IsSorted (prefix_le r.patterns) (prefix_le-total r.patterns)
          (prefix_le_trans r.patterns) (enumerate 0 r.patterns) in
      let run : match_entries r.patterns (candidates (credential_pattern_prefix pattern) sorted)
            input compared
          ≡ ok (some n, after) =
        subst
          (λ l.
            match_entries r.patterns (candidates (credential_pattern_prefix pattern) l) input
              compared
            ≡ ok (some n, after))
          made.indexed
          (subst
            (λ k.
              match_entries r.patterns (candidates k r.prefixes) input compared
              ≡ ok (some n, after))
            (sym same) h) in
      let own = credential_pattern_prefix pattern in
      let from = drop_while (λ e. ltb e.key own) sorted in
      let longest =
        match_entries-longest r.patterns input (candidates own sorted) own compared n after
          (take_while-IsSorted (prefix_le r.patterns) (λ e. e.key == own) from
            (drop_while-IsSorted (prefix_le r.patterns) (λ e. ltb e.key own) sorted is_sorted))
          (take_while-holds (prefix_le r.patterns) (λ e. e.key == own) from) run in
      candidates-pattern (Below r.patterns input n) r.patterns i longest place pattern place
