-- ===== src/Redaction/Match.antt =====
-- Where the index of tool-runtime-core/src/credential_materialization.rs finds no match, no
-- pattern stands; where it finds one, that pattern stands there.
use magic_run.Prelude.{
  ℕ, ◌+◌, ◌*◌, ◌≡◌, refl, sym, ◌∙◌, subst, All-get_elem?, Bool, true, false, Option, none, some,
  List, [], ◌∷◌, ok, err, arith, All, length, get_elem?, Bool-cases, inl, inr, ◌⊎◌,
}
use magic_run.Prelude.Sorting.{sort}
use magic_run.Redaction.Redactor.{
  Bytes, CredentialPatternPrefix, CredentialValueRedactor, prefix_le, enumerate,
  credential_pattern_prefix, is_empty, is_absent,
}
use magic_run.Redaction.Scan.{
  Outcome, ◌>>=◌, starts_with, candidates, try_entry, match_entries, match_at_key, match_two,
  match_one, match_here,
}
use magic_run.Redaction.Index.{candidates-pattern}

-- What `new` makes of its patterns.
pub record IsRedactor (r : CredentialValueRedactor) : Type 0 where
  pub indexed : r.prefixes ≡ sort (prefix_le r.patterns) (enumerate 0 r.patterns)
  pub nonempty : All (λ p. is_empty p ≡ false) r.patterns
  pub absent : is_absent r.patterns r.replacement ≡ true

abbrev pub IsPattern : CredentialValueRedactor → Bytes → Type 0
IsPattern r pattern = (i : ℕ) × (get_elem? r.patterns i ≡ some pattern)

-- No pattern stands at the head of the input.
abbrev pub IsClear : CredentialValueRedactor → Bytes → Type 0
IsClear r input = (pattern : Bytes) → IsPattern r pattern → starts_with pattern input ≡ false

abbrev NotHere : List Bytes → Bytes → CredentialPatternPrefix → Type 0
NotHere patterns input e =
    (pattern : Bytes)
    → get_elem? patterns e.pattern_index ≡ some pattern
    → starts_with pattern input ≡ false

abbrev Next : Type 0
Next = ℕ → Outcome (Option ℕ × ℕ)

try_entry-none :
    (found : Option Bytes) (input : Bytes) (compared after : ℕ) (next : Next)
    → try_entry found input compared next ≡ ok (none, after)
    → ((pattern : Bytes) → found ≡ some pattern → starts_with pattern input ≡ false)
      × ((c : ℕ) × (next c ≡ ok (none, after)))
unfolding try_entry
try_entry-none none input compared after next e = cc
try_entry-none (some p) input compared after next e = (
  λ pattern same.
      let value : p ≡ pattern = cc in
      subst (λ q. starts_with q input ≡ false) value (ground (arith)),
  (compared + length p, ground (arith)),
)

match_entries-none :
    (patterns : List Bytes) (entries : List CredentialPatternPrefix) (input : Bytes)
    (compared after : ℕ)
    → match_entries patterns entries input compared ≡ ok (none, after)
    → All (NotHere patterns input) entries
unfolding match_entries
match_entries-none patterns [] input compared after e = tt
match_entries-none patterns (entry ∷ rest) input compared after e =
    let (here, (c, later)) =
      try_entry-none (get_elem? patterns entry.pattern_index) input compared after
        (match_entries patterns rest input) e in
    (here, match_entries-none patterns rest input c after later)

try_entry-some :
    (found : Option Bytes) (input : Bytes) (compared n after : ℕ) (next : Next)
    → try_entry found input compared next ≡ ok (some n, after)
    → ((pattern : Bytes) × (found ≡ some pattern)
        × (starts_with pattern input ≡ true)
        × (n ≡ length pattern))
      ⊎ ((c : ℕ) × (next c ≡ ok (some n, after)))
unfolding try_entry
try_entry-some none input compared n after next e = cc
try_entry-some (some p) input compared n after next e = elim (Bool-cases (starts_with p input)) [
  | inl stands ↦ inl (p, refl, stands, ground (arith))
  | inr other ↦ inr (compared + length p, ground (arith))
]

-- A pattern of this length stands at the head of the input.
abbrev pub Stands : CredentialValueRedactor → Bytes → ℕ → Type 0
Stands r input n =
    (pattern : Bytes) × IsPattern r pattern
    × (starts_with pattern input ≡ true)
    × (n ≡ length pattern)

module _ (r : CredentialValueRedactor) where
  match_entries-some :
      (entries : List CredentialPatternPrefix) (input : Bytes) (compared n after : ℕ)
      → match_entries r.patterns entries input compared ≡ ok (some n, after)
      → Stands r input n
  unfolding match_entries
  match_entries-some [] input compared n after e = cc
  match_entries-some (entry ∷ rest) input compared n after e =
      elim (try_entry-some (get_elem? r.patterns entry.pattern_index) input compared n after
        (match_entries r.patterns rest input) e) [
          | inl (pattern, found, stands, same) ↦
              (pattern, (entry.pattern_index, found), stands, same)
          | inr (c, later) ↦ match_entries-some rest input c n after later
        ]

  module _ (made : IsRedactor r) where
    pub match_at_key-none :
        (input : Bytes) (key compared after : ℕ)
        → match_at_key r input key compared ≡ ok (none, after)
        → (pattern : Bytes) → IsPattern r pattern
        → credential_pattern_prefix pattern ≡ key
        → starts_with pattern input ≡ false
    unfolding match_at_key
    match_at_key-none input key compared after e pattern (i, found) same =
        let entries = candidates key r.prefixes in
        let clear = match_entries-none r.patterns entries input compared after e in
        let at_key =
          subst (λ k. All (NotHere r.patterns input) (candidates k r.prefixes)) (sym same) clear in
        let sorted =
          subst
            (λ l. All (NotHere r.patterns input) (candidates (credential_pattern_prefix pattern) l))
            made.indexed at_key in
        candidates-pattern (NotHere r.patterns input) r.patterns i sorted found pattern found

    pub two_bytes :
        (a b c d : ℕ) (pattern rest : Bytes)
        → starts_with (a ∷ b ∷ pattern) (c ∷ d ∷ rest) ≡ true
        → credential_pattern_prefix (a ∷ b ∷ pattern) ≡ 256 + c * 256 + d
    unfolding starts_with credential_pattern_prefix
    two_bytes a b c d pattern rest e = ground arith

    pub one_byte :
        (a c : ℕ) (rest : Bytes)
        → starts_with (a ∷ []) (c ∷ rest) ≡ true
        → credential_pattern_prefix (a ∷ []) ≡ c
    unfolding starts_with credential_pattern_prefix
    one_byte a c rest e = ground arith

    pub too_long : (a b c : ℕ) (pattern : Bytes) → starts_with (a ∷ b ∷ pattern) (c ∷ []) ≡ false
    unfolding starts_with
    too_long a b c pattern = ground arith

    -- Both attempts failed.
    match_here_parts :
        (c : ℕ) (rest : Bytes) (compared after : ℕ)
        → match_here r c rest compared ≡ ok (none, after)
        → (middle : ℕ) × (match_two r (c ∷ rest) compared ≡ ok (none, middle))
          × (match_at_key r (c ∷ rest) c middle ≡ ok (none, after))
    unfolding match_here match_one
    match_here_parts c rest compared after e = parts (match_two r (c ∷ rest) compared) refl e
      where
        parts :
            (first : Outcome (Option ℕ × ℕ))
            → match_two r (c ∷ rest) compared ≡ first
            → (first >>= match_one r c (c ∷ rest)) ≡ ok (none, after)
            → (middle : ℕ) × (match_two r (c ∷ rest) compared ≡ ok (none, middle))
              × (match_at_key r (c ∷ rest) c middle ≡ ok (none, after))
        parts (err failure) same e' = cc
        parts (ok (some n, middle)) same e' = cc
        parts (ok (none, middle)) same e' = (middle, same, e')

    pub not_true : (b : Bool) → (b ≡ true → b ≡ false) → b ≡ false
    not_true true f = f refl
    not_true false f = refl

    pub clear_here :
        (c : ℕ) (rest : Bytes) (compared middle after : ℕ)
        → match_two r (c ∷ rest) compared ≡ ok (none, middle)
        → match_at_key r (c ∷ rest) c middle ≡ ok (none, after)
        → (pattern : Bytes) → is_empty pattern ≡ false
        → IsPattern r pattern
        → starts_with pattern (c ∷ rest) ≡ false
    unfolding match_two
    clear_here c rest compared middle after two one [] full found = cc
    clear_here c rest compared middle after two one (a ∷ []) full found = not_true _ (λ stands.
        match_at_key-none (c ∷ rest) c middle after one (a ∷ []) found (one_byte a c rest stands))
    clear_here c [] compared middle after two one (a ∷ b ∷ pattern) full found =
        too_long a b c pattern
    clear_here c (d ∷ rest) compared middle after two one (a ∷ b ∷ pattern) full found =
        not_true _ (λ stands.
          match_at_key-none (c ∷ d ∷ rest) (256 + c * 256 + d) compared middle two (a ∷ b ∷ pattern)
            found (two_bytes a b c d pattern rest stands))

    pub match_here-IsClear :
        (c : ℕ) (rest : Bytes) (compared after : ℕ)
        → match_here r c rest compared ≡ ok (none, after)
        → IsClear r (c ∷ rest)
    match_here-IsClear c rest compared after e pattern (i, found) =
        let (middle, two, one) = match_here_parts c rest compared after e in
        clear_here c rest compared middle after two one pattern
          (All-get_elem? (λ p. is_empty p ≡ false) r.patterns i made.nonempty found) (i, found)

  pub match_two-some :
      (input : Bytes) (compared n after : ℕ)
      → match_two r input compared ≡ ok (some n, after)
      → Stands r input n
  unfolding match_two match_at_key
  match_two-some [] compared n after e = cc
  match_two-some (a ∷ []) compared n after e = cc
  match_two-some (a ∷ b ∷ rest) compared n after e = match_entries-some _ _ compared n after e

  pub match_here-Stands :
      (c : ℕ) (rest : Bytes) (compared n after : ℕ)
      → match_here r c rest compared ≡ ok (some n, after)
      → Stands r (c ∷ rest) n
  unfolding match_here match_at_key match_one
  match_here-Stands c rest compared n after e = parts (match_two r (c ∷ rest) compared) refl e
    where
      parts :
          (first : Outcome (Option ℕ × ℕ))
          → match_two r (c ∷ rest) compared ≡ first
          → (first >>= match_one r c (c ∷ rest)) ≡ ok (some n, after)
          → Stands r (c ∷ rest) n
      parts (err failure) same e' = cc
      parts (ok (some m, middle)) same e' = match_two-some (c ∷ rest) compared n after (same ∙ e')
      parts (ok (none, middle)) same e' = match_entries-some _ _ middle n after e'
