-- ===== src/Redaction/Reference.antt =====
-- The matcher of tool-runtime-core/src/credential_materialization.rs against a search through all
-- patterns.
use magic_run.Prelude.{
  ℕ, zero, suc, ◌+◌, ◌*◌, ◌≡◌, ◌≤◌, refl, ap, ◌∙◌, subst, Bool, true, false, Option, none, some,
  List, [], ◌∷◌, arith, ok, err, ltb, length, get_elem?, if◌then◌else◌, if_induction,
}
use magic_run.Redaction.Redactor.{Bytes, CredentialValueRedactor, redactor_new}
use magic_run.Redaction.Scan.{
  Outcome, ◌>>=◌, starts_with, match_at_key, match_two, match_one, match_here,
}
use magic_run.Redaction.Match.{
  IsRedactor, IsPattern, match_here-IsClear, match_here-Stands, match_two-some, match_at_key-none,
  two_bytes, one_byte, too_long,
}
use magic_run.Redaction.Scrub.{length_pattern}
use magic_run.Redaction.Made.{redactor_new-IsRedactor}
use magic_run.Redaction.Longest.{match_at_key-longest}

abbrev longer : Option ℕ → ℕ → Option ℕ
longer none n = some n
longer (some current) n = if ltb current n then some n else some current

-- The length of the longest pattern that stands at the head of the input.
unfoldable pub longest_standing : List Bytes → Bytes → Option ℕ
longest_standing [] input = none
longest_standing (pattern ∷ patterns) input =
    let rest = longest_standing patterns input in
    if starts_with pattern input then longer rest (length pattern) else rest

apart : (b : Bool) → b ≡ false → b ≡ true → ⊥
apart b x y = cc

-- No pattern that stands is longer.
abbrev IsLongest : CredentialValueRedactor → Bytes → ℕ → Type 0
IsLongest r input n =
    (pattern : Bytes) → IsPattern r pattern → starts_with pattern input ≡ true → length pattern ≤ n

module _ (r : CredentialValueRedactor) (made : IsRedactor r) where
  match_two-IsLongest :
      (a b : ℕ) (rest : Bytes) (compared n after : ℕ)
      → match_two r (a ∷ b ∷ rest) compared ≡ ok (some n, after)
      → IsLongest r (a ∷ b ∷ rest) n
  unfolding match_two
  match_two-IsLongest a b rest compared n after h [] found stands =
      let full = length_pattern r made [] found in absurd (omega arith)
  match_two-IsLongest a b rest compared n after h (x ∷ []) found stands =
      let (pattern, place, head, same) = match_two-some r (a ∷ b ∷ rest) compared n after h in
      let full = length_pattern r made pattern place in omega arith
  match_two-IsLongest a b rest compared n after h (x ∷ y ∷ pattern) found stands =
      match_at_key-longest r made (a ∷ b ∷ rest) (256 + a * 256 + b) compared n after h
        (x ∷ y ∷ pattern) found (two_bytes r made x y a b pattern rest stands) stands

  match_one-IsLongest :
      (c : ℕ) (rest : Bytes) (compared middle n after : ℕ)
      → match_two r (c ∷ rest) compared ≡ ok (none, middle)
      → match_at_key r (c ∷ rest) c middle ≡ ok (some n, after)
      → IsLongest r (c ∷ rest) n
  unfolding match_two
  match_one-IsLongest c rest compared middle n after two one [] found stands =
      let full = length_pattern r made [] found in absurd (omega arith)
  match_one-IsLongest c rest compared middle n after two one (x ∷ []) found stands =
      match_at_key-longest r made (c ∷ rest) c middle n after one (x ∷ []) found
        (one_byte r made x c rest stands) stands
  match_one-IsLongest c [] compared middle n after two one (x ∷ y ∷ pattern) found stands =
      absurd (apart _ (too_long r made x y c pattern) stands)
  match_one-IsLongest c (d ∷ rest) compared middle n after two one (x ∷ y ∷ pattern) found stands =
      absurd (
        apart _
          (match_at_key-none r made (c ∷ d ∷ rest) (256 + c * 256 + d) compared middle two
            (x ∷ y ∷ pattern) found (two_bytes r made x y c d pattern rest stands))
          stands)

  pub match_here-IsLongest :
      (c : ℕ) (rest : Bytes) (compared n after : ℕ)
      → match_here r c rest compared ≡ ok (some n, after)
      → IsLongest r (c ∷ rest) n
  unfolding match_here match_one match_two
  match_here-IsLongest c rest compared n after h = parts (match_two r (c ∷ rest) compared) refl h
    where
      some_two :
          (rest : Bytes) (m middle : ℕ)
          → match_two r (c ∷ rest) compared ≡ ok (some m, middle)
          → IsLongest r (c ∷ rest) m
      some_two [] m middle e = cc
      some_two (b ∷ rest) m middle e = match_two-IsLongest c b rest compared m middle e

      parts :
          (first : Outcome (Option ℕ × ℕ))
          → match_two r (c ∷ rest) compared ≡ first
          → (first >>= match_one r c (c ∷ rest)) ≡ ok (some n, after)
          → IsLongest r (c ∷ rest) n
      parts (err failure) same e = cc
      parts (ok (some m, middle)) same e = some_two rest n after (same ∙ e)
      parts (ok (none, middle)) same e = match_one-IsLongest c rest compared middle n after same e

-- No pattern of the list that stands is longer.
abbrev Bounds : List Bytes → Bytes → ℕ → Type 0
Bounds patterns input n =
    (p : Bytes) (i : ℕ) → get_elem? patterns i ≡ some p → starts_with p input ≡ true → length p ≤ n

abbrev Stays : List Bytes → Bytes → ℕ → Type 0
Stays patterns input n =
    (p : Bytes) × ((i : ℕ) × (get_elem? patterns i ≡ some p))
    × (starts_with p input ≡ true)
    × (n ≡ length p)

-- What the search finds.
abbrev Searched : List Bytes → Bytes → Option ℕ → Type 0
Searched patterns input none =
    (p : Bytes) (i : ℕ) → get_elem? patterns i ≡ some p → starts_with p input ≡ false
Searched patterns input (some m) = Stays patterns input m × Bounds patterns input m

module _ (q : Bytes) (patterns : List Bytes) (input : Bytes) where
  none-cons :
      starts_with q input ≡ false
      → Searched patterns input none
      → Searched (q ∷ patterns) input none
  none-cons away h p zero e =
      let same : q ≡ p = cc in subst (λ x. starts_with x input ≡ false) same away
  none-cons away h p (suc i) e = h p i e

  Stays-cons : (n : ℕ) → Stays patterns input n → Stays (q ∷ patterns) input n
  Stays-cons n (p, (i, place), stands, same) = (p, (suc i, place), stands, same)

  Bounds-cons :
      (n : ℕ)
      → (starts_with q input ≡ true → length q ≤ n)
      → Bounds patterns input n
      → Bounds (q ∷ patterns) input n
  Bounds-cons n head most p zero e stands =
      let same : q ≡ p = cc in
      subst (λ x. starts_with x input ≡ true → length x ≤ n) same head stands
  Bounds-cons n head most p (suc i) e stands = most p i e stands

  Searched-away :
      (o : Option ℕ)
      → starts_with q input ≡ false
      → Searched patterns input o
      → Searched (q ∷ patterns) input o
  Searched-away none away h = none-cons away h
  Searched-away (some m) away (found, most) =
      (Stays-cons m found, Bounds-cons m (λ stands. absurd (apart _ away stands)) most)

  Searched-here :
      (o : Option ℕ)
      → starts_with q input ≡ true
      → Searched patterns input o
      → Searched (q ∷ patterns) input (longer o (length q))
  Searched-here none here h = (
    (q, (0, refl), here, refl),
    Bounds-cons (length q) (λ _. omega arith) (λ p i e stands. absurd (apart _ (h p i e) stands)),
  )
  Searched-here (some m) here (found, most) =
      if_induction (Searched (q ∷ patterns) input) (ltb m (length q))
        (λ more. (
          (q, (0, refl), here, refl),
          Bounds-cons (length q) (λ _. omega arith)
              (λ p i e stands. let old = most p i e stands in ground (arith)),
        ))
        (λ less. (Stays-cons m found, Bounds-cons m (λ _. ground arith) most))

longest_standing-Searched :
    (patterns : List Bytes) (input : Bytes)
    → Searched patterns input (longest_standing patterns input)
unfolding longest_standing
longest_standing-Searched [] input = λ p i e. cc
longest_standing-Searched (q ∷ patterns) input =
    let found = longest_standing-Searched patterns input in
    if_induction (Searched (q ∷ patterns) input) (starts_with q input)
      (λ here. Searched-here q patterns input (longest_standing patterns input) here found)
      (λ away. Searched-away q patterns input (longest_standing patterns input) away found)

-- The search has one answer.
module _ (patterns : List Bytes) (input : Bytes) where
  Searched-unique :
      (o o' : Option ℕ) → Searched patterns input o → Searched patterns input o' → o ≡ o'
  Searched-unique none none h h' = refl
  Searched-unique none (some m) h ((p, (i, place), stands, same), most) =
      absurd (apart _ (h p i place) stands)
  Searched-unique (some m) none ((p, (i, place), stands, same), most) h =
      absurd (apart _ (h p i place) stands)
  Searched-unique (some m) (some m') ((p, (i, place), stands, same), most)
        ((p', (i', place'), stands', same'), most') =
      let up = most p' i' place' stands' in
      let down = most' p i place stands in let value : m ≡ m' = omega arith in ap some value

module _ (r : CredentialValueRedactor) (made : IsRedactor r) where
  match_here-Searched :
      (c : ℕ) (rest : Bytes) (compared after : ℕ) (found : Option ℕ)
      → match_here r c rest compared ≡ ok (found, after)
      → Searched r.patterns (c ∷ rest) found
  match_here-Searched c rest compared after none h =
      λ p i place. match_here-IsClear r made c rest compared after h p (i, place)
  match_here-Searched c rest compared after (some n) h = (
    match_here-Stands r c rest compared n after h,
    λ p i place stands. match_here-IsLongest r made c rest compared n after h p (i, place) stands,
  )

-- Where the matcher of a redactor answers at a position, its answer is that of a search through all
-- patterns: the length of the longest pattern that stands there, or none where no pattern stands.
pub match_here-longest_standing :
    (secrets : List Bytes) (r : CredentialValueRedactor) (c : ℕ) (rest : Bytes) (compared after : ℕ)
    (found : Option ℕ)
    → redactor_new secrets ≡ ok r
    → match_here r c rest compared ≡ ok (found, after)
    → found ≡ longest_standing r.patterns (c ∷ rest)
match_here-longest_standing secrets r c rest compared after found built h =
    let made = redactor_new-IsRedactor secrets built in
    Searched-unique r.patterns (c ∷ rest) found (longest_standing r.patterns (c ∷ rest))
      (match_here-Searched r made c rest compared after found h)
      (longest_standing-Searched r.patterns (c ∷ rest))
