-- ===== src/Redaction/Redactor.antt =====
-- `CredentialValueRedactor::new` of tool-runtime-core/src/credential_materialization.rs. A buffer
-- is the list of its bytes. No buffer has 2^63 bytes, so sums of two lengths do not overflow.
use magic_run.Prelude.{
  ℕ, suc, zero, ◌+◌, ◌*◌, ◌%◌, Bool, true, false, ◌&&◌, ◌||◌, not, List, [], ◌∷◌, Text-discrete,
  Result, ok, guard, ok_or, ◌>>=◌, ◌>>◌, ltb, leb, ◌==◌, any, all, find, length, holds,
  if◌then◌else◌,
}
use magic_run.Prelude.Sorting.{sort}
use magic_run.Redaction.Error.{CredentialMaterializationError}
use magic_run.Redaction.Errors.{redaction_marker_unavailable, redaction_pattern_limit_exceeded}

abbrev pub Bytes : Type 0
Bytes = List ℕ

abbrev pub preferred_credential_redaction_byte : ℕ
preferred_credential_redaction_byte = b'*'

abbrev pub max_redaction_comparison_bytes : ℕ
max_redaction_comparison_bytes = 128 * 1024 * 1024

abbrev pub max_total_prepared_credential_bytes : ℕ
max_total_prepared_credential_bytes = 4 * 1024 * 1024

abbrev pub max_redaction_pattern_bytes : ℕ
max_redaction_pattern_bytes = max_total_prepared_credential_bytes + 2 * 1024 * 1024

abbrev pub max_redaction_patterns : ℕ
max_redaction_patterns = 64 + 64 + 1

pub record CredentialPatternPrefix : Type 0 where
  pub key : ℕ
  pub pattern_index : ℕ

pub record CredentialValueRedactor : Type 0 where
  pub patterns : List Bytes
  pub prefixes : List CredentialPatternPrefix
  pub replacement : ℕ

-- The order of byte slices.
unfoldable pub bytes_le : Bytes → Bytes → Bool
bytes_le [] right = true
bytes_le (a ∷ left) [] = false
bytes_le (a ∷ left) (b ∷ right) = let rest = bytes_le left right in ltb a b || (a == b && rest)

-- Longer patterns first, and those of one length by their bytes.
unfoldable pub pattern_le : Bytes → Bytes → Bool
pattern_le left right =
    ltb (length right) (length left) || (length left == length right && bytes_le left right)

abbrev pub keep_new : Bytes → List Bytes → List Bytes
keep_new pattern [] = pattern ∷ []
keep_new pattern (next ∷ rest) =
    if holds (Text-discrete pattern next) then next ∷ rest else pattern ∷ next ∷ rest

-- `dedup_by` on equal neighbours
unfoldable pub dedup : List Bytes → List Bytes
dedup [] = []
dedup (pattern ∷ rest) = keep_new pattern (dedup rest)

abbrev pub is_empty : Bytes → Bool
is_empty [] = true
is_empty (c ∷ rest) = false

unfoldable pub total_bytes : List Bytes → ℕ
total_bytes [] = 0
total_bytes (pattern ∷ rest) = length pattern + total_bytes rest

-- The bytes from the preferred one on, with wrap-around.
unfoldable pub marker_candidates : ℕ → ℕ → List ℕ
marker_candidates zero offset = []
marker_candidates (suc n) offset =
    ((preferred_credential_redaction_byte + offset) % 256) ∷ marker_candidates n (offset + 1)

unfoldable pub is_absent : List Bytes → ℕ → Bool
is_absent patterns candidate = all (λ pattern. not (any (λ c. c == candidate) pattern)) patterns

unfoldable pub credential_pattern_prefix : Bytes → ℕ
credential_pattern_prefix [] = 0
credential_pattern_prefix (a ∷ []) = a
credential_pattern_prefix (a ∷ b ∷ rest) = 256 + a * 256 + b

unfoldable pub enumerate : ℕ → List Bytes → List CredentialPatternPrefix
enumerate index [] = []
enumerate index (pattern ∷ rest) =
    record { key = credential_pattern_prefix pattern; pattern_index = index }
    ∷ enumerate (index + 1) rest

abbrev pub pattern_len : List Bytes → ℕ → ℕ
pattern_len [] index = 0
pattern_len (pattern ∷ rest) zero = length pattern
pattern_len (pattern ∷ rest) (suc index) = pattern_len rest index

-- By key, and the longer patterns of a key first.
unfoldable pub prefix_le : List Bytes → CredentialPatternPrefix → CredentialPatternPrefix → Bool
prefix_le patterns left right =
    ltb left.key right.key
    || (left.key == right.key
        && leb (pattern_len patterns right.pattern_index) (pattern_len patterns left.pattern_index))

unfoldable pub redactor_new :
    List Bytes → Result CredentialMaterializationError CredentialValueRedactor
redactor_new given = do
  let patterns = dedup (sort pattern_le given)
  guard (not (ltb max_redaction_patterns (length patterns) || any is_empty patterns))
      redaction_pattern_limit_exceeded
  guard (leb (total_bytes patterns) max_redaction_pattern_bytes) redaction_pattern_limit_exceeded
  replacement ←
      ok_or (find (is_absent patterns) (marker_candidates 256 0)) redaction_marker_unavailable
  ok (record {
    patterns = patterns;
    prefixes = sort (prefix_le patterns) (enumerate 0 patterns);
    replacement = replacement;
  })
