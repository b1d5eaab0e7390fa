-- ===== src/Redaction/Scan.antt =====
-- The matcher and the redaction of one buffer of
-- tool-runtime-core/src/credential_materialization.rs. A position in a buffer is what is left of
-- it from there; the bytes compared so far are passed along.
use magic_run.Prelude.{
  ℕ, suc, zero, ◌+◌, ◌*◌, Bool, true, false, Option, none, some, List, [], ◌∷◌, ◌++◌, ok, err,
  Result, ltb, ◌==◌, length, drop, get_elem?, take_while, drop_while, if◌then◌else◌,
}
use magic_run.Redaction.Error.{CredentialMaterializationError}
use magic_run.Redaction.Errors.{
  prepared_material_mismatch, redaction_work_limit_exceeded, redaction_input_too_large,
  redaction_output_too_large,
}
use magic_run.Redaction.Redactor.{
  Bytes, CredentialPatternPrefix, CredentialValueRedactor, max_redaction_comparison_bytes,
}

abbrev pub max_redaction_input_bytes : ℕ
max_redaction_input_bytes = 1024 * 1024

abbrev pub max_redaction_output_bytes : ℕ
max_redaction_output_bytes = 8 * 1024 * 1024

-- `out_of_fuel` is the model's own: no loop of the code runs into it.
pub data Failure : Type 0 where
  failed : CredentialMaterializationError → Failure
  out_of_fuel : Failure

abbrev pub Outcome : Type 0 → Type 0
Outcome = Result Failure

infixl 5 ◌>>=◌
abbrev pub ◌>>=◌ : {A B : Type 0} → Outcome A → (A → Outcome B) → Outcome B
ok value >>= rest = rest value
err failure >>= rest = err failure

-- `input.get(position..position + pattern.len()) == Some(pattern)`
unfoldable pub starts_with : Bytes → Bytes → Bool
starts_with [] input = true
starts_with (a ∷ pattern) [] = false
starts_with (a ∷ pattern) (c ∷ input) =
    let rest = starts_with pattern input in if a == c then rest else false

-- The entries of a key, which stand together.
unfoldable pub candidates : ℕ → List CredentialPatternPrefix → List CredentialPatternPrefix
candidates key prefixes = take_while (λ e. e.key == key) (drop_while (λ e. ltb e.key key) prefixes)

unfoldable pub try_entry :
    Option Bytes → Bytes → ℕ → (ℕ → Outcome (Option ℕ × ℕ)) → Outcome (Option ℕ × ℕ)
try_entry none input compared next = err (failed prepared_material_mismatch)
try_entry (some pattern) input compared next =
    if ltb max_redaction_comparison_bytes (compared + length pattern)
    then err (failed redaction_work_limit_exceeded)
    else if starts_with pattern input
    then ok (some (length pattern), compared + length pattern)
    else next (compared + length pattern)

-- The length of the first entry's pattern that stands here.
unfoldable pub match_entries :
    List Bytes → List CredentialPatternPrefix → Bytes → ℕ → Outcome (Option ℕ × ℕ)
match_entries patterns [] input compared = ok (none, compared)
match_entries patterns (entry ∷ rest) input compared =
    try_entry (get_elem? patterns entry.pattern_index) input compared
      (match_entries patterns rest input)

unfoldable pub match_at_key : CredentialValueRedactor → Bytes → ℕ → ℕ → Outcome (Option ℕ × ℕ)
match_at_key r input key compared =
    match_entries r.patterns (candidates key r.prefixes) input compared

-- The key of two bytes, where there are two.
unfoldable pub match_two : CredentialValueRedactor → Bytes → ℕ → Outcome (Option ℕ × ℕ)
match_two r [] compared = ok (none, compared)
match_two r (a ∷ []) compared = ok (none, compared)
match_two r (a ∷ b ∷ rest) compared = match_at_key r (a ∷ b ∷ rest) (256 + a * 256 + b) compared

unfoldable pub match_one :
    CredentialValueRedactor → ℕ → Bytes → Option ℕ × ℕ → Outcome (Option ℕ × ℕ)
match_one r first input (some n, compared) = ok (some n, compared)
match_one r first input (none, compared) = match_at_key r input first compared

-- Both attempts of `find_next` at one position.
unfoldable pub match_here : CredentialValueRedactor → ℕ → Bytes → ℕ → Outcome (Option ℕ × ℕ)
match_here r first rest compared =
    match_two r (first ∷ rest) compared >>= match_one r first (first ∷ rest)

-- What stands before the match, the length of the match, and what follows it.
abbrev pub Found : Type 0
Found = Option (Bytes × ℕ × Bytes)

abbrev pub prepend : ℕ → Found × ℕ → Outcome (Found × ℕ)
prepend c (none, compared) = ok (none, compared)
prepend c (some (before, n, after), compared) = ok (some (c ∷ before, n, after), compared)

abbrev pub found_or : ℕ → Bytes → (ℕ → Outcome (Found × ℕ)) → Option ℕ × ℕ → Outcome (Found × ℕ)
found_or c rest next (some n, compared) = ok (some ([], n, drop n (c ∷ rest)), compared)
found_or c rest next (none, compared) = next compared >>= prepend c

unfoldable pub find_next : CredentialValueRedactor → Bytes → ℕ → Outcome (Found × ℕ)
find_next r [] compared = ok (none, compared)
find_next r (c ∷ rest) compared =
    match_here r c rest compared >>= found_or c rest (find_next r rest)

unfoldable pub append_bounded_to : Bytes → Bytes → ℕ → Outcome Bytes
append_bounded_to output bytes maximum =
    if ltb maximum (length output + length bytes)
    then err (failed redaction_output_too_large)
    else ok (output ++ bytes)

unfoldable pub copy_stage :
    CredentialValueRedactor
    → ℕ
    → Bytes
    → Bytes
    → (Bytes → Bytes → ℕ → Outcome Bytes)
    → Found × ℕ
    → Outcome Bytes
copy_stage r max_output input output again (none, compared) =
    append_bounded_to output input max_output
copy_stage r max_output input output again (some (before, n, after), compared) =
    append_bounded_to output before max_output >>= λ copied.
    append_bounded_to copied (r.replacement ∷ []) max_output >>= λ marked.
    again after marked compared

-- The `while let` of `redact_with_limits`, and what follows it.
unfoldable pub redact_loop : ℕ → CredentialValueRedactor → ℕ → Bytes → Bytes → ℕ → Outcome Bytes
redact_loop zero r max_output input output compared = err out_of_fuel
redact_loop (suc fuel) r max_output input output compared =
    find_next r input compared
    >>= copy_stage r max_output input output (redact_loop fuel r max_output)

abbrev pub has_patterns : List Bytes → Bool
has_patterns [] = false
has_patterns (pattern ∷ rest) = true

unfoldable pub redact_with_limits : CredentialValueRedactor → Bytes → ℕ → ℕ → Outcome Bytes
redact_with_limits r input max_input max_output =
    if ltb max_input (length input)
    then err (failed redaction_input_too_large)
    else if has_patterns r.patterns
    then redact_loop (length input + 1) r max_output input [] 0
    else ok input

unfoldable pub redact : CredentialValueRedactor → Bytes → Outcome Bytes
redact r input = redact_with_limits r input max_redaction_input_bytes max_redaction_output_bytes
