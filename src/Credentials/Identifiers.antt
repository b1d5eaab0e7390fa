-- ===== src/Credentials/Identifiers.antt =====
-- What `portable_identifier` of tool-runtime-core/src/credential_profiles.rs keeps out of a path.
use magic_run.Prelude.{
  ℕ, ◌≤◌, ◌≡◌, ◌≢◌, Bool, true, false, not, [], ◌∷◌, Text, codes, arith, leb→le, ◌==◌, any, all,
  →holds, Text-discrete, byte_len, is_control,
}
use magic_run.Prelude.Sets.{none_of}
use magic_run.Credentials.Profiles.{portable_byte, portable_identifier, contains_dots}

-- A text that is one harmless name of a directory entry.
pub record IsName (value : Text) (max_bytes : ℕ) : Type 0 where
  pub slashless : any (λ c. c == b'/') value ≡ false
  pub backslashless : any (λ c. c == b'\\') value ≡ false
  pub printable : any is_control value ≡ false
  pub dotless : contains_dots value ≡ false
  pub not_here : value ≢ codes "."
  pub not_parent : value ≢ codes ".."
  pub not_empty : value ≢ codes ""
  pub short : byte_len value ≤ max_bytes

portable_byte-apart :
    (allow_at : Bool) (c : ℕ)
    → portable_byte allow_at c ≡ true
    → (c == b'/' ≡ false) × (c == b'\\' ≡ false) × (is_control c ≡ false)
unfolding portable_byte is_control
portable_byte-apart allow_at c h = (ground (arith), ground (arith), ground (arith))

nonempty : (value : Text) → not (byte_len value == 0) ≡ true → value ≢ codes ""
unfolding byte_len
nonempty [] h e = cc
nonempty (c ∷ value) h e = cc

-- An accepted identifier has no separator, no control character, and no two dots in a row, is
-- neither empty nor a name of the same or the parent directory, and keeps to the limit.
pub portable_identifier-IsName :
    (value : Text) (max_bytes : ℕ) (allow_at : Bool)
    → portable_identifier value max_bytes allow_at ≡ true
    → IsName value max_bytes
unfolding portable_identifier
portable_identifier-IsName value max_bytes allow_at h =
    let every : all (portable_byte allow_at) value ≡ true = ground (arith) in
    record {
      slashless =
          none_of (portable_byte allow_at) _ (λ c p. (portable_byte-apart allow_at c p).0) value
            every;
      backslashless =
          none_of (portable_byte allow_at) _ (λ c p. (portable_byte-apart allow_at c p).1) value
            every;
      printable =
          none_of (portable_byte allow_at) is_control (λ c p. (portable_byte-apart allow_at c p).2)
            value every;
      dotless = ground (arith);
      not_here = λ e. let same = →holds (Text-discrete value (codes ".")) e in ground (arith);
      not_parent = λ e. let same = →holds (Text-discrete value (codes "..")) e in ground (arith);
      not_empty = λ e. nonempty value (ground (arith)) e;
      short = leb→le _ _ (ground (arith));
    }
