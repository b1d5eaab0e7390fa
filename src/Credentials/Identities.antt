-- ===== src/Credentials/Identities.antt =====
-- `ExpectedCredentialIdentity::new` of tool-runtime-core/src/credential_profiles.rs.
use magic_run.Prelude.{
  ℕ, Bool, false, ◌||◌, ◌&&◌, [], ◌∷◌, Text, Result, guard, ltb, leb, ◌==◌, any, not, byte_len,
  is_control,
}
use magic_run.Prelude.Sets.{is_nil}
use magic_run.Credentials.Error.{CredentialProfileErrorCode, CredentialProfileError}
use magic_run.Credentials.Errors.{made}

abbrev pub max_expected_identity_bytes : ℕ
max_expected_identity_bytes = 1024

-- `char::is_whitespace`
unfoldable pub is_whitespace : ℕ → Bool
is_whitespace c =
    (leb 0x09 c && leb c 0x0d)
    || c == 0x20
    || c == 0x85
    || c == 0xa0
    || c == 0x1680
    || (leb 0x2000 c && leb c 0x200a)
    || c == 0x2028
    || c == 0x2029
    || c == 0x202f
    || c == 0x205f
    || c == 0x3000

abbrev last_is_whitespace : Text → Bool
last_is_whitespace [] = false
last_is_whitespace (c ∷ []) = is_whitespace c
last_is_whitespace (c ∷ d ∷ rest) = last_is_whitespace (d ∷ rest)

abbrev first_is_whitespace : Text → Bool
first_is_whitespace [] = false
first_is_whitespace (c ∷ rest) = is_whitespace c

-- `value.trim() != value`
abbrev pub is_padded : Text → Bool
is_padded value = first_is_whitespace value || last_is_whitespace value

unfoldable pub validate_expected_identity : Text → Result CredentialProfileError (Unit {0})
validate_expected_identity value =
    guard
      (not (
        is_nil value
        || ltb max_expected_identity_bytes (byte_len value)
        || is_padded value
        || any is_control value))
      (made CredentialProfileErrorCode.invalid_expected_identity "expected_identity"
        "expected identities must be bounded nonempty control-free metadata")
