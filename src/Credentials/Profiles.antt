-- ===== src/Credentials/Profiles.antt =====
-- Identifiers and profile records of tool-runtime-core/src/credential_profiles.rs. The errors of a
-- refused identifier are replaced by their callers here, and left out.
use magic_run.Prelude.{
  ℕ, Bool, false, ◌&&◌, ◌||◌, not, Option, [], ◌∷◌, Text, codes, leb, ◌==◌, all, holds,
  Text-discrete, byte_len, is_alphanumeric,
}
use magic_run.Manifest.Auth.{AuthState}
use magic_run.Credentials.Keys.{CredentialProfileKey}

abbrev pub max_profile_identifier_bytes : ℕ
max_profile_identifier_bytes = 128

-- `value.contains("..")`
unfoldable pub contains_dots : Text → Bool
contains_dots [] = false
contains_dots (a ∷ []) = false
contains_dots (a ∷ b ∷ rest) = (a == b'.' && b == b'.') || contains_dots (b ∷ rest)

abbrev starts_well : Text → Bool
starts_well [] = false
starts_well (c ∷ rest) = is_alphanumeric c

unfoldable pub portable_byte : Bool → ℕ → Bool
portable_byte allow_at c =
    is_alphanumeric c
    || (c == b'_' || c == b'-' || c == b'.' || c == b'+')
    || (allow_at && c == b'@')

unfoldable pub portable_identifier : Text → ℕ → Bool → Bool
portable_identifier value max_bytes allow_at =
    not (byte_len value == 0)
    && leb (byte_len value) max_bytes
    && not (holds (Text-discrete value (codes ".")))
    && not (holds (Text-discrete value (codes "..")))
    && not (contains_dots value)
    && starts_well value
    && all (portable_byte allow_at) value

unfoldable pub validate_provider : Text → Bool
validate_provider value = portable_identifier value max_profile_identifier_bytes false

pub data CredentialProfileAvailability : Type 0 where
  enabled disabled : CredentialProfileAvailability

pub record CredentialProfileMetadata : Type 0 where
  pub key : CredentialProfileKey
  pub expected_identity : Option Text
  pub is_default : Bool
  pub availability : CredentialProfileAvailability
  pub revision : ℕ

pub record CredentialProfileStatus : Type 0 where
  pub metadata : CredentialProfileMetadata
  pub auth_state : AuthState
