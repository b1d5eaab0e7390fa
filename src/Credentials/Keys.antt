-- ===== src/Credentials/Keys.antt =====
-- Credential keys of tool-runtime-core/src/credential_profiles.rs. A validated string is its text.
use native.Mathlib.Decide.{ℕ_discrete}
use magic_run.Prelude.{Option, Text}

pub data CredentialProfileBinding : Type 0 where
  provider : CredentialProfileBinding
  mcp_oauth : Text → Text → CredentialProfileBinding

pub record CredentialScope : Type 0 where
  pub principal : Text
  pub workspace : Text

pub record CredentialProfileKey : Type 0 where
  pub scope : CredentialScope
  pub provider : Text
  pub alias : Text
  pub binding : CredentialProfileBinding

unfoldable pub CredentialScope-discrete : Discrete CredentialScope
CredentialScope-discrete = hlevel ℕ_discrete

unfoldable pub CredentialProfileKey-discrete : Discrete CredentialProfileKey
CredentialProfileKey-discrete = hlevel ℕ_discrete

unfoldable pub Selected-discrete : Discrete (Option CredentialProfileKey)
Selected-discrete = hlevel ℕ_discrete
