-- ===== src/Credentials/Paths.antt =====
-- Issued directory capabilities of tool-runtime-core/src/scoped_paths.rs. What the file system
-- answers to `revalidate` is an argument of the operations that ask it.
use native.Mathlib.Decide.{ℕ_discrete}
use magic_run.Prelude.{ℕ, Bool, ◌&&◌, Option, none, some, Text, holds, Text-discrete}
use magic_run.Credentials.Keys.{CredentialScope, CredentialProfileKey, CredentialScope-discrete}

pub data ScopedPathKind : Type 0 where
  scope auth credential_profile : ScopedPathKind

pub record DirectoryIdentity : Type 0 where
  pub device : ℕ
  pub inode : ℕ
  pub owner : ℕ

pub record ScopedPathAuthority : Type 0 where
  pub scopes_root : Text
  pub root_identity : DirectoryIdentity
  pub owner : ℕ

pub data ScopedPathLocator : Type 0 where
  scope auth : ScopedPathLocator
  profile : CredentialProfileKey → Text → ScopedPathLocator

pub record ScopedPath : Type 0 where
  pub authority : ScopedPathAuthority
  pub scope : CredentialScope
  pub locator : ScopedPathLocator
  pub canonical_path : Text
  pub identity : DirectoryIdentity

unfoldable pub Locator-discrete : Discrete ScopedPathLocator
Locator-discrete = hlevel ℕ_discrete

unfoldable pub Identity-discrete : Discrete DirectoryIdentity
Identity-discrete = hlevel ℕ_discrete

unfoldable pub has_same_directory_identity : ScopedPath → ScopedPath → Bool
has_same_directory_identity path other =
    holds (CredentialScope-discrete path.scope other.scope)
    && holds (Locator-discrete path.locator other.locator)
    && holds (Text-discrete path.canonical_path other.canonical_path)
    && holds (Identity-discrete path.identity other.identity)
    && holds (Text-discrete path.authority.scopes_root other.authority.scopes_root)
    && holds (Identity-discrete path.authority.root_identity other.authority.root_identity)
    && holds (ℕ_discrete path.authority.owner other.authority.owner)

unfoldable pub Kind-discrete : Discrete ScopedPathKind
Kind-discrete = hlevel

abbrev pub kind_of : ScopedPathLocator → ScopedPathKind
kind_of ScopedPathLocator.scope = ScopedPathKind.scope
kind_of ScopedPathLocator.auth = ScopedPathKind.auth
kind_of (ScopedPathLocator.profile _ _) = ScopedPathKind.credential_profile

abbrev pub key_of : ScopedPathLocator → Option CredentialProfileKey
key_of (ScopedPathLocator.profile key _) = some key
key_of _ = none

abbrev pub kind : ScopedPath → ScopedPathKind
kind path = kind_of path.locator

abbrev pub profile_key : ScopedPath → Option CredentialProfileKey
profile_key path = key_of path.locator
