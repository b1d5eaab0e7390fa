-- ===== src/StatusCache/Places.antt =====
-- The directories of tool-runtime-core/src/credential_status_cache.rs and scoped_paths.rs.
use native.Mathlib.Decide.{ℕ_discrete}
use magic_run.Prelude.{◌≡◌, ◌↔◌, refl, ap, true, some, Text, Text-discrete, arith, holds→, →holds}
use magic_run.Credentials.Keys.{CredentialProfileKey, CredentialScope-discrete, Selected-discrete}
use magic_run.Credentials.Plans.{CredentialLifecyclePlan, CredentialLifecycleTarget}
use magic_run.Credentials.Paths.{
  ScopedPath, ScopedPathKind, ScopedPathLocator, Kind-discrete, Locator-discrete, Identity-discrete,
  kind, kind_of, key_of, profile_key, has_same_directory_identity,
}
use magic_run.StatusCache.Operations.{directory_is_valid}

-- The same directory: its scope, place, path and identity, and the root that issued it.
pub record IsSamePath (path other : ScopedPath) : Type 0 where
  pub scope : path.scope ≡ other.scope
  pub locator : path.locator ≡ other.locator
  pub canonical_path : path.canonical_path ≡ other.canonical_path
  pub identity : path.identity ≡ other.identity
  pub scopes_root : path.authority.scopes_root ≡ other.authority.scopes_root
  pub root_identity : path.authority.root_identity ≡ other.authority.root_identity
  pub owner : path.authority.owner ≡ other.authority.owner

pub same_directory-IsSamePath :
    (path other : ScopedPath)
    → has_same_directory_identity path other ≡ true
    → IsSamePath path other
unfolding has_same_directory_identity
same_directory-IsSamePath path other h = record {
  scope = holds→ (CredentialScope-discrete path.scope other.scope) (ground arith);
  locator = holds→ (Locator-discrete path.locator other.locator) (ground arith);
  canonical_path = holds→ (Text-discrete path.canonical_path other.canonical_path) (ground arith);
  identity = holds→ (Identity-discrete path.identity other.identity) (ground arith);
  scopes_root =
      holds→ (Text-discrete path.authority.scopes_root other.authority.scopes_root) (ground arith);
  root_identity =
      holds→ (Identity-discrete path.authority.root_identity other.authority.root_identity)
        (ground arith);
  owner = holds→ (ℕ_discrete path.authority.owner other.authority.owner) (ground arith);
}

pub IsSamePath-same_directory :
    (path other : ScopedPath)
    → IsSamePath path other
    → has_same_directory_identity path other ≡ true
unfolding has_same_directory_identity
IsSamePath-same_directory path other h =
    let a = →holds (CredentialScope-discrete path.scope other.scope) h.scope in
    let b = →holds (Locator-discrete path.locator other.locator) h.locator in
    let c = →holds (Text-discrete path.canonical_path other.canonical_path) h.canonical_path in
    let d = →holds (Identity-discrete path.identity other.identity) h.identity in
    let e =
      →holds (Text-discrete path.authority.scopes_root other.authority.scopes_root) h.scopes_root in
    let f =
      →holds (Identity-discrete path.authority.root_identity other.authority.root_identity)
        h.root_identity in
    let g = →holds (ℕ_discrete path.authority.owner other.authority.owner) h.owner in
    rw (a, b, c, d, e, f, g) refl

-- The directory of a target: that of its own profile, or the one for authentication in its scope.
abbrev pub IsOwnDirectory : CredentialLifecycleTarget → ScopedPath → Type 0
IsOwnDirectory (CredentialLifecycleTarget.profile key revision expected) directory =
    (name : Text) × (directory.locator ≡ ScopedPathLocator.profile key name)
IsOwnDirectory (CredentialLifecycleTarget.implicit owner provider binding) directory =
    (directory.locator ≡ ScopedPathLocator.auth) × (directory.scope ≡ owner)

key_of-profile :
    (locator : ScopedPathLocator) (key : CredentialProfileKey)
    → key_of locator ≡ some key
    → (name : Text) × (locator ≡ ScopedPathLocator.profile key name)
key_of-profile ScopedPathLocator.scope key e = cc
key_of-profile ScopedPathLocator.auth key e = cc
key_of-profile (ScopedPathLocator.profile own name) key e =
    let same : own ≡ key = cc in (name, ap (λ k. ScopedPathLocator.profile k name) same)

kind_of-auth :
    (locator : ScopedPathLocator)
    → kind_of locator ≡ ScopedPathKind.auth
    → locator ≡ ScopedPathLocator.auth
kind_of-auth ScopedPathLocator.scope e = cc
kind_of-auth ScopedPathLocator.auth e = refl
kind_of-auth (ScopedPathLocator.profile own name) e = cc

module _ (plan : CredentialLifecyclePlan) (directory : ScopedPath) where
  valid-IsOwnDirectory :
      (target : CredentialLifecycleTarget)
      → plan.target ≡ target
      → directory_is_valid plan directory ≡ true
      → IsOwnDirectory target directory
  unfolding directory_is_valid
  valid-IsOwnDirectory (CredentialLifecycleTarget.profile key revision expected) e h =
      key_of-profile directory.locator key
        (holds→ (Selected-discrete (profile_key directory) (some key)) (ground arith))
  valid-IsOwnDirectory (CredentialLifecycleTarget.implicit owner provider binding) e h = (
    kind_of-auth directory.locator
        (holds→ (Kind-discrete (kind directory) ScopedPathKind.auth) (ground arith)),
    holds→ (CredentialScope-discrete directory.scope owner) (ground arith),
  )

  IsOwnDirectory-valid :
      (target : CredentialLifecycleTarget)
      → plan.target ≡ target
      → IsOwnDirectory target directory
      → directory_is_valid plan directory ≡ true
  unfolding directory_is_valid
  IsOwnDirectory-valid (CredentialLifecycleTarget.profile key revision expected) e (name, place) =
      let own = →holds (Selected-discrete (profile_key directory) (some key)) (ap key_of place) in
      let sort =
        →holds (Kind-discrete (kind directory) ScopedPathKind.credential_profile)
          (ap kind_of place) in
      rw (e, own, sort) refl
  IsOwnDirectory-valid (CredentialLifecycleTarget.implicit owner provider binding) e (place, same) =
      let sort = →holds (Kind-discrete (kind directory) ScopedPathKind.auth) (ap kind_of place) in
      let own = →holds (CredentialScope-discrete directory.scope owner) same in
      rw (e, sort, own) refl

  pub directory_is_valid_iff :
      (directory_is_valid plan directory ≡ true) ↔ IsOwnDirectory plan.target directory
  directory_is_valid_iff =
      (valid-IsOwnDirectory plan.target refl, IsOwnDirectory-valid plan.target refl)
