-- ===== src/Manifest/Targets.antt =====
-- The injection targets that tool-runtime-core/src/manifest_validation.rs lets through.
use magic_run.Prelude.{
  none, some, ap, codes, holds→, Text-discrete, ◌≡◌, ◌⊎◌, inl, inr, refl, true, Option, List, Text,
  arith,
}
use magic_run.Manifest.Mcp.{StdinMode, RuntimeProtocol}
use magic_run.Manifest.Equality.{StdinMode-discrete}
use magic_run.Manifest.Auth.{InjectionSource, InjectionTarget, AuthContract}
use magic_run.Manifest.Injections.{
  is_secret, denies_stdin, is_provider, fits_directory, target_fits,
}
use magic_run.Manifest.Confined.{
  IsSegment, IsConfined, IsPublicName, is_identifier-IsSegment, is_relative_path-IsConfined,
  is_safe_injection_environment_name-IsPublicName,
}

abbrev pub IsSecret : InjectionSource → Type 0
IsSecret source = (name : Text) × (source ≡ InjectionSource.secret name)

-- The model has no standard input.
abbrev pub DeniesStdin : RuntimeProtocol → Type 0
DeniesStdin (RuntimeProtocol.cli prefix interaction stdin directory limits) =
    stdin.mode ≡ StdinMode.denied
DeniesStdin (RuntimeProtocol.mcp transport discovery limits) = ⊥

-- What a configuration directory may be made from: the root of a profile, or the secret of the one
-- provider that reads it from a variable of this name.
abbrev pub FitsDirectory : Option Text → InjectionSource → Text → Type 0
FitsDirectory provider source name =
    ((path : List Text) × (source ≡ InjectionSource.profile_auth_root path))
    ⊎ (IsSecret source × (provider ≡ some (codes "minimax")) × (name ≡ codes "MMX_CONFIG_DIR"))

-- A target that harms neither the process nor the files outside its root, and that the model cannot
-- write.
abbrev pub IsSafeTarget : Option Text → RuntimeProtocol → InjectionSource → InjectionTarget → Type 0
IsSafeTarget provider runtime source (InjectionTarget.environment name) = IsPublicName name
IsSafeTarget provider runtime source InjectionTarget.stdin = DeniesStdin runtime × IsSecret source
IsSafeTarget provider runtime source (InjectionTarget.scoped_file path) =
    IsSecret source × IsConfined path
IsSafeTarget provider runtime source (InjectionTarget.config_directory name) =
    IsSegment name × FitsDirectory provider source name

is_secret-IsSecret : (source : InjectionSource) → is_secret source ≡ true → IsSecret source
is_secret-IsSecret (InjectionSource.secret name) h = (name, refl)
is_secret-IsSecret (InjectionSource.profile_auth_root path) h = cc
is_secret-IsSecret InjectionSource.profile_alias h = cc
is_secret-IsSecret InjectionSource.expected_identity h = cc

denies_stdin-DeniesStdin :
    (runtime : RuntimeProtocol) → denies_stdin runtime ≡ true → DeniesStdin runtime
denies_stdin-DeniesStdin (RuntimeProtocol.cli prefix interaction stdin directory limits) h =
    holds→ (StdinMode-discrete stdin.mode StdinMode.denied) h
denies_stdin-DeniesStdin (RuntimeProtocol.mcp transport discovery limits) h = cc

is_provider-eq :
    (provider : Option Text) (name : Text) → is_provider provider name ≡ true → provider ≡ some name
is_provider-eq none name h = cc
is_provider-eq (some own) name h = ap some (holds→ (Text-discrete own name) h)

fits_directory-FitsDirectory :
    (auth : AuthContract) (source : InjectionSource) (name : Text)
    → fits_directory auth source name ≡ true
    → FitsDirectory auth.provider source name
fits_directory-FitsDirectory auth (InjectionSource.profile_auth_root path) name h = inl (path, refl)
fits_directory-FitsDirectory auth (InjectionSource.secret binding) name h = inr (
  (binding, refl),
  is_provider-eq auth.provider (codes "minimax") (ground (arith)),
  holds→ (Text-discrete name (codes "MMX_CONFIG_DIR")) (ground (arith)),
)
fits_directory-FitsDirectory auth InjectionSource.profile_alias name h = cc
fits_directory-FitsDirectory auth InjectionSource.expected_identity name h = cc

pub target_fits-IsSafeTarget :
    (auth : AuthContract) (runtime : RuntimeProtocol) (source : InjectionSource)
    (target : InjectionTarget)
    → target_fits auth runtime source target ≡ true
    → IsSafeTarget auth.provider runtime source target
unfolding target_fits
target_fits-IsSafeTarget auth runtime source (InjectionTarget.environment name) h =
    is_safe_injection_environment_name-IsPublicName name h
target_fits-IsSafeTarget auth runtime source InjectionTarget.stdin h =
    (denies_stdin-DeniesStdin runtime (ground (arith)), is_secret-IsSecret source (ground (arith)))
target_fits-IsSafeTarget auth runtime source (InjectionTarget.scoped_file path) h =
    (is_secret-IsSecret source (ground (arith)), is_relative_path-IsConfined path (ground (arith)))
target_fits-IsSafeTarget auth runtime source (InjectionTarget.config_directory name) h = (
  is_identifier-IsSegment name (ground (arith)),
  fits_directory-FitsDirectory auth source name (ground (arith)),
)
