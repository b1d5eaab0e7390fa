-- ===== src/Manifest/Sources.antt =====
-- The secrets that the injections of tool-runtime-core/src/manifest_validation.rs declare and use.
use magic_run.Prelude.{
  ◌≡◌, ◌⊎◌, inl, inr, refl, sym, ap, subst, Bool, true, false, not, ◌||◌, List, [], ◌∷◌, map, Text,
  ok, arith, any, All, guard_bind, ok-injective,
}
use magic_run.Prelude.Sets.{contains, contains-cons, contains_nil}
use magic_run.Manifest.Auth.{InjectionSource, InjectionBinding, SecretBindingRef, AuthContract}
use magic_run.Manifest.Injections.{is_secret, validate_injection_source}
use magic_run.Manifest.Authentication.{secret_names_from, validate_secret_bindings}

-- Some injection writes the secret of this name.
abbrev pub Uses : List InjectionBinding → Text → Type 0
Uses [] name = ⊥
Uses (i ∷ injections) name = (i.source ≡ InjectionSource.secret name) ⊎ Uses injections name

abbrev pub Declared : List Text → InjectionSource → Type 0
Declared names source =
    (name : Text) → source ≡ InjectionSource.secret name → contains names name ≡ true

-- What the check of a source says of the secrets before and after it.
abbrev pub Sourced : List Text → InjectionSource → List Text → List Text → Type 0
Sourced names source used used' =
    Declared names source
    × ((name : Text)
        → contains used' name ≡ true
        → (source ≡ InjectionSource.secret name) ⊎ (contains used name ≡ true))

unsecret :
    (names : List Text) (source : InjectionSource) (used used' : List Text)
    → is_secret source ≡ false
    → used ≡ used'
    → Sourced names source used used'
unsecret names source used used' other same = (
  λ name e. absurd (secret_not source name other e),
  λ name e. inr (subst (λ u. contains u name ≡ true) (sym same) e),
)
  where
    secret_not :
        (source : InjectionSource) (name : Text)
        → is_secret source ≡ false
        → source ≡ InjectionSource.secret name
        → ⊥
    secret_not source name other e = let moved = ap is_secret e in cc

pub validate_injection_source-Sourced :
    (auth : AuthContract) (source : InjectionSource) (names used used' : List Text)
    → validate_injection_source auth source names used ≡ ok used'
    → Sourced names source used used'
unfolding validate_injection_source
validate_injection_source-Sourced auth (InjectionSource.secret binding) names used used' h =
    let same : (binding ∷ used) ≡ used' = ground (arith) in
    let found : contains names binding ≡ true = ground (arith) in
    (
      λ name e. let key : binding ≡ name = cc in subst (λ n. contains names n ≡ true) key found,
      λ name e.
          elim (contains-cons binding used name
            (subst (λ u. contains u name ≡ true) (sym same) e)) [
              | inl key ↦ inl (ap InjectionSource.secret key)
              | inr old ↦ inr old
            ],
    )
validate_injection_source-Sourced auth (InjectionSource.profile_auth_root path) names used used' h =
    unsecret names _ used used' refl (ground (arith))
validate_injection_source-Sourced auth InjectionSource.profile_alias names used used' h =
    unsecret names _ used used' refl (ground (arith))
validate_injection_source-Sourced auth InjectionSource.expected_identity names used used' h =
    unsecret names _ used used' refl (ground (arith))

-- The names that were collected are those of the bindings.
secret_names_from-contains :
    (names final : List Text) (bindings : List SecretBindingRef)
    → secret_names_from names bindings ≡ ok final
    → (name : Text)
    → contains final name ≡ contains names name || contains (map (λ b. b.name) bindings) name
unfolding secret_names_from contains
secret_names_from-contains names final [] h name =
    let same : names ≡ final = ok-injective h in
    subst (λ f. contains f name ≡ contains names name || false) same
      (or_false (contains names name))
  where
    or_false : (b : Bool) → b ≡ b || false
    or_false true = refl
    or_false false = refl
secret_names_from-contains names final (b ∷ bindings) h name =
    let (fresh, run) = guard_bind _ _ (secret_names_from (b.name ∷ names) bindings) h in
    let later = secret_names_from-contains (b.name ∷ names) final bindings run name in ground arith

pub validate_secret_bindings-contains :
    (auth : AuthContract) (names : List Text)
    → validate_secret_bindings auth ≡ ok names
    → (name : Text) → contains names name ≡ contains (map (λ b. b.name) auth.secret_bindings) name
unfolding validate_secret_bindings contains
validate_secret_bindings-contains auth names h name =
    secret_names_from-contains [] names auth.secret_bindings (ground (arith)) name

pub all_used :
    (final names : List Text) (name : Text)
    → any (λ n. not (contains final n)) names ≡ false
    → contains names name ≡ true
    → contains final name ≡ true
all_used final [] name h e = absurd (contains_nil name e)
all_used final (n ∷ names) name h e = elim (contains-cons n names name e) [
  | inl same ↦ subst (λ x. contains final x ≡ true) same (ground (arith))
  | inr later ↦ all_used final names name (ground (arith)) later
]

pub Uses-Declared :
    (names : List Text) (injections : List InjectionBinding) (name : Text)
    → All (λ i. Declared names i.source) injections
    → Uses injections name
    → contains names name ≡ true
Uses-Declared names (i ∷ injections) name (d, ds) (inl e) = d name e
Uses-Declared names (i ∷ injections) name (d, ds) (inr u) = Uses-Declared names injections name ds u
Uses-Declared names [] name h u = elim u [ ]
