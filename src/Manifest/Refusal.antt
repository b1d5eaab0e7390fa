-- ===== src/Manifest/Refusal.antt =====
-- The value-free failure of tool-runtime-core/src/manifest_validation.rs.
use magic_run.Prelude.{
  ℕ, String, Bool, List, [], ◌∷◌, Result, ok, err, guard, ◌>>◌, ltb, not, ◌≡◌, refl, All, true,
  false,
}

pub data ManifestValidationErrorCode : Type 0 where
  unsupported_schema_version collection_too_large : ManifestValidationErrorCode
  ambiguous_executable invalid_executable : ManifestValidationErrorCode
  executable_requirement_mismatch invalid_environment : ManifestValidationErrorCode
  invalid_argument illegal_command_prefix invalid_identifier : ManifestValidationErrorCode
  invalid_runtime_limit invalid_stdin_contract : ManifestValidationErrorCode
  invalid_mcp_endpoint invalid_mcp_discovery : ManifestValidationErrorCode
  invalid_auth_requirement invalid_auth_provider : ManifestValidationErrorCode
  missing_auth_provider invalid_profile_selection : ManifestValidationErrorCode
  invalid_auth_storage invalid_secret_binding invalid_injection : ManifestValidationErrorCode
  duplicate_injection_target invalid_lifecycle invalid_identity : ManifestValidationErrorCode
  incompatible_protocol_auth invalid_policy_floor : ManifestValidationErrorCode

pub record ManifestValidationError : Type 0 where
  pub code : ManifestValidationErrorCode
  pub field : String
  pub message : String

abbrev pub Checked : Type 0
Checked = Result ManifestValidationError (Unit {0})

-- `error(code, field, message)`
abbrev pub error : ManifestValidationErrorCode → String → String → ManifestValidationError
error code field message = record { code = code; field = field; message = message }

abbrev pub bounded_len : ℕ → ℕ → String → Checked
bounded_len actual maximum field = guard (not (ltb maximum actual)) (
    error ManifestValidationErrorCode.collection_too_large field
      "the collection exceeds its semantic limit")

-- A `for` loop whose body returns early with an error.
abbrev pub for_each : {A : Type 0} → (A → Checked) → List A → Checked
for_each check [] = ok tt
for_each check (x ∷ xs) = check x >> for_each check xs

-- Two checks in a row let through what both let through.
pub both_checks : (a b : Checked) → (a >> b) ≡ ok tt → (a ≡ ok tt) × (b ≡ ok tt)
both_checks (ok tt) b e = (refl, e)
both_checks (err failure) b e = cc

pub for_each-All :
    {A : Type 0} (check : A → Checked) (xs : List A)
    → for_each check xs ≡ ok tt
    → All (λ x. check x ≡ ok tt) xs
for_each-All check [] e = tt
for_each-All check (x ∷ xs) e =
    let (first, rest) = both_checks (check x) (for_each check xs) e in
    (first, for_each-All check xs rest)

pub guard-true :
    (test : Bool) (failure : ManifestValidationError) → guard test failure ≡ ok tt → test ≡ true
guard-true true failure e = refl
guard-true false failure e = cc
