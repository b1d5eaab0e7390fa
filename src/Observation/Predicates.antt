-- ===== src/Observation/Predicates.antt =====
-- The predicates of a status rule and their budget, of
-- tool-runtime-core/src/credential_lifecycle_observation.rs.
use magic_run.Prelude.{
  ℕ, ◌+◌, ◌-◌, ◌*◌, Bool, true, false, Option, none, some, List, [], ◌∷◌, Text, Result, ok, guard,
  ◌>>=◌, ◌>>◌, ltb, ◌==◌, not, all, length, is_some, holds, Text-discrete,
}
use magic_run.Prelude.Sets.{contains}
use magic_run.Manifest.Auth.{LifecycleJsonPredicate, LifecycleJsonScalar}
use magic_run.Observation.Error.{CredentialLifecycleObservationError}
use magic_run.Observation.Errors.{evaluation_limit_exceeded}
use magic_run.Observation.Value.{Value, as_str, as_bool, as_i64, as_array}

abbrev pub max_lifecycle_status_evaluation_work : ℕ
max_lifecycle_status_evaluation_work = 256 * 1024

abbrev pub Evaluated : Type 0 → Type 0
Evaluated A = Result CredentialLifecycleObservationError A

-- `EvaluationBudget::consume`, from what remains to what remains after it.
unfoldable pub consume : ℕ → ℕ → Evaluated ℕ
consume remaining amount = do
  guard (not (ltb remaining amount)) evaluation_limit_exceeded
  ok (remaining - amount)

abbrev is_text : Option Text → Text → Bool
is_text none value = false
is_text (some actual) value = holds (Text-discrete actual value)

abbrev is_number : Option ℕ → ℕ → Bool
is_number none value = false
is_number (some actual) value = actual == value

abbrev is_boolean : Option Bool → Bool → Bool
is_boolean none value = false
is_boolean (some true) value = value
is_boolean (some false) value = not value

abbrev is_null : Value → Bool
is_null Value.null = true
is_null _ = false

unfoldable pub scalar_matches : LifecycleJsonScalar → Value → Bool
scalar_matches (LifecycleJsonScalar.string value) actual = is_text (as_str actual) value
scalar_matches (LifecycleJsonScalar.boolean value) actual = is_boolean (as_bool actual) value
scalar_matches (LifecycleJsonScalar.integer value) actual = is_number (as_i64 actual) value
scalar_matches LifecycleJsonScalar.null actual = is_null actual

-- `filter_map(Value::as_str)`
abbrev pub texts : List Value → List Text
texts [] = []
texts (value ∷ values) = elim (as_str value) [
  | none ↦ texts values
  | some text ↦ text ∷ texts values
]

unfoldable pub array_contains_all_strings : List Value → List Text → ℕ → Evaluated (Bool × ℕ)
array_contains_all_strings actual required budget = do
  remaining ← consume budget (length actual + length required)
  ok (all (contains (texts actual)) required, remaining)

abbrev pub matches_scalar : Option Value → LifecycleJsonScalar → Bool
matches_scalar none expected = false
matches_scalar (some actual) expected = scalar_matches expected actual

abbrev pub array_of : Option Value → Option (List Value)
array_of none = none
array_of (some value) = as_array value

-- `pointer` is `Value::pointer`.
module _ (pointer : Value → Text → Option Value) where
  unfoldable pub payload_matches : LifecycleJsonPredicate → Value → ℕ → Evaluated (Bool × ℕ)
  payload_matches (LifecycleJsonPredicate.equals path value) payload budget =
      ok (matches_scalar (pointer payload path) value, budget)
  payload_matches (LifecycleJsonPredicate.exists path) payload budget =
      ok (is_some (pointer payload path), budget)
  payload_matches (LifecycleJsonPredicate.missing path) payload budget =
      ok (not (is_some (pointer payload path)), budget)
  payload_matches (LifecycleJsonPredicate.array_contains_all_strings path values) payload budget =
      elim (array_of (pointer payload path)) [
        | none ↦ ok (false, budget)
        | some actual ↦ array_contains_all_strings actual values budget
      ]

  unfoldable pub predicate_matches :
      LifecycleJsonPredicate → Option Value → ℕ → Evaluated (Bool × ℕ)
  predicate_matches predicate payload budget = consume budget 1 >>= λ remaining. elim payload [
    | none ↦ ok (false, remaining)
    | some value ↦ payload_matches predicate value remaining
  ]

  -- The loop over the predicates of a rule ends at the first that fails.
  unfoldable pub predicates_match :
      List LifecycleJsonPredicate → Option Value → ℕ → Evaluated (Bool × ℕ)
  predicates_match [] payload budget = ok (true, budget)
  predicates_match (predicate ∷ rest) payload budget =
      predicate_matches predicate payload budget >>= λ (matched, remaining). elim matched [
        | true ↦ predicates_match rest payload remaining
        | false ↦ ok (false, remaining)
      ]
