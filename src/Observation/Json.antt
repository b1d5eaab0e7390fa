-- ===== src/Observation/Json.antt =====
-- The bounds on JSON output of tool-runtime-core/src/credential_lifecycle_observation.rs.
use magic_run.Prelude.{
  ℕ, zero, suc, ◌+◌, ◌-◌, ◌*◌, true, false, ◌||◌, Option, List, [], ◌∷◌, Result, ok, err, ok_or,
  guard, ◌>>◌, ◌>>=◌, ltb, ◌==◌, not, if◌then◌else◌,
}
use magic_run.Observation.Error.{CredentialLifecycleObservationError}
use magic_run.Observation.Errors.{malformed_output, output_too_deep, output_too_complex}
use magic_run.Observation.Value.{Value, Values, Fields}

abbrev pub max_lifecycle_status_json_depth : ℕ
max_lifecycle_status_json_depth = 32

abbrev pub max_lifecycle_status_json_nodes : ℕ
max_lifecycle_status_json_nodes = 16 * 1024

abbrev pub Checked : Type 0
Checked = Result CredentialLifecycleObservationError (Unit {0})

-- Where the scan of a text stands: outside a string, inside one, or behind a backslash in one.
pub data Lexing : Type 0 where
  outside inside escaped : Lexing

-- The loop of `validate_json_nesting`.
unfoldable pub nesting_from : Lexing → ℕ → List ℕ → Checked
nesting_from lexing depth [] = ok tt
nesting_from Lexing.escaped depth (byte ∷ bytes) = nesting_from Lexing.inside depth bytes
nesting_from Lexing.inside depth (byte ∷ bytes) =
    nesting_from
      (if byte == b'\\'
        then Lexing.escaped
        else if byte == b'"'
        then Lexing.outside
        else Lexing.inside)
      depth bytes
nesting_from Lexing.outside depth (byte ∷ bytes) = elim (byte == b'"') [
  | true ↦ nesting_from Lexing.inside depth bytes
  | false ↦ elim (byte == b'{' || byte == b'[') [
    | true ↦
        guard (not (ltb max_lifecycle_status_json_depth (depth + 1))) output_too_deep
        >> nesting_from Lexing.outside (depth + 1) bytes
    | false ↦
        nesting_from Lexing.outside (if byte == b'}' || byte == b']' then depth - 1 else depth)
          bytes
  ]
]

unfoldable pub validate_json_nesting : List ℕ → Checked
validate_json_nesting bytes = nesting_from Lexing.outside 0 bytes

-- `stack.extend(values)`: the last value ends on top.
abbrev pub extend_values : Values → List Value → List Value
extend_values Values.nil stack = stack
extend_values (Values.cons value rest) stack = extend_values rest (value ∷ stack)

abbrev pub extend_fields : Fields → List Value → List Value
extend_fields Fields.end stack = stack
extend_fields (Fields.entry name value rest) stack = extend_fields rest (value ∷ stack)

abbrev pub extend : Value → List Value → List Value
extend (Value.array values) stack = extend_values values stack
extend (Value.object fields) stack = extend_fields fields stack
extend _ stack = stack

-- The loop of `validate_json_nodes` with its stack, top first, and the nodes that were seen. It ends
-- after at most one round more than the limit.
unfoldable pub nodes_loop : ℕ → ℕ → ℕ → List Value → Checked
nodes_loop fuel limit nodes [] = ok tt
nodes_loop zero limit nodes (value ∷ stack) = err output_too_complex
nodes_loop (suc fuel) limit nodes (value ∷ stack) =
    guard (not (ltb limit (nodes + 1))) output_too_complex
    >> nodes_loop fuel limit (nodes + 1) (extend value stack)

unfoldable pub validate_json_nodes : Value → Checked
validate_json_nodes value =
    nodes_loop (max_lifecycle_status_json_nodes + 1) max_lifecycle_status_json_nodes 0 (value ∷ [])

-- `parse` is `serde_json::from_slice`.
unfoldable pub parse_bounded_json :
    (List ℕ → Option Value) → List ℕ → Result CredentialLifecycleObservationError Value
parse_bounded_json parse bytes = do
  validate_json_nesting bytes
  value ← ok_or (parse bytes) malformed_output
  validate_json_nodes value
  ok value
