-- ===== src/Observation/Nodes.antt =====
-- The bound on the nodes of JSON output of tool-runtime-core/src/credential_lifecycle_observation.rs.
use magic_run.Prelude.{
  ℕ, zero, suc, ◌+◌, ◌≤◌, ◌≡◌, refl, inl, inr, List, [], ◌∷◌, guard, arith, leb, ltb, Bool-cases,
}
use magic_run.Observation.Errors.{output_too_complex}
use magic_run.Observation.Value.{Value, Values, Fields, count_nodes, count_values, count_fields}
use magic_run.Observation.Json.{
  max_lifecycle_status_json_nodes, extend, extend_values, extend_fields, nodes_loop,
  validate_json_nodes,
}

-- The nodes of the values that wait on the stack.
unfoldable total : List Value → ℕ
total [] = 0
total (value ∷ stack) = count_nodes value + total stack

extend_values_lem :
    (values : Values) (stack : List Value)
    → total (extend_values values stack) ≡ count_values values + total stack
unfolding total count_values
extend_values_lem Values.nil stack = omega arith
extend_values_lem (Values.cons value rest) stack =
    let ih = extend_values_lem rest (value ∷ stack) in omega arith

extend_fields_lem :
    (fields : Fields) (stack : List Value)
    → total (extend_fields fields stack) ≡ count_fields fields + total stack
unfolding total count_fields
extend_fields_lem Fields.end stack = omega arith
extend_fields_lem (Fields.entry name value rest) stack =
    let ih = extend_fields_lem rest (value ∷ stack) in omega arith

-- A value that is taken from the stack counts once, and its parts take its place.
extend_lem :
    (value : Value) (stack : List Value)
    → total (extend value stack) + 1 ≡ count_nodes value + total stack
unfolding count_nodes
extend_lem Value.null stack = omega arith
extend_lem (Value.boolean b) stack = omega arith
extend_lem (Value.number n) stack = omega arith
extend_lem (Value.string text) stack = omega arith
extend_lem (Value.array values) stack = let parts = extend_values_lem values stack in omega arith
extend_lem (Value.object fields) stack = let parts = extend_fields_lem fields stack in omega arith

-- With fuel for one round more than the limit allows, the loop compares the sum with the limit.
nodes_loop_lem :
    (fuel limit nodes : ℕ) (stack : List Value)
    → fuel + nodes ≡ limit + 1
    → nodes ≤ limit
    → nodes_loop fuel limit nodes stack ≡ guard (leb (nodes + total stack) limit) output_too_complex
unfolding nodes_loop total
nodes_loop_lem fuel limit nodes [] fed low = ground arith
nodes_loop_lem zero limit nodes (value ∷ stack) fed low = absurd (omega arith)
nodes_loop_lem (suc fuel) limit nodes (value ∷ stack) fed low =
    let parts = extend_lem value stack in
    elim (Bool-cases (ltb limit (nodes + 1))) [
      | inl over ↦ ground arith
      | inr under ↦
          let rest =
            nodes_loop_lem fuel limit (nodes + 1) (extend value stack) (omega arith)
              (ground arith) in
          ground arith
    ]

-- The loop over the stack of values lets a value through exactly where the values in it, itself
-- among them, are at most 16384.
pub validate_json_nodes-count_nodes :
    (value : Value)
    → validate_json_nodes value
      ≡ guard (leb (count_nodes value) max_lifecycle_status_json_nodes) output_too_complex
unfolding validate_json_nodes total
validate_json_nodes-count_nodes value =
    let run =
      nodes_loop_lem (max_lifecycle_status_json_nodes + 1) max_lifecycle_status_json_nodes 0
        (value ∷ []) refl (omega arith) in
    ground arith
