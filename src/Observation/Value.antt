-- ===== src/Observation/Value.antt =====
-- The JSON values of the `serde_json` library, as far as
-- tool-runtime-core/src/credential_lifecycle_observation.rs reads them.
use magic_run.Prelude.{ℕ, suc, ◌+◌, Bool, Option, none, some, List, [], ◌∷◌, Text}

-- Of a number the code reads what `as_i64` answers, an i64 as its bit pattern. An object keeps its
-- values in order.
mutual
  pub data Value : Type 0 where
    null : Value
    boolean : Bool → Value
    number : Option ℕ → Value
    string : Text → Value
    array : Values → Value
    object : Fields → Value

  pub data Values : Type 0 where
    nil : Values
    cons : Value → Values → Values

  pub data Fields : Type 0 where
    end : Fields
    entry : Text → Value → Fields → Fields

abbrev pub as_str : Value → Option Text
as_str (Value.string text) = some text
as_str _ = none

abbrev pub as_bool : Value → Option Bool
as_bool (Value.boolean b) = some b
as_bool _ = none

abbrev pub as_i64 : Value → Option ℕ
as_i64 (Value.number n) = n
as_i64 _ = none

abbrev pub items : Values → List Value
items Values.nil = []
items (Values.cons value rest) = value ∷ items rest

abbrev pub as_array : Value → Option (List Value)
as_array (Value.array values) = some (items values)
as_array _ = none

-- The values that stand in a value, itself among them.
unfoldable mutual
  pub count_nodes : Value → ℕ
  count_nodes (Value.array values) = suc (count_values values)
  count_nodes (Value.object fields) = suc (count_fields fields)
  count_nodes _ = 1

  pub count_values : Values → ℕ
  count_values Values.nil = 0
  count_values (Values.cons value rest) = count_nodes value + count_values rest

  pub count_fields : Fields → ℕ
  count_fields Fields.end = 0
  count_fields (Fields.entry name value rest) = count_nodes value + count_fields rest
