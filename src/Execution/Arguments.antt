-- ===== src/Execution/Arguments.antt =====
-- What `validate_arguments` of tool-runtime-core/src/governed_execution.rs accepts.
use magic_run.Prelude.{
  ℕ, ◌+◌, ◌≤◌, ◌≡◌, ◌↔◌, false, List, [], ◌∷◌, Text, ok, arith, any, length, All, byte_len,
  is_control,
}
use magic_run.Manifest.Limits.{max_fixed_arguments, max_fixed_argument_bytes}
use magic_run.Execution.Request.{sum_arguments, validate_arguments}

-- The bytes of all arguments.
abbrev pub total_bytes : List Text → ℕ
total_bytes [] = 0
total_bytes (argument ∷ arguments) = byte_len argument + total_bytes arguments

-- One argument within the limit of its bytes, with no control character.
abbrev pub IsArgument : ℕ → Text → Type 0
IsArgument item_limit argument =
    (byte_len argument ≤ item_limit) × (any is_control argument ≡ false)

abbrev pub AreArguments : ℕ → List Text → ℕ → Type 0
AreArguments item_limit arguments bytes =
    (length arguments ≤ max_fixed_arguments)
    × All (IsArgument item_limit) arguments
    × (bytes ≡ total_bytes arguments)
    × (bytes ≤ max_fixed_argument_bytes)

sum_arguments_sound :
    (limit : ℕ) (arguments : List Text) (total bytes : ℕ)
    → total ≤ max_fixed_argument_bytes
    → sum_arguments limit arguments total ≡ ok bytes
    → All (IsArgument limit) arguments
      × (bytes ≡ total + total_bytes arguments)
      × (bytes ≤ max_fixed_argument_bytes)
unfolding sum_arguments
sum_arguments_sound limit [] total bytes small h = ground arith
sum_arguments_sound limit (a ∷ rest) total bytes small h =
    ground (arith, sum_arguments_sound limit rest (total + byte_len a) bytes)

sum_arguments_complete :
    (limit : ℕ) (arguments : List Text) (total : ℕ)
    → All (IsArgument limit) arguments
    → total + total_bytes arguments ≤ max_fixed_argument_bytes
    → sum_arguments limit arguments total ≡ ok (total + total_bytes arguments)
unfolding sum_arguments
sum_arguments_complete limit [] total h small = ground arith
sum_arguments_complete limit (a ∷ rest) total h small =
    ground (arith, sum_arguments_complete limit rest (total + byte_len a))

pub validate_arguments_iff :
    (limit : ℕ) (arguments : List Text) (bytes : ℕ)
    → (validate_arguments arguments limit ≡ ok bytes) ↔ AreArguments limit arguments bytes
unfolding validate_arguments
validate_arguments_iff limit rest bytes = (
  λ h. ground (arith, sum_arguments_sound limit rest 0 bytes),
  λ h. ground (arith, sum_arguments_complete limit rest 0),
)
