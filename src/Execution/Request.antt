-- ===== src/Execution/Request.antt =====
-- The request of tool-runtime-core/src/governed_execution.rs, and the checks of its parts.
use magic_run.Prelude.{
  ℕ, ◌+◌, ◌^◌, Bool, ◌||◌, not, Option, none, some, List, [], ◌∷◌, ◌++◌, Text, codes, Result, ok,
  err, ok_or, guard, ◌>>=◌, ◌>>◌, ltb, leb, ◌==◌, any, length, holds, Text-discrete, byte_len,
  is_control, split, if◌then◌else◌,
}
use magic_run.Manifest.Mcp.{StdinMode, WorkingDirectoryMode}
use magic_run.Manifest.Limits.{max_fixed_arguments, max_argument_bytes, max_fixed_argument_bytes}
use magic_run.Catalog.Schema.{max_synthesized_working_directory_bytes}
use magic_run.Execution.Error.{GovernedExecutionContractError}
use magic_run.Execution.Errors.{
  too_many_arguments, invalid_argument, arguments_too_large, stdin_denied, stdin_required,
  stdin_too_large, working_directory_denied, invalid_working_directory,
}

abbrev pub max_governed_working_directory_component_bytes : ℕ
max_governed_working_directory_component_bytes = 255

abbrev pub max_governed_working_directory_components : ℕ
max_governed_working_directory_components = 64

abbrev pub Bytes : Type 0
Bytes = List ℕ

-- The buffers that the source zeroes on drop are plain values.
pub record GovernedExecutionRequest : Type 0 where
  pub arguments : List Text
  pub argument_item_limit : ℕ
  pub stdin : Option Bytes
  pub working_directory : Option Text
  pub timeout_secs : Option ℕ

unfoldable pub request_new :
    List Text → Option Bytes → Option Text → Option ℕ → GovernedExecutionRequest
request_new arguments stdin working_directory timeout_secs = record {
  arguments = arguments;
  argument_item_limit = max_argument_bytes;
  stdin = stdin;
  working_directory = working_directory;
  timeout_secs = timeout_secs;
}

unfoldable pub new_with_specialized_runtime_arguments :
    List Text → Option Bytes → Option Text → Option ℕ → GovernedExecutionRequest
new_with_specialized_runtime_arguments arguments stdin working_directory timeout_secs = record {
  arguments = arguments;
  argument_item_limit = max_fixed_argument_bytes;
  stdin = stdin;
  working_directory = working_directory;
  timeout_secs = timeout_secs;
}

-- `usize::checked_add` on 64 bits
abbrev pub checked_add : ℕ → ℕ → Option ℕ
checked_add a b = if ltb (a + b) (2 ^ 64) then some (a + b) else none

-- The loop of `validate_arguments`, with the bytes counted so far.
unfoldable pub sum_arguments : ℕ → List Text → ℕ → Result GovernedExecutionContractError ℕ
sum_arguments item_limit [] total = ok total
sum_arguments item_limit (argument ∷ arguments) total =
    let rest = sum_arguments item_limit arguments (total + byte_len argument) in
    do
      guard (not (ltb item_limit (byte_len argument) || any is_control argument)) invalid_argument
      sum ← ok_or (checked_add total (byte_len argument)) arguments_too_large
      guard (not (ltb max_fixed_argument_bytes sum)) arguments_too_large
      rest

unfoldable pub validate_arguments : List Text → ℕ → Result GovernedExecutionContractError ℕ
validate_arguments arguments item_limit = do
  guard (not (ltb max_fixed_arguments (length arguments))) too_many_arguments
  sum_arguments item_limit arguments 0

unfoldable pub validate_stdin :
    StdinMode → ℕ → Option Bytes → Result GovernedExecutionContractError (Unit {0})
validate_stdin StdinMode.denied max (some value) = err stdin_denied
validate_stdin StdinMode.required max none = err stdin_required
validate_stdin StdinMode.optional max (some value) =
    guard (not (ltb max (length value))) stdin_too_large
validate_stdin StdinMode.required max (some value) =
    guard (not (ltb max (length value))) stdin_too_large
validate_stdin StdinMode.denied max none = ok tt
validate_stdin StdinMode.optional max none = ok tt

-- The test of one component, but for the count of those before it.
unfoldable pub component_is_invalid : Text → Bool
component_is_invalid component =
    byte_len component == 0
    || ltb max_governed_working_directory_component_bytes (byte_len component)
    || holds (Text-discrete component (codes "."))
    || holds (Text-discrete component (codes ".."))

-- The loop of `validate_working_directory`, with the components kept so far.
unfoldable pub collect_components :
    List Text → List Text → Result GovernedExecutionContractError (List Text)
collect_components components [] = ok components
collect_components components (component ∷ values) =
    let rest = collect_components (components ++ component ∷ []) values in
    do
      guard
          (not (
            leb max_governed_working_directory_components (length components)
            || component_is_invalid component))
          invalid_working_directory
      rest

abbrev starts_with_slash : Text → Bool
starts_with_slash [] = Bool.false
starts_with_slash (c ∷ s) = c == b'/'

-- The test of the whole value before it is split.
unfoldable pub value_is_invalid : Text → Bool
value_is_invalid value =
    byte_len value == 0
    || ltb max_synthesized_working_directory_bytes (byte_len value)
    || starts_with_slash value
    || any (λ c. c == b'\\') value
    || any is_control value

validate_relative : Option Text → Result GovernedExecutionContractError (List Text)
validate_relative none = ok []
validate_relative (some value) = do
  guard (not (value_is_invalid value)) invalid_working_directory
  collect_components [] (split b'/' value)

unfoldable pub validate_working_directory :
    WorkingDirectoryMode → Option Text → Result GovernedExecutionContractError (List Text)
unfolding validate_relative
validate_working_directory WorkingDirectoryMode.denied (some _) = err working_directory_denied
validate_working_directory WorkingDirectoryMode.denied none = ok []
validate_working_directory WorkingDirectoryMode.workspace value = validate_relative value
validate_working_directory WorkingDirectoryMode.output_root value = validate_relative value
