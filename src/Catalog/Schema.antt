-- ===== src/Catalog/Schema.antt =====
-- The input schema of a synthesized action, of tool-runtime-core/src/manifest_synthesis.rs. The map
-- of the properties is the list of its entries in the order of their names.
use magic_run.Prelude.{
  ℕ, Bool, true, false, Option, none, some, List, [], ◌∷◌, ◌++◌, String, Text, codes, unwrap_or,
}
use magic_run.Prelude.Sorting.{sort}
use magic_run.Manifest.Mcp.{StdinMode, DataSensitivity, WorkingDirectoryMode, RuntimeLimits}
use magic_run.Manifest.Auth.{ProfileSelection}
use magic_run.Manifest.Limits.{
  max_fixed_arguments, max_argument_bytes, max_fixed_argument_bytes, max_runtime_timeout_secs,
  max_runtime_stream_bytes,
}
use magic_run.Credentials.Registry.{text_compare}

abbrev pub max_synthesized_profile_alias_bytes : ℕ
max_synthesized_profile_alias_bytes = 256

abbrev pub max_synthesized_working_directory_bytes : ℕ
max_synthesized_working_directory_bytes = 1024

abbrev pub control_free_pattern : String
control_free_pattern = "^[^\\u0000-\\u001F\\u007F]*$"

abbrev pub profile_alias_pattern : String
profile_alias_pattern = "^[A-Za-z0-9_.+-]+$"

pub record SynthesizedStringItemSchema : Type 0 where
  pub schema_type : String
  pub min_length : ℕ
  pub max_length : ℕ
  pub pattern_text : String

pub record ArraySchema : Type 0 where
  pub description : String
  pub items : SynthesizedStringItemSchema
  pub min_items : ℕ
  pub max_items : ℕ
  pub max_combined_utf8_bytes : ℕ

pub record StringSchema : Type 0 where
  pub description : String
  pub min_length : ℕ
  pub max_length : ℕ
  pub pattern_text : Option String
  pub format : Option String
  pub default : Option Text
  pub max_utf8_bytes : Option ℕ
  pub data_sensitivity : Option DataSensitivity
  pub path_authority : Option WorkingDirectoryMode

pub record IntegerSchema : Type 0 where
  pub description : String
  pub minimum : ℕ
  pub maximum : ℕ

pub data SynthesizedPropertySchema : Type 0 where
  array : ArraySchema → SynthesizedPropertySchema
  string : StringSchema → SynthesizedPropertySchema
  integer : IntegerSchema → SynthesizedPropertySchema

pub record SynthesizedInputSchema : Type 0 where
  pub schema_type : String
  pub properties : List (Text × SynthesizedPropertySchema)
  pub required : List Text
  pub additional_properties : Bool

abbrev Properties : Type 0
Properties = List (Text × SynthesizedPropertySchema)

abbrev args_property : Properties
args_property =
    (
      codes "args",
      SynthesizedPropertySchema.array (record {
        description = "Exact argument tokens appended after the fixed command prefix.";
        items = record {
          schema_type = "string";
          min_length = 0;
          max_length = max_argument_bytes;
          pattern_text = control_free_pattern;
        };
        min_items = 0;
        max_items = max_fixed_arguments;
        max_combined_utf8_bytes = max_fixed_argument_bytes;
      }),
    )
    ∷ []

abbrev profile_property : ProfileSelection → Properties
profile_property ProfileSelection.nothing = []
profile_property (ProfileSelection.selectable default) =
    (
      codes "profile",
      SynthesizedPropertySchema.string (record {
        description = "Configured local profile alias; never an email or credential.";
        min_length = 1;
        max_length = max_synthesized_profile_alias_bytes;
        pattern_text = some profile_alias_pattern;
        format = none;
        default = default;
        max_utf8_bytes = some max_synthesized_profile_alias_bytes;
        data_sensitivity = none;
        path_authority = none;
      }),
    )
    ∷ []
profile_property (ProfileSelection.fixed alias) = []
profile_property ProfileSelection.implicit = []

abbrev profile_required : ProfileSelection → List Text
profile_required ProfileSelection.nothing = []
profile_required (ProfileSelection.selectable none) = codes "profile" ∷ []
profile_required (ProfileSelection.selectable (some alias)) = []
profile_required (ProfileSelection.fixed alias) = []
profile_required ProfileSelection.implicit = []

abbrev stdin_schema : DataSensitivity → RuntimeLimits → Properties
stdin_schema sensitivity limits =
    (
      codes "stdin",
      SynthesizedPropertySchema.string (record {
        description = "Bounded standard input for the child process.";
        min_length = 0;
        max_length = unwrap_or limits.stdin_bytes max_runtime_stream_bytes;
        pattern_text = none;
        format = none;
        default = none;
        max_utf8_bytes = some (unwrap_or limits.stdin_bytes max_runtime_stream_bytes);
        data_sensitivity = some sensitivity;
        path_authority = none;
      }),
    )
    ∷ []

abbrev stdin_property : StdinMode → DataSensitivity → RuntimeLimits → Properties
stdin_property StdinMode.denied sensitivity limits = []
stdin_property StdinMode.optional sensitivity limits = stdin_schema sensitivity limits
stdin_property StdinMode.required sensitivity limits = stdin_schema sensitivity limits

abbrev stdin_required : StdinMode → List Text
stdin_required StdinMode.denied = []
stdin_required StdinMode.optional = []
stdin_required StdinMode.required = codes "stdin" ∷ []

abbrev directory_schema : WorkingDirectoryMode → String → String → Properties
directory_schema mode description format =
    (
      codes "working_dir",
      SynthesizedPropertySchema.string (record {
        description = description;
        min_length = 1;
        max_length = max_synthesized_working_directory_bytes;
        pattern_text = none;
        format = some format;
        default = none;
        max_utf8_bytes = some max_synthesized_working_directory_bytes;
        data_sensitivity = none;
        path_authority = some mode;
      }),
    )
    ∷ []

abbrev directory_property : WorkingDirectoryMode → Properties
directory_property WorkingDirectoryMode.denied = []
directory_property WorkingDirectoryMode.workspace =
    directory_schema WorkingDirectoryMode.workspace
      "Workspace-relative working directory authorized by the runtime." "workspace-relative-path"
directory_property WorkingDirectoryMode.output_root =
    directory_schema WorkingDirectoryMode.output_root
      "Output-root-relative working directory authorized by the runtime."
      "output-root-relative-path"

abbrev timeout_property : RuntimeLimits → Properties
timeout_property limits =
    (
      codes "timeout_secs",
      SynthesizedPropertySchema.integer (record {
        description = "Requested wall-clock ceiling; local policy may lower it.";
        minimum = 1;
        maximum = unwrap_or limits.timeout_secs max_runtime_timeout_secs;
      }),
    )
    ∷ []

abbrev pub text_le : Text → Text → Bool
text_le a b = text_compare a b true

unfoldable pub synthesize_cli_input_schema :
    ProfileSelection
    → StdinMode
    → DataSensitivity
    → WorkingDirectoryMode
    → RuntimeLimits
    → SynthesizedInputSchema
synthesize_cli_input_schema selection mode sensitivity directory limits = record {
  schema_type = "object";
  properties =
      args_property
      ++ (profile_property selection
          ++ (stdin_property mode sensitivity limits
              ++ (timeout_property limits ++ directory_property directory)));
  required = sort text_le (codes "args" ∷ (profile_required selection ++ stdin_required mode));
  additional_properties = false;
}
