-- ===== src/Catalog/Schemas.antt =====
-- The laws of the input schema of tool-runtime-core/src/manifest_synthesis.rs.
use magic_run.Prelude.{◌≡◌, refl, Bool, true, false, not, none, some, codes, holds, Text-discrete}
use magic_run.Prelude.Sorting.{sort, insert_sorted, IsSorted}
use magic_run.Prelude.Sets.{contains, is_subset, Covers, keys, is_subset-Covers}
use magic_run.Manifest.Mcp.{StdinMode, DataSensitivity, WorkingDirectoryMode, RuntimeLimits}
use magic_run.Manifest.Auth.{ProfileSelection}
use magic_run.Manifest.Equality.{StdinMode-discrete, WorkingDirectoryMode-discrete}
use magic_run.Credentials.Registry.{text_compare}
use magic_run.Catalog.Schema.{SynthesizedInputSchema, text_le, synthesize_cli_input_schema}

-- No default stands for the alias that a caller selects.
abbrev pub lacks_default : ProfileSelection → Bool
lacks_default ProfileSelection.nothing = false
lacks_default (ProfileSelection.selectable none) = true
lacks_default (ProfileSelection.selectable (some alias)) = false
lacks_default (ProfileSelection.fixed alias) = false
lacks_default ProfileSelection.implicit = false

-- The schema admits what the contract lets a caller choose, and asks for what it must choose.
pub record IsSchemaOf (selection : ProfileSelection) (mode : StdinMode)
    (directory : WorkingDirectoryMode) (schema : SynthesizedInputSchema) : Type 0 where
  pub closed : schema.additional_properties ≡ false
  pub declared : Covers schema.required (keys schema.properties)
  pub sorted : IsSorted text_le schema.required
  pub stdin_admitted :
      contains (keys schema.properties) (codes "stdin")
      ≡ not (holds (StdinMode-discrete mode StdinMode.denied))
  pub stdin_required :
      contains schema.required (codes "stdin") ≡ holds (StdinMode-discrete mode StdinMode.required)
  pub profile_required : contains schema.required (codes "profile") ≡ lacks_default selection
  pub directory_admitted :
      contains (keys schema.properties) (codes "working_dir")
      ≡ not (holds (WorkingDirectoryMode-discrete directory WorkingDirectoryMode.denied))

module _ (sensitivity : DataSensitivity) (limits : RuntimeLimits) where
  sorted_lem :
      (selection : ProfileSelection) (mode : StdinMode) (directory : WorkingDirectoryMode)
      → IsSorted text_le
          (synthesize_cli_input_schema selection mode sensitivity directory limits).required
  unfolding synthesize_cli_input_schema Text-discrete sort insert_sorted text_compare
  sorted_lem ProfileSelection.nothing StdinMode.denied directory = (tt, tt)
  sorted_lem ProfileSelection.nothing StdinMode.optional directory = (tt, tt)
  sorted_lem ProfileSelection.nothing StdinMode.required directory = ((refl, tt), (tt, tt))
  sorted_lem (ProfileSelection.selectable none) StdinMode.denied directory = ((refl, tt), (tt, tt))
  sorted_lem (ProfileSelection.selectable none) StdinMode.optional directory =
      ((refl, tt), (tt, tt))
  sorted_lem (ProfileSelection.selectable none) StdinMode.required directory =
      ((refl, (refl, tt)), ((refl, tt), (tt, tt)))
  sorted_lem (ProfileSelection.selectable (some alias)) StdinMode.denied directory = (tt, tt)
  sorted_lem (ProfileSelection.selectable (some alias)) StdinMode.optional directory = (tt, tt)
  sorted_lem (ProfileSelection.selectable (some alias)) StdinMode.required directory =
      ((refl, tt), (tt, tt))
  sorted_lem (ProfileSelection.fixed alias) StdinMode.denied directory = (tt, tt)
  sorted_lem (ProfileSelection.fixed alias) StdinMode.optional directory = (tt, tt)
  sorted_lem (ProfileSelection.fixed alias) StdinMode.required directory = ((refl, tt), (tt, tt))
  sorted_lem ProfileSelection.implicit StdinMode.denied directory = (tt, tt)
  sorted_lem ProfileSelection.implicit StdinMode.optional directory = (tt, tt)
  sorted_lem ProfileSelection.implicit StdinMode.required directory = ((refl, tt), (tt, tt))

  fields :
      (selection : ProfileSelection) (mode : StdinMode) (directory : WorkingDirectoryMode)
      → let schema = synthesize_cli_input_schema selection mode sensitivity directory limits in
        (is_subset schema.required (keys schema.properties) ≡ true)
        × (contains (keys schema.properties) (codes "stdin")
            ≡ not (holds (StdinMode-discrete mode StdinMode.denied)))
        × (contains schema.required (codes "stdin")
            ≡ holds (StdinMode-discrete mode StdinMode.required))
        × (contains schema.required (codes "profile") ≡ lacks_default selection)
        × (contains (keys schema.properties) (codes "working_dir")
            ≡ not (holds (WorkingDirectoryMode-discrete directory WorkingDirectoryMode.denied)))
  unfolding synthesize_cli_input_schema is_subset contains Text-discrete sort insert_sorted
      text_compare StdinMode-discrete WorkingDirectoryMode-discrete
  fields ProfileSelection.nothing StdinMode.denied WorkingDirectoryMode.denied =
      (refl, refl, refl, refl, refl)
  fields ProfileSelection.nothing StdinMode.optional WorkingDirectoryMode.denied =
      (refl, refl, refl, refl, refl)
  fields ProfileSelection.nothing StdinMode.required WorkingDirectoryMode.denied =
      (refl, refl, refl, refl, refl)
  fields (ProfileSelection.selectable none) StdinMode.denied WorkingDirectoryMode.denied =
      (refl, refl, refl, refl, refl)
  fields (ProfileSelection.selectable none) StdinMode.optional WorkingDirectoryMode.denied =
      (refl, refl, refl, refl, refl)
  fields (ProfileSelection.selectable none) StdinMode.required WorkingDirectoryMode.denied =
      (refl, refl, refl, refl, refl)
  fields (ProfileSelection.selectable (some alias)) StdinMode.denied WorkingDirectoryMode.denied =
      (refl, refl, refl, refl, refl)
  fields (ProfileSelection.selectable (some alias)) StdinMode.optional WorkingDirectoryMode.denied =
      (refl, refl, refl, refl, refl)
  fields (ProfileSelection.selectable (some alias)) StdinMode.required WorkingDirectoryMode.denied =
      (refl, refl, refl, refl, refl)
  fields (ProfileSelection.fixed alias) StdinMode.denied WorkingDirectoryMode.denied =
      (refl, refl, refl, refl, refl)
  fields (ProfileSelection.fixed alias) StdinMode.optional WorkingDirectoryMode.denied =
      (refl, refl, refl, refl, refl)
  fields (ProfileSelection.fixed alias) StdinMode.required WorkingDirectoryMode.denied =
      (refl, refl, refl, refl, refl)
  fields ProfileSelection.implicit StdinMode.denied WorkingDirectoryMode.denied =
      (refl, refl, refl, refl, refl)
  fields ProfileSelection.implicit StdinMode.optional WorkingDirectoryMode.denied =
      (refl, refl, refl, refl, refl)
  fields ProfileSelection.implicit StdinMode.required WorkingDirectoryMode.denied =
      (refl, refl, refl, refl, refl)
  fields _ _ _ = (refl, refl, refl, refl, refl)

-- The input schema of a command line tool is closed, and every name that it requires, in order, is
-- a property of it. It has a standard input exactly when the contract does not deny one, and asks
-- for it exactly when the contract requires one. It asks for a profile exactly when one is selected
-- and no default stands for it, and has a working directory exactly when that is not denied.
pub synthesize_cli_input_schema-IsSchemaOf :
    (selection : ProfileSelection) (mode : StdinMode) (sensitivity : DataSensitivity)
    (directory : WorkingDirectoryMode) (limits : RuntimeLimits)
    → IsSchemaOf selection mode directory
        (synthesize_cli_input_schema selection mode sensitivity directory limits)
unfolding synthesize_cli_input_schema
synthesize_cli_input_schema-IsSchemaOf selection mode sensitivity directory limits =
    let (declared, admitted, required, profile, working) =
      fields sensitivity limits selection mode directory in
    record {
      closed = refl;
      declared = is_subset-Covers _ _ declared;
      sorted = sorted_lem sensitivity limits selection mode directory;
      stdin_admitted = admitted;
      stdin_required = required;
      profile_required = profile;
      directory_admitted = working;
    }
