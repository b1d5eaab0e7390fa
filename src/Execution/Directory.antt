-- ===== src/Execution/Directory.antt =====
-- What `validate_working_directory` of tool-runtime-core/src/governed_execution.rs accepts.
use mathlib.Core.List.{append-nil, append_assoc}
use magic_run.Prelude.{
  ◌+◌, ◌≤◌, ◌≡◌, ◌≢◌, ap, ◌∙◌, ◌↔◌, false, Option, none, some, List, [], ◌∷◌, ◌++◌, Text, ok, arith,
  any, length, first, All, All-map, refl, subst, byte_len, codes, holds, →holds, Text-discrete,
  is_control, split, join, length-append, ◌==◌,
}
use magic_run.Prelude.Texts.Split.{join-split, All-split, split-lacks_sep}
use magic_run.Manifest.Mcp.{WorkingDirectoryMode}
use magic_run.Execution.Request.{
  max_governed_working_directory_components, component_is_invalid, value_is_invalid,
  collect_components, validate_working_directory,
}
use magic_run.Catalog.Schema.{max_synthesized_working_directory_bytes}

-- The name of one entry, of at most 255 bytes, that is not the current or the parent directory.
abbrev pub IsComponent : Text → Type 0
IsComponent component =
    (component ≢ [])
    × (byte_len component ≤ 255)
    × (component ≢ codes ".")
    × (component ≢ codes "..")

-- A relative value with no backslash and no control character.
abbrev pub IsRelative : Text → Type 0
IsRelative value =
    (value ≢ [])
    × (byte_len value ≤ max_synthesized_working_directory_bytes)
    × (first value ≢ some b'/')
    × (any (λ c. c == b'\\') value ≡ false)
    × (any is_control value ≡ false)

byte_len-nil : (value : Text) → byte_len value ≡ 0 → value ≡ []
unfolding byte_len
byte_len-nil [] e = refl
byte_len-nil (c ∷ value) e = absurd (ground arith)

byte_len-full : (value : Text) → value ≢ [] → byte_len value ≢ 0
byte_len-full value full e = full (byte_len-nil value e)

empty_size : byte_len [] ≡ 0
unfolding byte_len
empty_size = refl

refuted : {A : Type 0} (d : Dec A) → (A → ⊥) → holds d ≡ false
refuted (yes a) no_proof = absurd (no_proof a)
refuted (no n) no_proof = refl

component_is_invalid_iff :
    (component : Text) → (component_is_invalid component ≡ false) ↔ IsComponent component
unfolding component_is_invalid
component_is_invalid_iff component = (
  λ h. (
    λ e. let size = ap byte_len e ∙ empty_size in ground arith,
    ground arith,
    λ e. let same = →holds (Text-discrete component (codes ".")) e in ground arith,
    λ e. let same = →holds (Text-discrete component (codes "..")) e in ground arith,
  ),
  λ (full, short, here, parent).
      let size = byte_len-full component full in
      let not_here = refuted (Text-discrete component (codes ".")) here in
      let not_parent = refuted (Text-discrete component (codes "..")) parent in ground arith,
)

value_is_invalid_iff : (value : Text) → (value_is_invalid value ≡ false) ↔ IsRelative value
unfolding value_is_invalid
value_is_invalid_iff [] = (
  λ h. let size = empty_size in absurd (ground arith),
  λ (full, rest, _, _, _). absurd (full refl),
)
value_is_invalid_iff (c ∷ value) = (
  λ h. (
    λ e. cc,
    ground arith,
    λ e. let same : c ≡ b'/' = cc in ground arith,
    ground arith,
    ground arith,
  ),
  λ (full, short, slash, back, control).
      let size = byte_len-full (c ∷ value) full in
      let apart : c ≢ b'/' = λ e. slash (ap some e) in ground arith,
)

abbrev IsKept : Text → Type 0
IsKept component = component_is_invalid component ≡ false

collect_components_sound :
    (kept values result : List Text)
    → length kept ≤ max_governed_working_directory_components
    → collect_components kept values ≡ ok result
    → (result ≡ kept ++ values)
      × All IsKept values
      × (length kept + length values ≤ max_governed_working_directory_components)
unfolding collect_components
collect_components_sound kept [] result small h = ground (arith, append-nil kept)
collect_components_sound kept (v ∷ vs) result small h = ground (
  arith,
  collect_components_sound (kept ++ v ∷ []) vs result,
  append_assoc kept (v ∷ []) vs,
  length-append kept (v ∷ []),
)

collect_components_complete :
    (kept values : List Text)
    → All IsKept values
    → length kept + length values ≤ max_governed_working_directory_components
    → collect_components kept values ≡ ok (kept ++ values)
unfolding collect_components
collect_components_complete kept [] h small = ground (arith, append-nil kept)
collect_components_complete kept (v ∷ vs) h small = ground (
  arith,
  collect_components_complete (kept ++ v ∷ []) vs,
  append_assoc kept (v ∷ []) vs,
  length-append kept (v ∷ []),
)

-- The directory that a mode and a value stand for.
abbrev pub IsDirectory : WorkingDirectoryMode → Option Text → List Text → Type 0
IsDirectory mode none directory = directory ≡ []
IsDirectory mode (some value) directory =
    (mode ≢ WorkingDirectoryMode.denied)
    × IsRelative value
    × (directory ≡ split b'/' value)
    × All IsComponent directory
    × (length directory ≤ max_governed_working_directory_components)

checked_parts :
    (mode : WorkingDirectoryMode) (value : Text) (directory : List Text)
    → validate_working_directory mode (some value) ≡ ok directory
    → (mode ≢ WorkingDirectoryMode.denied)
      × (value_is_invalid value ≡ false)
      × (collect_components [] (split b'/' value) ≡ ok directory)
unfolding validate_working_directory
checked_parts mode value directory h = (ground arith, ground arith, ground arith)

pub validate_working_directory_iff :
    (mode : WorkingDirectoryMode) (value : Option Text) (directory : List Text)
    → (validate_working_directory mode value ≡ ok directory) ↔ IsDirectory mode value directory
unfolding validate_working_directory
validate_working_directory_iff mode none directory = (λ h. ground arith, λ h. ground arith)
validate_working_directory_iff mode (some value) directory = (
  λ h.
      let (allowed, valid, collected) = checked_parts mode value directory h in
      let (same, good, few) =
        collect_components_sound [] (split b'/' value) directory (omega arith) collected in
      let size : length (split b'/' value) ≤ max_governed_working_directory_components =
        omega (arith, few) in
      (
        allowed,
        (value_is_invalid_iff value).0 valid,
        same,
        rw same (All-map IsKept IsComponent (λ c. (component_is_invalid_iff c).0) _ good),
        rw same size,
      ),
  λ (allowed, valid, same, good, few).
      let relative = (value_is_invalid_iff value).1 valid in
      let kept =
        All-map IsComponent IsKept (λ c. (component_is_invalid_iff c).1) _
          (subst (All IsComponent) same good) in
      ground (arith, collect_components_complete [] (split b'/' value) kept),
)

-- An accepted value is the join of its components, and no component can leave the root: none is
-- empty, longer than 255 bytes, the current or the parent directory, and none holds a separator,
-- a backslash or a control character. There are at most 64 components.
pub validate_working_directory-IsConfined :
    (mode : WorkingDirectoryMode) (value : Text) (directory : List Text)
    → validate_working_directory mode (some value) ≡ ok directory
    → (join b'/' directory ≡ value)
      × All IsComponent directory
      × All (λ c. any (λ x. x == b'/') c ≡ false) directory
      × All (λ c. any (λ x. x == b'\\') c ≡ false) directory
      × All (λ c. any is_control c ≡ false) directory
      × (length directory ≤ max_governed_working_directory_components)
validate_working_directory-IsConfined mode value directory h =
    let (_, (_, _, _, backslash, control), e, good, few) =
      (validate_working_directory_iff mode (some value) directory).0 h in
    (
      ap (join b'/') e ∙ join-split b'/' value,
      good,
      rw e (split-lacks_sep b'/' value),
      rw e (All-split (λ x. x == b'\\') b'/' value backslash),
      rw e (All-split is_control b'/' value control),
      few,
    )
