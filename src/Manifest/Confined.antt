-- ===== src/Manifest/Confined.antt =====
-- What the vocabularies of tool-runtime-core/src/manifest_validation.rs keep out of a path, a
-- reference and a name of the environment.
use magic_run.Prelude.{
  ℕ, ◌≡◌, ◌≢◌, ◌≤◌, String, Bool, true, false, not, ◌||◌, List, [], ◌∷◌, Text, codes, arith, leb→le,
  ◌==◌, any, all, length, →holds, Text-discrete, is_control, is_alphanumeric, split, join, All,
}
use magic_run.Prelude.Texts.Split.{join-split}
use magic_run.Prelude.Sets.{none_of, is_nil, one_of, to_ascii_uppercase, has_prefix}
use magic_run.Manifest.Vocabulary.{
  has_char, max_profile_path_segments, identifier_char, is_identifier, is_path_segment,
  is_relative_path, is_environment_name, is_process_name, is_interpreter_injection_environment_name,
  is_safe_injection_environment_name,
}

-- One harmless name of a directory entry.
pub record IsSegment (value : Text) : Type 0 where
  pub slashless : has_char b'/' value ≡ false
  pub backslashless : has_char b'\\' value ≡ false
  pub printable : any is_control value ≡ false
  pub not_empty : value ≢ codes ""
  pub not_here : value ≢ codes "."
  pub not_parent : value ≢ codes ".."

nonempty : (value : Text) → not (is_nil value) ≡ true → value ≢ codes ""
nonempty [] h e = cc
nonempty (c ∷ value) h e = cc

identifier_char-apart :
    (c : ℕ)
    → identifier_char c ≡ true
    → (c == b'/' ≡ false) × (c == b'\\' ≡ false) × (is_control c ≡ false)
unfolding identifier_char is_control
identifier_char-apart c h = (ground arith, ground arith, ground arith)

pub is_identifier-IsSegment : (value : Text) → is_identifier value ≡ true → IsSegment value
unfolding is_identifier one_of
is_identifier-IsSegment value h =
    let every : all identifier_char value ≡ true = ground (arith) in
    record {
      slashless = none_of identifier_char _ (λ c p. (identifier_char-apart c p).0) value every;
      backslashless = none_of identifier_char _ (λ c p. (identifier_char-apart c p).1) value every;
      printable =
          none_of identifier_char is_control (λ c p. (identifier_char-apart c p).2) value every;
      not_empty = λ e. nonempty value (ground (arith)) e;
      not_here = λ e. let same = →holds (Text-discrete value (codes ".")) e in ground (arith);
      not_parent = λ e. let same = →holds (Text-discrete value (codes "..")) e in ground (arith);
    }

-- The join of its components, of which none can leave the root.
pub record IsConfined (value : Text) : Type 0 where
  pub joined : join b'/' (split b'/' value) ≡ value
  pub segments : All IsSegment (split b'/' value)
  pub bounded : length (split b'/' value) ≤ max_profile_path_segments

all-All :
    (p : Text → Bool) (P : Text → Type 0)
    → ((x : Text) → p x ≡ true → P x)
    → (xs : List Text) → all p xs ≡ true
    → All P xs
all-All p P f [] h = tt
all-All p P f (x ∷ xs) h = (f x (ground (arith)), all-All p P f xs (ground (arith)))

is_path_segment-IsSegment : (value : Text) → is_path_segment value ≡ true → IsSegment value
unfolding is_path_segment
is_path_segment-IsSegment value h = is_identifier-IsSegment value (ground (arith))

-- An accepted relative path is the join of its components by `/`, at most 32 of them, and each is a
-- single name: it is not empty, "." or "..", and has no separator and no control character.
pub is_relative_path-IsConfined : (value : Text) → is_relative_path value ≡ true → IsConfined value
unfolding is_relative_path
is_relative_path-IsConfined value h = record {
  joined = join-split b'/' value;
  segments =
      all-All is_path_segment IsSegment is_path_segment-IsSegment (split b'/' value)
        (ground (arith));
  bounded = leb→le _ _ (ground (arith));
}

-- The names, in upper case, that a process, its loader, its shell or its interpreter reads.
abbrev pub private_names : List String
private_names =
    "PATH" ∷ "HOME" ∷ "USER" ∷ "LOGNAME" ∷ "SHELL" ∷ "PWD" ∷ "OLDPWD" ∷ "TMPDIR" ∷ "TMP" ∷ "TEMP"
    ∷ "LD_PRELOAD" ∷ "LD_LIBRARY_PATH" ∷ "BASH_ENV" ∷ "ENV" ∷ "PYTHONPATH" ∷ "PYTHONHOME"
    ∷ "NODE_OPTIONS" ∷ "RUBYOPT" ∷ "PERL5OPT" ∷ "SSLKEYLOGFILE" ∷ []

abbrev pub interpreter_names : List String
interpreter_names =
    "PYTHONSTARTUP" ∷ "PYTHONINSPECT" ∷ "PYTHONBREAKPOINT" ∷ "PYTHONUSERBASE" ∷ "PYTHONWARNINGS"
    ∷ "PYTHONPATH" ∷ "PYTHONHOME" ∷ "NODE_PATH" ∷ "NODE_OPTIONS" ∷ "JAVA_TOOL_OPTIONS" ∷ "RUBYLIB"
    ∷ "RUBYOPT" ∷ "PERLLIB" ∷ "PERL5LIB" ∷ "PERL5OPT" ∷ "GIT_SSH_COMMAND" ∷ "GIT_EXEC_PATH"
    ∷ "BASH_ENV" ∷ "ENV" ∷ "OPENSSL_CONF" ∷ "OPENSSL_ENGINES" ∷ "OPENSSL_MODULES" ∷ []

abbrev pub private_prefixes : List String
private_prefixes = "DYLD_" ∷ "GIT_CONFIG_" ∷ "NPM_CONFIG_" ∷ "LUA_INIT" ∷ []

-- A name of one entry of an environment, and in no letter case one that the process itself reads.
pub record IsPublicName (value : Text) : Type 0 where
  pub not_empty : value ≢ codes ""
  pub no_equals : has_char b'=' value ≡ false
  pub printable : any is_control value ≡ false
  pub not_private : All (λ name. to_ascii_uppercase value ≢ codes name) private_names
  pub not_interpreter : All (λ name. to_ascii_uppercase value ≢ codes name) interpreter_names
  pub not_prefixed :
      All (λ prefix. has_prefix (codes prefix) (to_ascii_uppercase value) ≡ false) private_prefixes

one_of-All :
    (names : List String) (value : Text)
    → one_of names value ≡ false
    → All (λ name. value ≢ codes name) names
unfolding one_of
one_of-All [] value h = tt
one_of-All (name ∷ names) value h = (
  λ e. let same = →holds (Text-discrete value (codes name)) e in ground (arith),
  one_of-All names value (ground (arith)),
)

name_char-apart :
    (c : ℕ) → is_alphanumeric c || c == b'_' ≡ true → (c == b'=' ≡ false) × (is_control c ≡ false)
unfolding is_control
name_char-apart c h = (ground arith, ground arith)

pub is_safe_injection_environment_name-IsPublicName :
    (value : Text) → is_safe_injection_environment_name value ≡ true → IsPublicName value
unfolding is_safe_injection_environment_name is_environment_name is_process_name
    is_interpreter_injection_environment_name
is_safe_injection_environment_name-IsPublicName value h =
    let free : is_process_name (to_ascii_uppercase value) ≡ false = ground (arith) in
    let every : all (λ c. is_alphanumeric c || c == b'_') value ≡ true = ground (arith) in
    record {
      not_empty = λ e. nonempty value (ground (arith)) e;
      no_equals = none_of _ (λ c. c == b'=') (λ c p. (name_char-apart c p).0) value every;
      printable = none_of _ is_control (λ c p. (name_char-apart c p).1) value every;
      not_private = one_of-All private_names (to_ascii_uppercase value) (ground (arith));
      not_interpreter = one_of-All interpreter_names (to_ascii_uppercase value) (ground (arith));
      not_prefixed = (ground (arith), (ground (arith), (ground (arith), (ground (arith), tt))));
    }
