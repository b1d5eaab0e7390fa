-- ===== src/Manifest/Vocabulary.antt =====
-- The portable vocabularies of tool-runtime-core/src/manifest_validation.rs. No byte of a longer
-- UTF-8 sequence passes a test for an ASCII class, so a test of all bytes is one of all characters.
use magic_run.Prelude.{
  ℕ, ◌+◌, Bool, true, false, ◌&&◌, ◌||◌, not, [], ◌∷◌, Text, codes, ltb, leb, ◌==◌, any, all,
  length, byte_len, is_alphanumeric, is_control, split, if◌then◌else◌,
}
use magic_run.Prelude.Sets.{is_nil, one_of, has_prefix, first_is, last_is, to_ascii_uppercase}

abbrev pub max_identifier_bytes : ℕ
max_identifier_bytes = 256

abbrev pub max_reference_bytes : ℕ
max_reference_bytes = 512

abbrev pub max_relative_path_bytes : ℕ
max_relative_path_bytes = 1024

abbrev pub max_json_pointer_bytes : ℕ
max_json_pointer_bytes = 1024

abbrev pub max_profile_path_segments : ℕ
max_profile_path_segments = 32

-- `value.contains(c)`
abbrev pub has_char : ℕ → Text → Bool
has_char c value = any (λ a. a == c) value

unfoldable pub identifier_char : ℕ → Bool
identifier_char c = is_alphanumeric c || c == b'_' || c == b'-' || c == b'.' || c == b'+'

unfoldable pub is_identifier : Text → Bool
unfolding identifier_char
is_identifier value =
    not (is_nil value)
    && leb (byte_len value) max_identifier_bytes
    && not (one_of ("." ∷ ".." ∷ []) value)
    && all identifier_char value

unfoldable pub is_profile_alias : Text → Bool
is_profile_alias value = is_identifier value && not (has_char b'@' value)

unfoldable pub is_executable_name : Text → Bool
is_executable_name value =
    is_identifier value && not (has_char b'/' value) && not (has_char b'\\' value)

unfoldable pub is_path_segment : Text → Bool
is_path_segment value =
    is_identifier value && not (has_char b'/' value) && not (has_char b'\\' value)

unfoldable pub reference_char : ℕ → Bool
reference_char c =
    is_alphanumeric c || c == b'_' || c == b'-' || c == b'.' || c == b'+' || c == b':'

unfoldable pub is_reference_segment : Text → Bool
is_reference_segment value = all reference_char value

unfoldable pub is_reference : Text → Bool
is_reference value =
    not (
      is_nil value
      || ltb max_reference_bytes (byte_len value)
      || first_is b'/' value
      || last_is b'/' value
      || has_char b'\\' value)
    && all (λ segment. not (one_of ("" ∷ "." ∷ ".." ∷ []) segment) && is_reference_segment segment)
        (split b'/' value)

-- `is_ascii_alphabetic` and `is_ascii_digit`
abbrev pub is_alphabetic : ℕ → Bool
is_alphabetic c = (leb b'A' c && leb c b'Z') || (leb b'a' c && leb c b'z')

abbrev pub is_digit : ℕ → Bool
is_digit c = leb b'0' c && leb c b'9'

abbrev starts_name : Text → Bool
starts_name [] = false
starts_name (c ∷ value) = is_alphabetic c || c == b'_'

unfoldable pub is_environment_name : Text → Bool
is_environment_name value =
    not (is_nil value)
    && leb (byte_len value) max_identifier_bytes
    && starts_name value
    && all (λ c. is_alphanumeric c || c == b'_') value

unfoldable pub is_interpreter_injection_environment_name : Text → Bool
is_interpreter_injection_environment_name upper =
    one_of
      ("PYTHONSTARTUP" ∷ "PYTHONINSPECT" ∷ "PYTHONBREAKPOINT" ∷ "PYTHONUSERBASE" ∷ "PYTHONWARNINGS"
        ∷ "PYTHONPATH" ∷ "PYTHONHOME" ∷ "NODE_PATH" ∷ "NODE_OPTIONS" ∷ "JAVA_TOOL_OPTIONS"
        ∷ "RUBYLIB" ∷ "RUBYOPT" ∷ "PERLLIB" ∷ "PERL5LIB" ∷ "PERL5OPT" ∷ "GIT_SSH_COMMAND"
        ∷ "GIT_EXEC_PATH" ∷ "BASH_ENV" ∷ "ENV" ∷ "OPENSSL_CONF" ∷ "OPENSSL_ENGINES"
        ∷ "OPENSSL_MODULES" ∷ [])
      upper
    || has_prefix (codes "NPM_CONFIG_") upper
    || has_prefix (codes "LUA_INIT") upper

-- The test of the name in upper case.
unfoldable pub is_process_name : Text → Bool
is_process_name upper =
    one_of
      ("PATH" ∷ "HOME" ∷ "USER" ∷ "LOGNAME" ∷ "SHELL" ∷ "PWD" ∷ "OLDPWD" ∷ "TMPDIR" ∷ "TMP" ∷ "TEMP"
        ∷ "LD_PRELOAD" ∷ "LD_LIBRARY_PATH" ∷ "BASH_ENV" ∷ "ENV" ∷ "PYTHONPATH" ∷ "PYTHONHOME"
        ∷ "NODE_OPTIONS" ∷ "RUBYOPT" ∷ "PERL5OPT" ∷ "SSLKEYLOGFILE" ∷ [])
      upper
    || has_prefix (codes "DYLD_") upper
    || has_prefix (codes "GIT_CONFIG_") upper
    || is_interpreter_injection_environment_name upper

unfoldable pub is_safe_injection_environment_name : Text → Bool
is_safe_injection_environment_name value =
    is_environment_name value && not (is_process_name (to_ascii_uppercase value))

-- The loop counts the components and stops at the first that is refused.
unfoldable pub is_relative_path : Text → Bool
is_relative_path value =
    not (
      is_nil value
      || ltb max_relative_path_bytes (byte_len value)
      || has_char b'\\' value
      || any is_control value)
    && all is_path_segment (split b'/' value)
    && leb (length (split b'/' value)) max_profile_path_segments

-- `~` stands only before `0` or `1`.
unfoldable pub escapes : Text → Bool
escapes [] = true
escapes (c ∷ []) = not (c == b'~')
escapes (c ∷ d ∷ rest) =
    let one = escapes (d ∷ rest) in
    let two = escapes rest in if c == b'~' then (d == b'0' || d == b'1') && two else one

-- A pointer that begins with `/` has one piece before its segments.
unfoldable pub is_json_pointer : Text → Bool
is_json_pointer pointer =
    not (
      is_nil pointer
      || ltb max_json_pointer_bytes (byte_len pointer)
      || not (first_is b'/' pointer)
      || any is_control pointer
      || ltb (max_profile_path_segments + 1) (length (split b'/' pointer)))
    && escapes pointer

unfoldable pub is_mcp_tool_name : Text → Bool
is_mcp_tool_name value =
    not (is_nil value)
    && leb (byte_len value) max_identifier_bytes
    && all (λ c. is_alphanumeric c || c == b'_' || c == b'-' || c == b'.' || c == b':' || c == b'/')
        value

unfoldable pub is_mcp_policy_term : Text → Bool
is_mcp_policy_term value =
    not (is_nil value)
    && leb (byte_len value) 128
    && all (λ c. (leb b'a' c && leb c b'z') || is_digit c || c == b'_' || c == b'-') value

unfoldable pub is_normalized_mcp_field : Text → Bool
is_normalized_mcp_field value =
    not (is_nil value)
    && leb (byte_len value) 128
    && all (λ c. (leb b'a' c && leb c b'z') || is_digit c) value
