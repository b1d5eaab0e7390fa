-- ===== src/Manifest/Interpreters.antt =====
-- What the interpreters of tool-runtime-core/src/manifest_validation.rs are told to run.
use magic_run.Prelude.{
  String, codes, all, not, ap, holds, holds→, Text-discrete, ◌≡◌, ◌⊎◌, inl, inr, refl, true, false,
  some, List, [], ◌∷◌, Text, arith, first, Bool-cases,
}
use magic_run.Prelude.Sets.{is_nil, one_of, first_is, to_ascii_lowercase}
use magic_run.Manifest.Commands.{
  safe_code_target, target_behind, unchanged, interpreter_target_is_safe,
}

-- No option and not empty.
abbrev pub IsTarget : Text → Type 0
IsTarget target = (is_nil target ≡ false) × (first_is b'-' target ≡ false)

-- The first argument is one of the options and the second the target, or the first is the target.
abbrev pub NamesTarget : List String → (Text → Text) → List Text → Type 0
NamesTarget options fold [] = ⊥
NamesTarget options fold (a ∷ rest) =
    ((one_of options (fold a) ≡ true)
      × ((target : Text) × (first rest ≡ some target) × IsTarget target))
    ⊎ IsTarget a

safe_code_target-IsTarget : (target : Text) → safe_code_target target ≡ true → IsTarget target
unfolding safe_code_target
safe_code_target-IsTarget target h = (ground arith, ground arith)

lower-IsTarget : (target : Text) → IsTarget (to_ascii_lowercase target) → IsTarget target
unfolding to_ascii_lowercase
lower-IsTarget [] (full, option) = (full, option)
lower-IsTarget (c ∷ target) (full, option) = (refl, ground arith)

target_behind-NamesTarget :
    (options : List String) (fold : Text → Text) (arguments : List Text)
    → ((target : Text) → IsTarget (fold target) → IsTarget target)
    → target_behind options fold arguments ≡ true
    → NamesTarget options fold arguments
target_behind-NamesTarget options fold [] back h = cc
target_behind-NamesTarget options fold (a ∷ []) back h =
    inr (back a (safe_code_target-IsTarget (fold a) (ground (arith))))
target_behind-NamesTarget options fold (a ∷ b ∷ rest) back h =
    elim (Bool-cases (one_of options (fold a))) [
      | inl option ↦ inl (option, (b, refl, safe_code_target-IsTarget b (ground (arith))))
      | inr plain ↦ inr (back a (safe_code_target-IsTarget (fold a) (ground (arith))))
    ]

abbrev pythons : List String
pythons = "python" ∷ "python3" ∷ []

abbrev powershells : List String
powershells = "powershell" ∷ "powershell.exe" ∷ "pwsh" ∷ "pwsh.exe" ∷ []

abbrev shells : List String
shells =
    "sh" ∷ "bash" ∷ "dash" ∷ "ksh" ∷ "zsh" ∷ "fish" ∷ "ruby" ∷ "perl" ∷ "node" ∷ "nodejs"
    ∷ "osascript" ∷ []

-- A name of one list is none of another that has no name with it.
one_of-apart :
    (xs ys : List String) (name : Text)
    → all (λ x. not (one_of ys (codes x))) xs ≡ true
    → one_of xs name ≡ true
    → one_of ys name ≡ false
unfolding one_of
one_of-apart [] ys name apart h = cc
one_of-apart (x ∷ xs) ys name apart h = elim (Bool-cases (holds (Text-discrete name (codes x)))) [
  | inl e ↦ let same = ap (one_of ys) (holds→ (Text-discrete name (codes x)) e) in ground arith
  | inr e ↦ one_of-apart xs ys name (ground arith) (ground arith)
]

powershells_apart : all (λ x. not (one_of pythons (codes x))) powershells ≡ true
unfolding one_of Text-discrete
powershells_apart = refl

shells_apart :
    (all (λ x. not (one_of pythons (codes x))) shells ≡ true)
    × (all (λ x. not (one_of powershells (codes x))) shells ≡ true)
unfolding one_of Text-discrete
shells_apart = (refl, refl)

-- How an interpreter is told what it runs: `-m` or `--` may stand before the target of Python,
-- `-file` or `--` before that of a PowerShell, and `--` before that of the others.
pub record IsFixed (name : Text) (arguments : List Text) : Type 0 where
  pub python :
      one_of ("python" ∷ "python3" ∷ []) name ≡ true
      → NamesTarget ("-m" ∷ "--" ∷ []) unchanged arguments
  pub powershell :
      one_of ("powershell" ∷ "powershell.exe" ∷ "pwsh" ∷ "pwsh.exe" ∷ []) name ≡ true
      → NamesTarget ("-file" ∷ "--" ∷ []) to_ascii_lowercase arguments
  pub shell :
      one_of
          ("sh" ∷ "bash" ∷ "dash" ∷ "ksh" ∷ "zsh" ∷ "fish" ∷ "ruby" ∷ "perl" ∷ "node" ∷ "nodejs"
            ∷ "osascript" ∷ [])
          name
        ≡ true
      → NamesTarget ("--" ∷ []) unchanged arguments

pub interpreter_target_is_safe-IsFixed :
    (name : Text) (arguments : List Text)
    → interpreter_target_is_safe name arguments ≡ true
    → (one_of ("cmd" ∷ "cmd.exe" ∷ []) name ≡ false) × IsFixed name arguments
unfolding interpreter_target_is_safe
interpreter_target_is_safe-IsFixed name arguments h =
    let no_shell : one_of ("cmd" ∷ "cmd.exe" ∷ []) name ≡ false = ground arith in
    (
      no_shell,
      record {
        python =
            λ e. target_behind-NamesTarget _ unchanged arguments (λ target t. t) (ground arith);
        powershell = λ e.
            let other = one_of-apart powershells pythons name powershells_apart e in
            target_behind-NamesTarget _ to_ascii_lowercase arguments lower-IsTarget (ground arith);
        shell = λ e.
            let other = one_of-apart shells pythons name shells_apart.0 e in
            let another = one_of-apart shells powershells name shells_apart.1 e in
            target_behind-NamesTarget _ unchanged arguments (λ target t. t) (ground arith);
      },
    )
