-- ===== src/Prelude/Sets.antt =====
-- Sets of texts as lists, and the tests of the standard library on texts that are no loops of the
-- program.
use mathlib.Core.Path.{◌≡◌, refl, subst}
use mathlib.Core.Logic.{◌≢◌, ◌⊎◌, inl, inr}
use mathlib.Core.Bool.{Bool, true, false, ◌&&◌, ◌||◌}
use mathlib.Core.Option.{Option, none, some}
use mathlib.Core.List.{List, [], ◌∷◌, map}
use Prim.Native.Nat.{ℕ, ◌+◌, ◌-◌}
use Prim.Native.String.{String}
use native.Mathlib.Omega.{arith}
use magic_run.Prelude.Tests.{leb, ◌==◌, if◌then◌else◌, holds, holds_refl, holds→, Bool-cases}
use magic_run.Prelude.Lists.{any, all}
use magic_run.Prelude.Texts.{Text, Text-discrete, codes}

-- `is_empty`
abbrev pub is_nil {ℓ} : {A : Type ℓ} → List A → Bool
is_nil [] = true
is_nil (x ∷ xs) = false

-- `BTreeSet::contains` and `is_subset`
unfoldable pub contains : List Text → Text → Bool
contains set value = any (λ x. holds (Text-discrete x value)) set

unfoldable pub is_subset : List Text → List Text → Bool
is_subset small large = all (contains large) small

-- Every element of the first is one of the second.
abbrev pub Covers : List Text → List Text → Type 0
Covers required granted =
    (value : Text) → contains required value ≡ true → contains granted value ≡ true

-- `BTreeMap::get`
abbrev pub get : {A : Type 0} → List (Text × A) → Text → Option A
get [] key = none
get ((name, value) ∷ entries) key =
    if holds (Text-discrete name key) then some value else get entries key

abbrev pub keys : {A : Type 0} → List (Text × A) → List Text
keys entries = map (λ entry. entry.0) entries

abbrev pub values : {A : Type 0} → List (Text × A) → List A
values entries = map (λ entry. entry.1) entries

-- `matches!(value, "a" | "b" | ..)`
unfoldable pub one_of : List String → Text → Bool
one_of [] value = false
one_of (name ∷ names) value = holds (Text-discrete value (codes name)) || one_of names value

-- `str::starts_with` for a text, and the tests for one character.
unfoldable pub has_prefix : Text → Text → Bool
has_prefix [] value = true
has_prefix (a ∷ prefix) [] = false
has_prefix (a ∷ prefix) (c ∷ value) = let rest = has_prefix prefix value in a == c && rest

abbrev pub first_is : ℕ → Text → Bool
first_is c [] = false
first_is c (a ∷ value) = a == c

abbrev pub last_is : ℕ → Text → Bool
last_is c [] = false
last_is c (a ∷ []) = a == c
last_is c (a ∷ b ∷ value) = last_is c (b ∷ value)

-- `char::to_ascii_uppercase` and `to_ascii_lowercase`
abbrev pub upper : ℕ → ℕ
upper c = if leb b'a' c && leb c b'z' then c - 32 else c

abbrev pub lower : ℕ → ℕ
lower c = if leb b'A' c && leb c b'Z' then c + 32 else c

unfoldable pub to_ascii_uppercase : Text → Text
to_ascii_uppercase value = map upper value

unfoldable pub to_ascii_lowercase : Text → Text
to_ascii_lowercase value = map lower value

unfoldable pub eq_ignore_ascii_case : Text → Text → Bool
unfolding to_ascii_lowercase
eq_ignore_ascii_case a b = holds (Text-discrete (to_ascii_lowercase a) (to_ascii_lowercase b))

-- What a set holds after an insertion.
pub contains-head : (x : Text) (set : List Text) → contains (x ∷ set) x ≡ true
unfolding contains
contains-head x set = let same = holds_refl Text-discrete x in ground arith

pub contains-tail :
    (x : Text) (set : List Text) (value : Text)
    → contains set value ≡ true
    → contains (x ∷ set) value ≡ true
unfolding contains
contains-tail x set value e = ground arith

contains-other :
    (x : Text) (small : List Text) (value : Text)
    → x ≢ value
    → contains (x ∷ small) value ≡ true
    → contains small value ≡ true
unfolding contains
contains-other x small value other e = elim (Text-discrete x value) [
  | yes same ↦ absurd (other same)
  | no _ ↦ ground (arith)
]

pub is_subset-Covers : (small large : List Text) → is_subset small large ≡ true → Covers small large
unfolding is_subset contains
is_subset-Covers [] large h value e = cc
is_subset-Covers (x ∷ small) large h value e = elim (Text-discrete x value) [
  | yes same ↦ subst (λ v. contains large v ≡ true) same (ground (arith))
  | no other ↦
      is_subset-Covers small large (ground (arith)) value (contains-other x small value other e)
]

-- What passes one test fails another that excludes it.
pub none_of :
    (p q : ℕ → Bool)
    → ((c : ℕ) → p c ≡ true → q c ≡ false)
    → (value : Text) → all p value ≡ true
    → any q value ≡ false
none_of p q apart [] h = refl
none_of p q apart (c ∷ rest) h =
    let head = apart c (ground (arith)) in
    let later = none_of p q apart rest (ground (arith)) in ground (arith)

pub contains-cons :
    (x : Text) (set : List Text) (value : Text)
    → contains (x ∷ set) value ≡ true
    → (x ≡ value) ⊎ (contains set value ≡ true)
unfolding contains
contains-cons x set value h = elim (Bool-cases (holds (Text-discrete x value))) [
  | inl e ↦ inl (holds→ (Text-discrete x value) e)
  | inr e ↦ inr (ground (arith))
]

pub contains_nil : (name : Text) → contains [] name ≡ true → ⊥
unfolding contains
contains_nil name e = cc
