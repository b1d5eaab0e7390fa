-- ===== src/Prelude.antt =====
-- Names that every module shares: the libraries' passed on, Boolean tests, lists over the native
-- numbers, results, and texts.
mod Tests
mod Lists
mod Results
pub mod Sorting
pub mod Finding
pub mod Texts
pub mod Sets
pub use Tests.*
pub use Lists.*
pub use Results.*
pub use Texts.{Text, codes, is_alphanumeric}
unfoldable pub use Texts.{Text-discrete, byte_len, is_control, split, join}
pub use Prim.Native.Nat.{ℕ, zero, suc, ◌+◌, ◌-◌, ◌*◌, ◌/◌, ◌%◌, ◌^◌, ◌≤◌, ◌<◌, min}
pub use Prim.Native.String.{String}
pub use mathlib.Core.Path.{◌≡◌, refl, sym, ap, ◌∙◌, subst}
pub use mathlib.Core.Logic.{◌≢◌, ◌↔◌, ◌⊎◌, inl, inr}
pub use mathlib.Core.Bool.{Bool, true, false, not, ◌&&◌, ◌||◌}
pub use mathlib.Core.Option.{Option, none, some}
pub use mathlib.Core.List.{List, [], ◌∷◌, ◌++◌, map}
pub use native.Mathlib.Omega.{arith}
