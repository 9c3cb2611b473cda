-- ===== src/Base.antt =====
-- What the modules of this library share: names of the libraries, passed on, and the names of the
-- children (tests on numbers, lists, signed integers, bytes, texts, results of fallible code,
-- floats).
mod Tests
mod Lists
mod Members
pub mod Int
pub mod Bytes
pub mod Text
mod Results
mod Numbers
pub use Tests.*
pub use Lists.*
pub use Members.*
unfoldable pub use Results.*
pub use Numbers.*
pub use Prim.Native.Nat.{ℕ, zero, suc, ◌+◌, ◌-◌, ◌*◌, ◌/◌, ◌%◌, ◌^◌, ◌≤◌, ◌<◌}
pub use Prim.Native.String.{String}
pub use mathlib.Core.Path.{◌≡◌, refl, sym, ap, ◌∙◌}
pub use mathlib.Core.Logic.{◌≢◌, ◌↔◌, ◌⊎◌, inl, inr}
pub use mathlib.Core.Bool.{Bool, true, false, not, ◌&&◌, ◌||◌}
pub use mathlib.Core.Option.{Option, none, some}
pub use mathlib.Core.List.{List, [], ◌∷◌, ◌++◌, map}
pub use native.Mathlib.Omega.{arith}
pub use text.Mathlib.Text.{◌==◌ as str_eq}
pub use text.Mathlib.TextEquality.{eq_iff}
