-- ===== src/Base.antt =====
-- Shared by all components: names of the libraries passed on, Boolean tests, results, lists of
-- native length, and byte strings. A Go string or []byte is a list of numbers, its bytes.
mod Tests
mod Lists
mod Results
mod ByteStrings
pub mod Options
pub mod Programs
pub mod Flips
pub use Tests.*
pub use Lists.*
pub use Results.*
pub use ByteStrings.*
pub use Prim.Native.Nat.{ℕ, zero, suc, ◌+◌, ◌-◌, ◌*◌, ◌/◌, ◌%◌, ◌^◌, ◌≤◌, ◌<◌}
pub use mathlib.Core.Path.{◌≡◌, refl, sym, ap, ◌∙◌}
pub use mathlib.Core.Logic.{◌≢◌, ◌↔◌, ◌⊎◌, inl, inr}
pub use mathlib.Core.Bool.{Bool, true, false, not, ◌&&◌, ◌||◌}
pub use mathlib.Core.Option.{Option, none, some}
pub use mathlib.Core.List.{List, [], ◌∷◌, ◌++◌, map, append-nil, append_assoc}
pub use native.Mathlib.Omega.{arith}
