-- ===== src/Base.antt =====
-- The names that the other modules share: the library's, passed on, and those of the children.
-- `Base.Nat` has the Boolean tests and the machine words, `Base.Lists` lists under native indices,
-- `Base.Results` the result of code that can panic, `Base.Map` the hash maps.
mod Nat
mod Lists
mod Results
pub mod Map
unfoldable pub use Nat.*
unfoldable pub use Lists.*
unfoldable pub use Results.*
pub use Prim.Native.Nat.{ℕ, zero, suc, ◌+◌, ◌-◌, ◌*◌, ◌/◌, ◌%◌, ◌^◌, ◌≤◌, ◌<◌}
pub use mathlib.Core.Path.{◌≡◌, refl, sym, ap, subst, ◌∙◌}
pub use mathlib.Core.Logic.{◌≢◌, ◌↔◌, ◌⊎◌, inl, inr}
pub use mathlib.Core.Bool.{Bool, true, false, not, ◌&&◌, ◌||◌}
pub use mathlib.Core.Option.{Option, none, some}
pub use mathlib.Core.List.{List, [], ◌∷◌, ◌++◌, map}
pub use native.Mathlib.Omega.{arith}
