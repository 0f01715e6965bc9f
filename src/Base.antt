-- ===== src/Base.antt =====
-- What the modules share: names of the libraries passed on, tests on numbers and byte strings,
-- lists with native lengths, maps as association lists, sorting by a number.
mod Tests
mod Lists
mod Eq
pub mod Maps
pub mod Sort
pub mod Slices
pub mod Entries
pub mod Hex
pub use Tests.*
pub use Lists.*
unfoldable pub use Lists.{keep}
pub use Eq.{Equality, ◌==◌, Bytes, codes, bytes_eq_iff, bytes_equality, nat_equality, beq_refl}
unfoldable pub use Eq.{bytes_eq}
pub use Prim.Native.Nat.{ℕ, zero, suc, ◌+◌, ◌-◌, ◌*◌, ◌/◌, ◌%◌, ◌^◌, ◌≤◌, ◌<◌}
pub use Prim.Native.String.{String}
pub use mathlib.Core.Path.{◌≡◌, refl, sym, ap, ◌∙◌}
pub use mathlib.Core.Logic.{◌≢◌, ◌↔◌, ◌⊎◌, inl, inr}
pub use mathlib.Core.Bool.{Bool, true, false, not, ◌&&◌, ◌||◌}
pub use mathlib.Core.Option.{Option, none, some}
pub use mathlib.Core.List.{List, [], ◌∷◌, ◌++◌, map}
pub use native.Mathlib.Omega.{arith}
