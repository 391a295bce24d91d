-- ===== src/Prelude.antt =====
-- Names that the modules share: library names passed on, and those of the children.
mod Tests
mod Lists
mod Rows
mod Sort
mod Round
pub use Tests.*
pub use Lists.*
pub use Rows.*
unfoldable pub use Sort.{order_by}
pub use Sort.*
unfoldable pub use Round.{round_div}
pub use Round.*
pub use Prim.Native.Nat.{
  ℕ, zero, suc, ◌+◌, ◌-◌, ◌*◌, ◌/◌, ◌%◌, ◌^◌, ◌≤◌, ◌<◌, min, max, compare, Ordering,
}
pub use mathlib.Core.Path.{◌≡◌, refl, sym, ap, ◌∙◌, subst}
pub use mathlib.Core.Logic.{◌≢◌, ◌↔◌, ◌⊎◌, inl, inr, ⊎_elim}
pub use mathlib.Core.Bool.{Bool, true, false, not, ◌&&◌, ◌||◌}
pub use mathlib.Core.Option.{Option, none, some}
pub use mathlib.Core.List.{List, [], ◌∷◌, ◌++◌, map, Memᴰ}
pub use native.Mathlib.Omega.{arith}
