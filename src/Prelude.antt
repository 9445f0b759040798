-- ===== src/Prelude.antt =====
-- The names that the modules of this library share: the libraries' own, passed on, and those of the
-- children below.
mod Tests
mod Lists
mod Results
pub mod Int
mod Texts
pub mod Sort
pub use Tests.*
pub use Prim.Native.Nat.{ℕ, zero, suc, ◌+◌, ◌-◌, ◌*◌, ◌≤◌, ◌<◌}
pub use Prim.Native.String.{String}
pub use mathlib.Core.Path.{◌≡◌, refl, sym, ap, ap₂, ◌∙◌, subst}
pub use mathlib.Core.Logic.{◌≢◌, ◌↔◌, ◌⊎◌, inl, inr}
pub use mathlib.Core.Bool.{Bool, true, false, not, ◌&&◌, ◌||◌}
pub use mathlib.Core.Option.{Option, none, some}
pub use mathlib.Core.List.{List, [], ◌∷◌, ◌++◌, append_assoc, append-nil}
unfoldable pub use mathlib.Core.List.{map, reverse}
pub use mathlib.Core.List.{reverse-cons, reverse-append}
pub use native.Mathlib.Omega.{arith}
unfoldable pub use Lists.{any, all, select}
pub use Lists.*
pub use Results.*
unfoldable pub use Texts.{
  text_eq, contains, starts_with, ends_with, text_lt, member_of, are_distinct,
}
pub use Texts.*
