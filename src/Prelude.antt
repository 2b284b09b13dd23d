-- ===== src/Prelude.antt =====
-- The names that the modules share: the libraries', passed on, and those of the children.
mod Tests
mod Lists
mod Erase
pub mod Members
pub mod Text
pub mod Result
pub mod Partial
pub use Tests.*
pub use Lists.{
  take, drop, take-append, drop-append, drop-drop, length-append, All, All-append, All-map,
  All-map-keep, update_first-undo, find_first-found, find_first-none_of, find_first-append_some,
  find_first-erase_other, All-keep, keep-All, find_first-none, find_first-append,
  erase_first-append, erase_first-All,
}
pub use Erase.{
  keep-erase_first, keep-erase_none, keep-erase_outside, length-erase_first, length-keep,
  length-none, length-map,
}
unfoldable pub use Lists.{length, keep, find_first, erase_first, update_first}
pub use Prim.Native.Nat.{ℕ, zero, suc, ◌+◌, ◌-◌, ◌*◌, ◌/◌, ◌%◌, ◌^◌, ◌≤◌, ◌<◌}
pub use Prim.Native.String.{String}
pub use mathlib.Core.Path.{◌≡◌, refl, sym, ap, ◌∙◌}
pub use mathlib.Core.Logic.{◌≢◌, ◌↔◌, ◌⊎◌, inl, inr}
pub use mathlib.Core.Bool.{Bool, true, false, not, ◌&&◌, ◌||◌}
pub use mathlib.Core.Option.{Option, none, some}
pub use mathlib.Core.List.{List, [], ◌∷◌, ◌++◌, map, append_assoc, append-nil}
pub use native.Mathlib.Omega.{arith}
