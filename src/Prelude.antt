-- ===== src/Prelude.antt =====
-- The names that the other modules share: the libraries', passed on, and those of the children.
mod Tests
mod Lists
mod Compare
pub mod Int
pub mod Text
pub mod Format
pub use Tests.*
pub use Lists.*
pub use Compare.*
pub use Prim.Native.Nat.{ℕ, zero, suc, ◌+◌, ◌-◌, ◌*◌, ◌/◌, ◌%◌, ◌^◌, ◌≤◌, ◌<◌, bit_and, bit_or}
pub use Prim.Native.String.{String}
pub use mathlib.Core.Path.{◌≡◌, refl, sym, ap, ◌∙◌}
pub use mathlib.Core.Logic.{◌≢◌, ◌↔◌, ◌⊎◌, inl, inr}
pub use mathlib.Core.Bool.{Bool, true, false, not, ◌&&◌, ◌||◌}
pub use mathlib.Core.Option.{Option, none, some}
pub use mathlib.Core.List.{List, [], ◌∷◌, ◌++◌, map, reverse}
pub use native.Mathlib.Omega.{arith}
pub use Text.{
  Bytes, codes, bytes_eq_refl, bytes_eq→eq, bytes_eq_iff, is_empty, is_ascii_digit, contains_byte,
}
unfoldable pub use Compare.{lexicographic}
unfoldable pub use Lists.{passes_below}
unfoldable pub use Text.{bytes_eq, strip_prefix, split_once, split}
pub use Format.{Message, text, shown, quoted, joined, ◌<>◌, shown_error}
