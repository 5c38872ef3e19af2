-- ===== src/Prelude.antt =====
-- The names that the other modules share: those of the libraries, passed on, and those of the
-- children: tests, lists, dictionaries and texts.
mod Tests
mod Lists
mod Dict
mod Strings
mod Decimal
pub mod Int
pub mod Sorting
pub mod Results
pub use Tests.*
pub use Lists.*
pub use Dict.*
pub use Strings.{join-init_parts, join-split, last_part-split, split-first, split-ne-nil}
unfoldable pub use Strings.{
  Text, codes, text_dec, split, join, init_parts, last_part, is_space, trim_space,
}
unfoldable pub use Decimal.{format_uint, parse_uint}
pub use Decimal.{
  IsDigits, parse_uint-format_uint, format_uint-injective, format_uint-IsDigits, format_uint-colon,
}
pub use Prim.Native.Nat.{ℕ, zero, suc, ◌+◌, ◌-◌, ◌*◌, ◌/◌, ◌%◌, ◌^◌, ◌≤◌, ◌<◌, compare, Ordering}
pub use mathlib.Core.Path.{◌≡◌, refl, sym, ap, ◌∙◌}
pub use mathlib.Core.Logic.{◌≢◌, ◌↔◌, ◌⊎◌, inl, inr, ite, if_pos, if_neg}
pub use mathlib.Core.Bool.{Bool, true, false, not, ◌&&◌, ◌||◌}
pub use mathlib.Core.Option.{Option, none, some}
pub use mathlib.Core.List.{List, [], ◌∷◌, ◌++◌, map, append_assoc, append-nil}
pub use native.Mathlib.Omega.{arith}
unfoldable pub use native.Mathlib.Decide.{ℕ_discrete, dec_lt}
