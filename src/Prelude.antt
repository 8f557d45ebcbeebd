-- ===== src/Prelude.antt =====
-- The names that the other modules share: the libraries', passed on, and those of the children.
mod Tests
mod Int
mod Lists
mod Text
mod Comparisons
pub use Tests.*
pub use Int.*
pub use Lists.{length, length-append_single}
pub use Text.{Bytes, codes, bytes_eq_refl, eq_of_bytes_eq, bytes_eq-ne, c_string_whole}
pub use Comparisons.{is_below, is_above, IsOrdering, compare_then, strcmp-IsOrdering}
unfoldable pub use Comparisons.{strcmp}
unfoldable pub use Text.{bytes_eq, has_nul, c_string, has_byte, to_lower, case_eq}
pub use Prim.Native.Nat.{ℕ, zero, suc, ◌+◌, ◌-◌, ◌*◌, ◌/◌, ◌%◌, ◌^◌, ◌≤◌, ◌<◌}
pub use Prim.Native.String.{String}
pub use mathlib.Core.Path.{◌≡◌, refl, sym, ap, ap₂, ◌∙◌, subst}
pub use mathlib.Core.Logic.{◌≢◌, ◌↔◌, ◌⊎◌, inl, inr}
pub use mathlib.Core.Bool.{Bool, true, false, ◌&&◌, ◌||◌, not}
pub use mathlib.Core.Option.{Option, none, some}
pub use mathlib.Core.List.{List, [], ◌∷◌, ◌++◌, append-nil, append_assoc}
pub use native.Mathlib.Omega.{arith}
