-- ===== src/Prelude.antt =====
-- The names that the other modules share: those of the libraries, passed on, and those of the
-- children for tests, lists, texts and machine integers.
mod Tests
mod Lists
mod Texts
mod Int
pub mod Assoc
pub use Tests.*
pub use Lists.*
pub use Prim.Native.Nat.{ℕ, zero, suc, ◌+◌, ◌-◌, ◌*◌, ◌/◌, ◌%◌, ◌^◌, ◌≤◌, ◌<◌, Ordering}
pub use mathlib.Core.Path.{◌≡◌, refl, sym, ap, ◌∙◌}
pub use mathlib.Core.Logic.{◌≢◌, ◌↔◌, ◌⊎◌, inl, inr}
pub use mathlib.Core.Bool.{Bool, true, false, not, ◌&&◌, ◌||◌}
pub use mathlib.Core.Option.{Option, none, some}
pub use mathlib.Core.List.{List, [], ◌∷◌, ◌++◌, map}
pub use native.Mathlib.Omega.{arith}
pub use Texts.{Text, codes, text_eq_iff, text_eq_refl}
unfoldable pub use Texts.{text_eq, text_compare, starts_with, contains, ends_with, show_nat}
pub use Int.{ℤ, pos, negsuc, pos_part, neg_part, sub_ℕ, is_negative, magnitude, int_eq, IsI64}
pub use Int.{wrap-IsI64, wrap_of_IsI64}
unfoldable pub use Int.{
  to_bits, of_bits, wrap, i64_add, i64_sub, i64_mul, i64_neg, i64_div, i64_rem, divides_badly,
  int_compare, show_int,
}
