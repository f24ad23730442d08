-- ===== src/Base.antt =====
-- The names that the other modules share: the libraries', passed on, and those of the children.
mod Tests
mod Strings
mod Maps
mod Int
mod Decimal
mod FilePath
mod Splitting
pub use Tests.*
pub use Splitting.{is_free, cut-here, cut-other, cut-part, cut-rest}
pub use Strings.{
  Text, Error, codes, text_eq_refl, text_eq_sound, text_eq_iff, has_prefix-append, mem-append,
  trim_space-trim_space,
}
unfoldable pub use Strings.{
  text_eq, is_empty, has_prefix, trim_prefix, is_space, trim_left, trim_right, trim_space, fields,
  mem,
}
pub use Maps.{
  Assoc, mapped, Each, At, adjust-At, adjust_same-At, cons-At, lookup-insert, lookup-delete,
  lookup-adjust, adjust-Each, cons-Each,
}
unfoldable pub use Maps.{lookup, insert, delete, adjust}
pub use Int.{
  ℤ, pos, negsuc, pos_part, neg_part, ltb_ℤ, leb_ℤ, sub_ℕ, +ℤ_assoc, +ℤ_zero, -ℤ_chain, -ℤ_self,
  +ℤ_reach, -ℤ_zero, round_div_exact, scale_zero,
}
unfoldable pub use Int.{◌+ℤ◌, ◌-ℤ◌, scale, round_div}
pub use Decimal.{
  is_int64, all_plain, is_digit, all_digits, all_digits-itoa, atoi-itoa, all_plain-itoa,
}
unfoldable pub use Decimal.{itoa, atoi, digits_of}
unfoldable pub use FilePath.{
  cut, split, join, enter, enter_all, clean, join_path, base, dir_name, is_abs,
}
pub use Prim.Native.Nat.{ℕ, zero, suc, ◌+◌, ◌-◌, ◌*◌, ◌/◌, ◌%◌, ◌^◌, ◌≤◌, ◌<◌}
pub use mathlib.Core.Path.{◌≡◌, refl, sym, ap, ◌∙◌, subst}
pub use mathlib.Core.Logic.{◌≢◌, ◌↔◌, ◌⊎◌, inl, inr}
pub use mathlib.Core.Bool.{Bool, true, false, not, ◌&&◌, ◌||◌}
pub use mathlib.Core.Option.{Option, none, some}
pub use mathlib.Core.List.{List, [], ◌∷◌, ◌++◌, map}
pub use native.Mathlib.Omega.{arith}
