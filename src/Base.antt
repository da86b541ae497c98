-- ===== src/Base.antt =====
-- The names that the other modules share: the libraries', passed on, and those of the children.
mod Tests
mod Lists
mod Int
mod Fault
mod Decimal
pub use Tests.*
pub use Lists.{
  length, take, drop, replicate, length-append, length-take, length-drop, length-replicate,
  replicate_add, length-map, take-length-append, All, All-append, All-map, All-take, All-replicate,
  All-read, All-write, read-eq, write-eq,
}
unfoldable pub use Lists.{read, write}
pub use Int.{
  ℤ, pos, negsuc, pos_part, neg_part, ◌≤ℤ◌, ltb_ℤ, residue, IsInt16, IsInt32, to_int32_id,
}
unfoldable pub use Int.{to_int16, to_int32}
pub use Fault.*
pub use Decimal.{codes, IsDigit, decimal-IsDigit, decimal_nonempty, value_from-decimal}
unfoldable pub use Decimal.{decimal, is_digit, value_from}
pub use Prim.Native.Nat.{ℕ, zero, suc, ◌+◌, ◌-◌, ◌*◌, ◌/◌, ◌%◌, ◌^◌, ◌≤◌, ◌<◌}
pub use Prim.Native.String.{String}
pub use mathlib.Core.Path.{◌≡◌, refl, sym, ap, ◌∙◌}
pub use mathlib.Core.Logic.{◌≢◌, ◌↔◌, ◌⊎◌, inl, inr}
pub use mathlib.Core.Bool.{Bool, true, false, not, ◌&&◌, ◌||◌}
pub use mathlib.Core.Option.{Option, none, some}
pub use mathlib.Core.List.{List, [], ◌∷◌, ◌++◌, map, append-nil, append_assoc}
pub use native.Mathlib.Omega.{arith}
unfoldable pub use native.Mathlib.Decide.{ℕ_discrete}
