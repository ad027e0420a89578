-- ===== src/Prelude.antt =====
-- The names that the other modules share: the libraries', passed on, and those of the children.
mod Tests
mod Count
mod Word
mod Panic
mod Below
mod Tally
mod Owner
mod Total
pub use Tests.*
pub use Count.*
pub use Word.*
pub use Panic.*
pub use Owner.*
pub use Below.{table_passes}
pub use Tally.{tally-update, tally_one, tally_two, tally_none}
unfoldable pub use Tally.{tally}
unfoldable pub use Total.{total}
pub use Total.{
  total_same, total_one_changed, total_none, total_longer, total_member, total_two_members,
}
unfoldable pub use Below.{first_failure}
pub use Prim.Native.Nat.{ℕ, zero, suc, ◌+◌, ◌-◌, ◌*◌, ◌/◌, ◌%◌, ◌^◌, ◌≤◌, ◌<◌, bit_and, bit_xor}
pub use mathlib.Core.Path.{◌≡◌, refl, sym, ap, subst, ◌∙◌}
pub use mathlib.Core.Logic.{◌≢◌, ◌↔◌, ◌⊎◌, inl, inr}
pub use mathlib.Core.Bool.{Bool, true, false, ◌&&◌, ◌||◌, not}
pub use mathlib.Core.Option.{Option, none, some}
pub use mathlib.Core.List.{List, [], ◌∷◌, ◌++◌, map, append_assoc, append-nil}
pub use native.Mathlib.Omega.{arith}
