-- ===== src/Prelude.antt =====
-- The names that the other modules share: the libraries', passed on, and those of the children.
mod Tests
mod Lists
mod Permutation
mod Text
mod Update
pub mod Bits
pub mod Int
pub use Tests.*
pub use Lists.*
pub use Permutation.*
pub use Text.*
pub use Update.*
pub use Prim.Native.Nat.{
  ℕ, zero, suc, ◌+◌, ◌-◌, ◌*◌, ◌/◌, ◌%◌, ◌^◌, ◌≤◌, ◌<◌, min, max, compare, Ordering,
}
pub use mathlib.Core.Path.{◌≡◌, refl, sym, ap, ap₂, ◌∙◌, subst, fun_ext, ◌≡⟨◌⟩◌, ◌∎}
pub use mathlib.Core.Logic.{◌≢◌, ◌↔◌, ◌⊎◌, inl, inr}
pub use mathlib.Core.Bool.{Bool, true, false, not, ◌&&◌, ◌||◌}
pub use mathlib.Core.Option.{Option, none, some}
pub use mathlib.Core.List.{
  List, [], ◌∷◌, ◌++◌, map, reverse, append-nil, append_assoc, reverse-append, Perm, perm_middle,
  Mem,
}
pub use native.Mathlib.Omega.{arith}
pub use native.Mathlib.Nat.{
  add-zero, mod-lt, mod-eq_of_lt, mod-eq-sub-mod, mod-add-mod, le_refl, le_trans,
}
pub use native.Mathlib.Decide.{dec_lt, dec_le, ℕ_discrete}
