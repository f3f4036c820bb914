-- ===== src/Prelude.antt =====
-- The names that the other modules share: the libraries', passed on, and those of the children.
mod Tests
mod Lists
mod Moves
mod Word
pub use Tests.{ltb, leb, ◌==◌, if◌then◌else◌, Bool-cases, is_some}
unfoldable pub use Tests.{Option-cases}
pub use Lists.{
  length, get_elem?, set, replicate, length-append, length-set, length-replicate, total-set,
  le-total, pair-le-total, total-le-length, total-replicate, total_mono, total_others, total-add,
  get_elem?-set, get_elem?-set_other, get_elem?-some, replicate-all, set-set, set-all,
}
unfoldable pub use Lists.{total}
pub use Moves.{made, weight, Moved, moved, total-made}
pub use Word.*
pub use Prim.Native.Nat.{ℕ, zero, suc, ◌+◌, ◌-◌, ◌*◌, ◌/◌, ◌%◌, ◌^◌, ◌≤◌, ◌<◌, min, max}
pub use mathlib.Core.Path.{◌≡◌, refl, sym, ap, ◌∙◌}
pub use mathlib.Core.Logic.{◌≢◌, ◌↔◌, ◌⊎◌, inl, inr}
pub use mathlib.Core.Bool.{Bool, true, false, not, ◌&&◌, ◌||◌}
pub use mathlib.Core.Option.{Option, none, some}
pub use mathlib.Core.List.{List, [], ◌∷◌, ◌++◌, append-nil, append_assoc}
pub use native.Mathlib.Omega.{arith}
