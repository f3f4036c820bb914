-- ===== src/Prelude/Moves.antt =====
-- The total weight of a list of agents of which one moves, and may bring another one in.
use Prim.Native.Nat.{ℕ, ◌+◌, ◌-◌}
use native.Mathlib.Omega.{arith}
use mathlib.Core.Path.{◌≡◌}
use mathlib.Core.Option.{Option, none, some}
use mathlib.Core.List.{List, [], ◌∷◌, ◌++◌}
use acar.Prelude.Lists.{get_elem?, set, total, total-set, le-total}

module _ {ℓ} {A : Type ℓ} where
  -- The one that comes, if any does.
  abbrev pub made : Option A → List A
  made none = []
  made (some a) = a ∷ []

  abbrev pub weight : (A → ℕ) → Option A → ℕ
  weight w none = 0
  weight w (some a) = w a

  -- The total over the others, when agent `i` stands at `p` and when it has moved to `q`.
  pub record Moved (w : A → ℕ) (ts : List A) (i : ℕ) (p q : A) : Type 0 where
    pub before : total w ts ≡ total w ts - w p + w p
    pub after : total w (set ts i q) ≡ total w ts - w p + w q

  pub moved :
      (w : A → ℕ) (ts : List A) (i : ℕ) {p : A} (q : A) → get_elem? ts i ≡ some p → Moved w ts i p q
  moved w ts i q h = omega (arith, le-total w ts i h, total-set w ts i q h)

  pub total-made :
      (w : A → ℕ) (ts : List A) (o : Option A) → total w (ts ++ made o) ≡ total w ts + weight w o
  unfolding total
  total-made w [] none = omega arith
  total-made w [] (some a) = omega arith
  total-made w (t ∷ ts) o = omega (arith, total-made w ts o)
