-- ===== src/AnyRef/Requests.antt =====
-- Requests to an `AnyRef` (src/any_ref/strong.rs): downcasts, writes through a guard and `fill`, with
-- any number of shared guards open; and what a cell that knows the type of its value answers.
use acar.Prelude.{ℕ, suc, ◌-◌, Option, none, some, List, [], ◌∷◌, ◌==◌, if◌then◌else◌}
use acar.Locking.{Locking}
use acar.Outcome.{pure, ◌>>=◌, ◌>>◌}
use acar.AnyRef.{TypeId, Call, try_downcast_ref, try_downcast_mut, drop_ref, drop_mut, fill}

-- `looks` leaves its guard open if it finds the value, and `ends` closes one. `edits` writes through the
-- guard of a `try_downcast_mut`, if there is one, and closes it.
pub data Request (V : Type 0) : Type 0 where
  looks : TypeId → Request V
  ends : Request V
  edits : TypeId → V → Request V
  fills : TypeId → V → Request V

-- How many shared guards are open, and the value with its type.
pub record Cell (V : Type 0) : Type 0 where
  pub guards : ℕ
  pub type_of : TypeId
  pub value : V

module _ {V : Type 0} where
  abbrev pub cell : ℕ → TypeId → V → Cell V
  cell n u x = record { guards = n; type_of = u; value = x }

  -- What a request finds and leaves; `none` where it has to wait for a guard, or closes none.
  unfoldable pub answer : Request V → Cell V → Option (Option V × Cell V)
  answer (looks u) c =
      some
        (if c.type_of == u then (some c.value, record c { guards = suc c.guards }) else (none, c))
  answer ends c = if c.guards == 0 then none else some (none, record c { guards = c.guards - 1 })
  answer (edits u y) c =
      if c.type_of == u
      then (if c.guards == 0 then some (some c.value, record c { value = y }) else none)
      else some (none, c)
  answer (fills u y) c =
      if c.guards == 0 then some (none, record c { type_of = u; value = y }) else none

  unfoldable pub prepend :
      Option V → Option (List (Option V) × Cell V) → Option (List (Option V) × Cell V)
  prepend o none = none
  prepend o (some (os, c)) = some (o ∷ os, c)

  unfoldable pub follow :
      Option (Option V × Cell V)
      → (Cell V → Option (List (Option V) × Cell V))
      → Option (List (Option V) × Cell V)
  follow none rest = none
  follow (some (o, c)) rest = prepend o (rest c)

  unfoldable pub answers : List (Request V) → Cell V → Option (List (Option V) × Cell V)
  answers [] c = some ([], c)
  answers (r ∷ rs) c = follow (answer r c) (answers rs)

module _ (L : Locking) {V : Type 0} where
  unfoldable pub close_mut : TypeId → V → Option V → Call L V (Option V)
  close_mut u y none = pure none
  close_mut u y (some x) = do drop_mut L u y; pure (some x)

  unfoldable pub serve : Request V → Call L V (Option V)
  serve (looks u) = try_downcast_ref L u
  serve ends = do drop_ref L; pure none
  serve (edits u y) = do o ← try_downcast_mut L u; close_mut u y o
  serve (fills u y) = do fill L u y; pure none

  unfoldable pub serve_all : List (Request V) → Call L V (List (Option V))
  serve_all [] = pure []
  serve_all (r ∷ rs) = do o ← serve r; os ← serve_all rs; pure (o ∷ os)
