-- ===== src/Utils.antt =====
-- src/utils.rs: addresses, raw allocations of one value, and a wait with a deadline. The allocator,
-- the clock and the condition that is waited for are parameters.
pub mod Laws
use acar.Prelude.{
  ℕ, zero, suc, Bool, true, false, Option, none, some, List, ◌∷◌, ◌==◌, ltb, if◌then◌else◌,
  usize_max,
}
use acar.Outcome.{ok, aborts, fault, Cmd, pure, ◌>>=◌, ◌>>◌}

abbrev pub Address : Type 0
Address = ℕ

unfoldable pub is_dangling : Address → Bool
is_dangling p = p == usize_max

-- `memory_layout_for_t`. What the platform does with layouts is a parameter: that of the type in
-- question, `extend`, which fails on overflow, and `pad_to_align`. `none` is a panic of `unwrap`.
unfoldable pub memory_layout_for_t {ℓ} :
    {Layout : Type ℓ}
    → Layout
    → (Layout → Layout → Option (Layout × ℕ))
    → (Layout → Layout)
    → Layout
    → Option Layout
memory_layout_for_t new extend pad_to_align layout = elim (extend new layout) [
  | none ↦ none
  | some (whole, offset) ↦ some (pad_to_align whole)
]

-- The allocations by address. A cell has `none` inside once its value has been dropped in place.
pub record Raw {ℓ} (T : Type ℓ) : Type ℓ where
  pub cells : Address → Option (Option T)
  pub destroyed : List T

module _ {ℓ} {T : Type ℓ} where
  unfoldable pub put : Address → Option (Option T) → Raw T → Raw T
  put p c m = record m { cells = λ q. if q == p then c else m.cells q }

  abbrev pub value_in : Option (Option T) → Option T
  value_in none = none
  value_in (some c) = c

  -- The allocator answers with no address where it has no memory, which ends the process.
  unfoldable pub create_raw_pointer : (Raw T → Option Address) → T → Cmd (Raw T) Address
  create_raw_pointer alloc s m = elim (alloc m) [
    | none ↦ aborts
    | some p ↦ ok p (put p (some (some s)) m)
  ]

  -- Gives the memory back and runs no destructor.
  unfoldable pub dealloc_layout : Address → Cmd (Raw T) (Unit {0})
  dealloc_layout p m = elim (m.cells p) [ none ↦ fault | some c ↦ ok tt (put p none m) ]

  -- `ptr::drop_in_place` and `ptr::read`
  unfoldable pub drop_in_place : Address → Cmd (Raw T) (Unit {0})
  drop_in_place p m = elim (value_in (m.cells p)) [
    | none ↦ fault
    | some x ↦ ok tt (put p (some none) (record m { destroyed = x ∷ m.destroyed }))
  ]

  unfoldable pub read : Address → Cmd (Raw T) T
  read p m = elim (value_in (m.cells p)) [ none ↦ fault | some x ↦ ok x m ]

  unfoldable pub dealloc_raw_pointer : Address → Cmd (Raw T) (Unit {0})
  dealloc_raw_pointer p = do drop_in_place p; dealloc_layout p

-- The rounds, with fuel: `clock i` is what the clock says in round `i`, and `pred i` what the
-- condition says if it is asked then.
unfoldable pub wait_until : ℕ → ℕ → (ℕ → ℕ) → (ℕ → Bool) → Option Bool
wait_until zero deadline clock pred = none
wait_until (suc n) deadline clock pred =
    let later = wait_until n deadline (λ i. clock (suc i)) (λ i. pred (suc i)) in
    if ltb (clock 0) deadline then (if pred 0 then some true else later) else some false
