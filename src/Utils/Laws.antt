-- ===== src/Utils/Laws.antt =====
-- Raw allocations and the wait of src/utils.rs.
use acar.Prelude.{
  ℕ, zero, suc, ◌<◌, ◌≤◌, ◌≡◌, refl, Bool, true, false, ◌||◌, Option, none, some, ◌==◌, ltb, arith,
  Bool-cases, inl, inr,
}
use acar.Locking.{Locking}
use acar.Arw.{new}
use acar.Arw.Handles.{from_ptr}
use acar.Outcome.{pure, ◌>>=◌, ◌>>◌, Returns, returns}
use acar.Utils.{Address, Raw, put, create_raw_pointer, dealloc_layout, read, wait_until}

put-cells {ℓ} :
    {T : Type ℓ} (p : Address) (c : Option (Option T)) (m : Raw T)
    → m.cells p ≡ none
    → (q : Address) → (put p none (put p c m)).cells q ≡ m.cells q
unfolding put
put-cells p c m fresh q = elim (Bool-cases (q == p)) [
  | inl e ↦ rw e (let same : q ≡ p = ground arith in rw (same, fresh) refl)
  | inr e ↦ rw e refl
]

-- Whether the condition holds in one of the first rounds.
abbrev pub any_of : ℕ → (ℕ → Bool) → Bool
any_of zero pred = false
any_of (suc n) pred = pred 0 || any_of n (λ i. pred (suc i))

-- If the clock passes the deadline for the first time in round `n`, then `n + 1` rounds are enough,
-- and the wait says whether the condition held in one of the rounds before.
pub wait_until_lem :
    (n deadline : ℕ) (clock : ℕ → ℕ) (pred : ℕ → Bool)
    → ((i : ℕ) → i < n → clock i < deadline)
    → deadline ≤ clock n
    → wait_until (suc n) deadline clock pred ≡ some (any_of n pred)
unfolding wait_until
wait_until_lem zero deadline clock pred before late =
    let over : ltb (clock 0) deadline ≡ false = ground arith in rw over refl
wait_until_lem (suc n) deadline clock pred before late =
    let first = before 0 (omega arith) in
    let on_time : ltb (clock 0) deadline ≡ true = ground (arith, first) in
    let later =
      wait_until_lem n deadline (λ i. clock (suc i)) (λ i. pred (suc i))
        (λ i h. before (suc i) (omega arith)) late in
    elim (Bool-cases (pred 0)) [ inl e ↦ rw (on_time, e) refl | inr e ↦ rw (on_time, e) later ]

module _ (L : Locking) {T : Type 0} where
  -- A value on the heap, the `Arw` that takes it, and the heap cell given back without a destructor:
  -- what is left is the new allocation of `Arw`, with no value destroyed and every cell as before.
  pub create_raw_pointer-from_ptr :
      (alloc : Raw T → Option Address) (x : T) (m : Raw T) (p : Address)
      → alloc m ≡ some p
      → m.cells p ≡ none
      → Returns
          (λ a t.
            (a ≡ new L x) × ((q : Address) → t.cells q ≡ m.cells q) × (t.destroyed ≡ m.destroyed))
          ((do p ← create_raw_pointer alloc x; a ← from_ptr L p; dealloc_layout p; pure a) m)
  unfolding create_raw_pointer from_ptr read dealloc_layout put
  create_raw_pointer-from_ptr alloc x m p e fresh =
      let same : (p == p) ≡ true = ground arith in
      rw (e, create_raw_pointer, from_ptr, read, same, dealloc_layout, same)
        (returns (refl, put-cells p (some (some x)) m fresh, refl))
