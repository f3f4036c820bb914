-- ===== src/AtomicVec/Safety.antt =====
-- What a vector of src/collections/atomic_vec.rs guarantees to threads that push to it and pop from it
-- in any order.
use acar.Prelude.{
  ℕ, ◌+◌, ◌≤◌, ◌≡◌, ◌≢◌, refl, true, Option, none, some, [], ◌++◌, ◌==◌, if◌then◌else◌, is_some,
  get_elem?, replicate, total, arith, le-total, pair-le-total, total-replicate,
}
use mathlib.Core.Path.{subst}
use acar.AtomicVec.Heap.{Ptr, write, AtomicInner, ok}
use acar.AtomicVec.Rep.{Cells, has, arrived, Rep}
use acar.AtomicVec.{reclaim}
use acar.AtomicVec.Threads.{Pc, idle, faulted, po_reclaim}
use acar.AtomicVec.System.{System, Reach, holds, uncounted, owns}
use acar.AtomicVec.World.{World-eq, values, bit, apart_lem}
use acar.AtomicVec.World.Taking.{reclaim-own}
use acar.AtomicVec.Interleaved.{Reach-Inv}

module _ {A : Type 0} {n : ℕ} {s : System A} where
  -- Whatever the threads do, none reads, writes or frees an item that is not in the heap.
  pub no_fault : (i : ℕ) → Reach n s → get_elem? s.threads i ≢ some faulted
  no_fault i r at = (Reach-Inv r).own i faulted at

  -- At most one thread at a time holds the lock, and none does while `state` is AVAILABLE.
  pub one_holds :
      (i j : ℕ) {p q : Pc A}
      → Reach n s
      → i ≢ j
      → get_elem? s.threads i ≡ some p
      → get_elem? s.threads j ≡ some q
      → (holds p + holds q ≤ 1) × (s.shared.vec.available ≡ true → holds p ≡ 0)
  one_holds i j r ne at other =
      let lock = (Reach-Inv r).world.lock in
      (
        ground (arith, lock, pair-le-total holds s.threads i j ne at other),
        λ e. ground (arith, lock, le-total holds s.threads i at),
      )

  -- The values that have been linked in so far are those unlinked, in the order of their linking,
  -- followed by those of the list; and `len` is the length of the list and one more for each item
  -- that has been unlinked and is still counted.
  pub first_in_first_out :
      Reach n s
      → (xs : Cells A) × (w : Option (Ptr × A)) × Rep s.shared.vec xs w s.shared.vec.available
          (total uncounted s.threads)
        × (s.shared.linked ≡ s.shared.taken ++ values xs)
  first_in_first_out r = let w = (Reach-Inv r).world in (w.items, w.waiting, w.rep, w.history)

  -- A `pop` that has unlinked an item returns its value, whatever the other threads have done since,
  -- and frees the item and nothing else.
  pub pop_returns :
      (i : ℕ) {q : Ptr} {y : A}
      → Reach n s
      → get_elem? s.threads i ≡ some (po_reclaim q y)
      → (v : AtomicInner A) × (reclaim q s.shared.vec ≡ ok (some y) v)
        × ((a : Ptr) → v.heap a ≡ (if a == q then none else s.shared.vec.heap a))
  unfolding write
  pop_returns i {q} r at =
      let inv = Reach-Inv r in
      let (next, e) = inv.own i _ at in
      let (_, _, _, ne) = apart_lem inv.world q (grind (arith, le-total (owns q) s.threads i at)) in
      (_, reclaim-own s.shared.vec q _ next ne e, λ a. ground arith)

  -- Once every thread has returned, the vector is free, and the items in the heap are those
  -- of the list and the one that waits in `t_tail`: none is lost and none leaks.
  pub at_rest :
      (m : ℕ)
      → Reach n s
      → s.threads ≡ replicate m idle
      → (xs : Cells A) × (w : Option (Ptr × A)) × Rep s.shared.vec xs w true 0
        × ((a : Ptr)
            → bit (has a xs) + bit (has a (arrived [] w)) ≡ bit (is_some (s.shared.vec.heap a)))
  at_rest m r e =
      let w =
        World-eq (Reach-Inv r).world (none_of holds refl) (none_of uncounted refl)
          (λ a. none_of (owns a) refl) in
      (
        w.items,
        w.waiting,
        subst (λ b. Rep s.shared.vec w.items w.waiting b 0) (ground (arith, w.lock)) w.rep,
        λ a. omega (arith, w.owned a),
      )
    where
      none_of : (w : Pc A → ℕ) → w idle ≡ 0 → total w s.threads ≡ 0
      none_of w h = rw e (total-replicate w m idle h)
