-- ===== src/Examples/VectorThreads.antt =====
-- Two threads and a vector of src/collections/atomic_vec.rs: one pushes 7, the other finds the vector
-- busy and leaves its 8 in `t_tail` when the first has already looked there; then the first pops.
use acar.Prelude.{
  ℕ, ◌+◌, ◌≡◌, ◌≢◌, refl, true, none, some, Option, [], ◌∷◌, ◌++◌, ◌==◌, if◌then◌else◌, is_some,
  get_elem?, set, total, arith,
}
use acar.AtomicVec.Heap.{Ptr, AtomicInner, ok, write, load}
use acar.AtomicVec.Rep.{Cells, has, arrived, Rep}
use acar.AtomicVec.{update_tail, unlink, reclaim}
use acar.AtomicVec.Threads.{step, faulted, pu_busy, po_lock}
use acar.AtomicVec.System.{System, Reach, allocate, init, uncounted}
use acar.AtomicVec.World.{values, bit}
use acar.AtomicVec.Safety.{no_fault, first_in_first_out, pop_returns, at_rest}

abbrev seven : ℕ
seven = 7

-- Thread `i` makes its next access.
abbrev go : ℕ → System ℕ → System ℕ
go i s = elim (get_elem? s.threads i) [
  | none ↦ s
  | some p ↦ record { shared = (step p s.shared).1; threads = set s.threads i (step p s.shared).0 }
]

abbrev both_push : System ℕ
both_push = record {
  shared = allocate 2 8 (allocate 1 7 (init 2).shared);
  threads = set (set (init 2).threads 0 (pu_busy 1 7)) 1 (pu_busy 2 8);
}

abbrev one_links : System ℕ
one_links = go 1 (go 0 (go 0 both_push))

abbrev stranded : System ℕ
stranded = go 0 (go 1 (go 0 (go 0 one_links)))

one_links-Reach : Reach 2 one_links
unfolding step write
one_links-Reach =
    Reach.access 1
      (Reach.access 0
        (Reach.access 0
          (Reach.push 1 2 8 (Reach.push 0 1 7 Reach.start refl (omega arith) refl) refl
            (omega arith) refl)
          refl (omega arith))
        refl (omega arith))
      refl (omega arith)

stranded-Reach : Reach 2 stranded
unfolding step write update_tail
stranded-Reach =
    Reach.access 0
      (Reach.access 1
        (Reach.access 0 (Reach.access 0 one_links-Reach refl (omega arith)) refl (omega arith)) refl
        (omega arith))
      refl (omega arith)

-- The first thread pops and has only the value to return.
abbrev popping : System ℕ
popping = go 0 (
    go 0 (
      go 0 (
        go 0
          (go 0 (record { shared = stranded.shared; threads = set stranded.threads 0 po_lock })))))

popping-Reach : Reach 2 popping
unfolding step write update_tail unlink load
popping-Reach =
    Reach.access 0
      (Reach.access 0
        (Reach.access 0
          (Reach.access 0 (Reach.access 0 (Reach.pop 0 stranded-Reach refl) refl (omega arith)) refl
            (omega arith))
          refl (omega arith))
        refl (omega arith))
      refl (omega arith)

no_fault_example : get_elem? popping.threads 0 ≢ some faulted
no_fault_example = no_fault 0 popping-Reach

first_in_first_out_example :
    (xs : Cells ℕ) × (w : Option (Ptr × ℕ)) × Rep popping.shared.vec xs w
      popping.shared.vec.available
      (total uncounted popping.threads)
    × (popping.shared.linked ≡ popping.shared.taken ++ values xs)
first_in_first_out_example = first_in_first_out popping-Reach

pop_returns_example :
    (v : AtomicInner ℕ) × (reclaim 1 popping.shared.vec ≡ ok (some 7) v)
    × ((a : Ptr) → v.heap a ≡ (if a == 1 then none else popping.shared.vec.heap a))
unfolding step update_tail unlink write load
pop_returns_example = pop_returns 0 popping-Reach refl

at_rest_example :
    (xs : Cells ℕ) × (w : Option (Ptr × ℕ)) × Rep stranded.shared.vec xs w true 0
    × ((a : Ptr)
        → bit (has a xs) + bit (has a (arrived [] w)) ≡ bit (is_some (stranded.shared.vec.heap a)))
unfolding step update_tail
at_rest_example = at_rest 2 stranded-Reach refl

-- The 8 waits in `t_tail` of a vector that nobody uses, and comes after the 7 that is taken first.
stranded_run :
    (stranded.shared.vec.t_tail ≡ 2)
    × (stranded.shared.vec.len ≡ 1)
    × (popping.shared.linked ≡ seven ∷ 8 ∷ [])
    × (popping.shared.taken ≡ seven ∷ [])
unfolding step update_tail unlink write load
stranded_run = (refl, refl, refl, refl)
