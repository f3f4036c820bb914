-- ===== src/Examples/Vectors.antt =====
-- Runs of src/collections/atomic_vec.rs at concrete inputs.
use acar.Prelude.{ℕ, ◌≡◌, refl, Bool, true, none, some, [], ◌∷◌, arith}
use acar.AtomicVec.Heap.{null, item, AtomicInner, write}
use acar.AtomicVec.Rep.{Rep, Returns}
use acar.AtomicVec.{pop, drop}
use acar.AtomicVec.Pop.{pop_lem}
use acar.AtomicVec.Drop.{Without, drop_last}

abbrev seven : ℕ
seven = 7

-- One item, 7 at address 4, and 8 waiting at address 5, in a vector whose lock is free or held.
abbrev one : Bool → AtomicInner ℕ
one free = record {
  head = 4;
  tail = 4;
  t_tail = 5;
  len = 1;
  available = free;
  ref_count = 1;
  heap = write (write (λ a. none) 4 (some (item 7 null))) 5 (some (item 8 null));
}

one-Rep : (free : Bool) → Rep (one free) ((4, 7) ∷ []) (some (5, 8)) free 0
unfolding write
one-Rep free = record {
  head = refl;
  tail = refl;
  linked = (omega arith, refl, refl, tt);
  waiting = (refl, record { ne_null = omega arith; holds = refl; apart = refl });
  len = refl;
  lock = refl;
}

-- One item, and nothing waiting.
abbrev single : Bool → AtomicInner ℕ
single free = record {
  head = 4;
  tail = 4;
  t_tail = null;
  len = 1;
  available = free;
  ref_count = 1;
  heap = write (λ a. none) 4 (some (item 7 null));
}

single-Rep : (free : Bool) → Rep (single free) ((4, 7) ∷ []) none free 0
unfolding write
single-Rep free = record {
  head = refl;
  tail = refl;
  linked = (omega arith, refl, refl, tt);
  waiting = (refl, tt);
  len = refl;
  lock = refl;
}

pop_lem_example :
    Returns
      (λ o t. (o ≡ some 7) × Rep t ((5, 8) ∷ []) none true 0 × (t.heap 4 ≡ none))
      (pop (one true))
pop_lem_example = pop_lem ((4, 7) ∷ []) (one-Rep true) (omega arith)

drop_last_example :
    Returns
      (λ gone t. (gone ≡ true) × Without ((4, 7) ∷ []) (one true).heap t.heap)
      (drop 2 (one true))
drop_last_example = drop_last (one-Rep true) refl
