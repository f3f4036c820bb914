-- ===== src/AtomicVec/Drop.antt =====
-- The last handle of src/collections/atomic_vec.rs: which items its `drop` frees.
use acar.Prelude.{
  ℕ, zero, suc, ◌+◌, ◌<◌, ◌≡◌, ◌≢◌, refl, Bool, true, false, Option, none, [], ◌∷◌, ◌==◌,
  if◌then◌else◌, wrapping_dec, arith, length,
}
use acar.AtomicVec.Heap.{Ptr, null, Heap, write, AtomicInner, ok}
use acar.AtomicVec.Rep.{Cells, has, first, Linked, Rep, Returns, returns, Linked-write, bind, mono}
use acar.AtomicVec.{drop_items, drop}
use acar.AtomicVec.Unlink.{load-ok, free-ok}

module _ {ℓ} {A : Type ℓ} where
  -- `g` is `h` less the items of the list.
  abbrev pub Without : Cells A → Heap A → Heap A → Type ℓ
  Without xs h g = (a : Ptr) → g a ≡ (if has a xs then none else h a)

  drop_items-Without :
      (k : ℕ) (xs : Cells A) (v : AtomicInner A)
      → Linked v.heap xs
      → length xs < k
      → Returns (λ _ t. Without xs v.heap t.heap) (drop_items k (first xs) v)
  unfolding drop_items write
  drop_items-Without zero xs v l fuel = absurd (omega arith)
  drop_items-Without (suc k) [] v l fuel = returns (λ a. refl)
  drop_items-Without (suc k) ((p, x) ∷ xs) v (ne, e, fresh, l) fuel =
      let some_head : (p == null) ≡ false = ground arith in
      rw (some_head, load-ok v p e, free-ok v p e)
        (mono
          (drop_items-Without k xs (record v { heap = write v.heap p none })
            (Linked-write v.heap p none xs l fresh) (omega arith))
          λ _ t gone a. ground (arith, gone a))

  -- The `drop` of the last handle frees exactly the items that are linked in, each once, within one
  -- round more than there are items. A value that waits in `t_tail` is not among them.
  pub drop_last :
      {v : AtomicInner A} {xs : Cells A} {w : Option (Ptr × A)} {held : Bool} {out : ℕ}
      → Rep v xs w held out
      → v.ref_count ≡ 1
      → Returns (λ gone t. (gone ≡ true) × Without xs v.heap t.heap) (drop (length xs + 1) v)
  unfolding drop
  drop_last {v} {xs} r one =
      let last_handle : (v.ref_count == 1) ≡ true = ground arith in
      rw (last_handle, r.head)
        (bind (drop_items-Without (length xs + 1) xs _ r.linked (omega arith))
          λ _ t gone. returns (refl, gone))

  -- The `drop` of another handle only counts it out.
  pub drop_other :
      (v : AtomicInner A) (fuel : ℕ)
      → v.ref_count ≢ 1
      → drop fuel v ≡ ok false (record v { ref_count = wrapping_dec v.ref_count })
  unfolding drop
  drop_other v fuel ne = let more : (v.ref_count == 1) ≡ false = ground arith in rw more
