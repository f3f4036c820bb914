-- ===== src/AtomicHashMap/Visits/Adding.antt =====
-- The accesses to a bucket of src/collections/atomic_hashmap.rs that add an item to the chain or take
-- one out of it.
use acar.Prelude.{
  ◌+◌, ◌≡◌, refl, true, Option, none, some, List, is_some, length, arith, Bool-cases, Option-cases,
  inl, inr,
}
use acar.Utils.{Address}
use acar.AtomicHashMap.Chain.{Key, Item, Distinct, lookup, unlink}
use acar.AtomicHashMap.Chain.Unlinking.{unlink-Removed}
use acar.AtomicHashMap.Threads.{
  Shared, inserts, gets, gets_mut, removes, Pc, idle, locks, searches, reads, settles, writes,
  awaits, frees, faulted, step, insert_at, get_at, get_mut_at, remove_at,
}
use acar.AtomicHashMap.Locks.{is_free, is_exclusive}
use acar.AtomicHashMap.World.{bit}
use acar.AtomicHashMap.Visits.{busy, adds_item, takes_item}
use acar.AtomicHashMap.Visits.Within.{step-quiet}

module _ (K : Key) {V : Type 0} where
  open K use {Carrier}

  -- A thread that adds an item is in a call then, and has done with the bucket afterwards.
  pub adds_item_lem :
      (v : V) (p : Pc Carrier V) (s : Shared Carrier V)
      → adds_item K p s ≡ true
      → (busy p ≡ 1) × ((step K v p s).0 ≡ idle)
  unfolding step
  adds_item_lem v idle s e = absurd (ground arith)
  adds_item_lem v (locks o) s e = absurd (ground arith)
  adds_item_lem v (searches (inserts key value q)) s e = elim (Option-cases (lookup K key s.head)) [
    | inl f ↦ (refl, rw f refl)
    | inr (p, f) ↦ absurd (let g = rw f at e in ground arith)
  ]
  adds_item_lem v (searches (gets key)) s e = absurd (ground arith)
  adds_item_lem v (searches (gets_mut key)) s e = absurd (ground arith)
  adds_item_lem v (searches (removes key)) s e = absurd (ground arith)
  adds_item_lem v (reads p) s e = absurd (ground arith)
  adds_item_lem v settles s e = absurd (ground arith)
  adds_item_lem v (writes p) s e = absurd (ground arith)
  adds_item_lem v (awaits p) s e = absurd (ground arith)
  adds_item_lem v (frees p) s e = absurd (ground arith)
  adds_item_lem v faulted s e = absurd (ground arith)

  get_head :
      (key : Carrier) (o : Option Address) (s : Shared Carrier V)
      → (get_at K key o s).1.head ≡ s.head
  get_head key none s = refl
  get_head key (some p) s = elim (Bool-cases (is_exclusive s.held)) [
    | inl e ↦ rw e refl
    | inr e ↦ rw e refl
  ]

  get_mut_head :
      (key : Carrier) (o : Option Address) (s : Shared Carrier V)
      → (get_mut_at K key o s).1.head ≡ s.head
  get_mut_head key none s = refl
  get_mut_head key (some p) s = elim (Bool-cases (is_free s.held)) [
    | inl e ↦ rw e refl
    | inr e ↦ rw e refl
  ]

  insert-length :
      (key : Carrier) (value : V) (q : Address) (o : Option Address) (s : Shared Carrier V)
      → length (insert_at K key value q o s).1.head + bit (is_some o) ≡ length s.head + 1
  insert-length key value q none s = omega arith
  insert-length key value q (some p) s = elim (Bool-cases (is_free s.held)) [
    | inl e ↦ rw e refl
    | inr e ↦ rw e refl
  ]

  remove-length :
      (key : Carrier) (o : Option (Address × List (Item Carrier Address))) (s : Shared Carrier V)
      → Distinct K s.head
      → unlink K key s.head ≡ o
      → length (remove_at K key o s).1.head + bit (is_some o) ≡ length s.head
  remove-length key none s d e = omega arith
  remove-length key (some (p, rest)) s d e =
      omega (arith, (unlink-Removed K key p s.head rest d e).shorter)

  -- What an access makes of the length of the chain.
  pub step-length :
      (v : V) (p : Pc Carrier V) (s : Shared Carrier V)
      → Distinct K s.head
      → length (step K v p s).1.head + bit (takes_item K p s)
        ≡ length s.head + bit (adds_item K p s)
  unfolding step
  step-length v idle s d = refl
  step-length v (locks o) s d = elim (Bool-cases s.available) [
    | inl e ↦ rw e refl
    | inr e ↦ rw e refl
  ]
  step-length v (searches (inserts key value q)) s d =
      let e = insert-length key value q (lookup K key s.head) s in
      elim (Bool-cases (is_some (lookup K key s.head))) [
        | inl f ↦ let g = rw f at e in rw f (omega (arith, g))
        | inr f ↦ let g = rw f at e in rw f (omega (arith, g))
      ]
  step-length v (searches (gets key)) s d = rw (get_head key (lookup K key s.head) s) refl
  step-length v (searches (gets_mut key)) s d = rw (get_mut_head key (lookup K key s.head) s) refl
  step-length v (searches (removes key)) s d =
      omega (arith, remove-length key (unlink K key s.head) s d refl)
  step-length v (reads p) s d = rw (step-quiet K v s (reads p) refl).0 refl
  step-length v settles s d = refl
  step-length v (writes p) s d = rw (step-quiet K v s (writes p) refl).0 refl
  step-length v (awaits p) s d = elim (Bool-cases (is_free s.held)) [
    | inl e ↦ rw e refl
    | inr e ↦ rw e refl
  ]
  step-length v (frees p) s d = elim (Bool-cases (is_some (s.heap p))) [
    | inl e ↦
        rw e (elim (Bool-cases (is_exclusive s.held)) [ inl l ↦ rw l refl | inr l ↦ rw l refl ])
    | inr e ↦ rw e refl
  ]
  step-length v faulted s d = refl
