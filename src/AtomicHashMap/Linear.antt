-- ===== src/AtomicHashMap/Linear.antt =====
-- A bucket of src/collections/atomic_hashmap.rs with threads in any order, as a map that a log of writes
-- describes.
use acar.Prelude.{
  arith, ℕ, ◌+◌, ◌<◌, ◌≡◌, ◌≢◌, ◌⊎◌, refl, true, Option, none, some, List, is_some, get_elem?,
  Bool-cases, inl, inr, ◌∙◌,
}
use acar.Utils.{Address}
use acar.AtomicHashMap.Chain.{Key, Item, lookup, unlink}
use acar.AtomicHashMap.Chain.Unlinking.{unlink-none, unlink-Removed}
use acar.AtomicHashMap.Log.{latest, value_of}
use acar.AtomicHashMap.Threads.{
  Shared, gets, gets_mut, removes, Pc, searches, reads, writes, awaits, step, get_at, get_mut_at,
  remove_at,
}
use acar.AtomicHashMap.Locks.{is_free, is_exclusive}
use acar.AtomicHashMap.System.{System, Reach, Fits, reading, owning}
use acar.AtomicHashMap.World.{World}
use acar.AtomicHashMap.Interleaved.{Reach-Inv, others_kept}

module _ {C V : Type 0} where
  -- The value that a search has found.
  abbrev pub found : (Address → Option V) → Pc C V → Option V
  found h (reads p) = h p
  found h (writes p) = h p
  found h (awaits p) = h p
  found h _ = none

  -- 1 for an open guard.
  abbrev pub guarding : Pc C V → ℕ
  guarding (reads p) = 1
  guarding (writes p) = 1
  guarding _ = 0

  guarding_lem : (q : Pc C V) → guarding q ≡ 1 → 0 < reading q + owning q
  guarding_lem q e = ground arith

module _ (K : Key) {V : Type 0} where
  open K use {Carrier}

  get_found :
      (key : Carrier) (o : Option Address) (s : Shared Carrier V)
      → lookup K key s.head ≡ o
      → ((get_at K key o s).0 ≡ searches (gets key))
        ⊎ (found s.heap (get_at K key o s).0 ≡ value_of K key s.head s.heap)
  get_found key none s e = inr (rw e refl)
  get_found key (some p) s e = elim (Bool-cases (is_exclusive s.held)) [
    | inl h ↦ inl (rw h refl)
    | inr h ↦ inr (rw (h, e) refl)
  ]

  get_mut_found :
      (key : Carrier) (o : Option Address) (s : Shared Carrier V)
      → lookup K key s.head ≡ o
      → ((get_mut_at K key o s).0 ≡ searches (gets_mut key))
        ⊎ (found s.heap (get_mut_at K key o s).0 ≡ value_of K key s.head s.heap)
  get_mut_found key none s e = inr (rw e refl)
  get_mut_found key (some p) s e = elim (Bool-cases (is_free s.held)) [
    | inl h ↦ inr (rw (h, e) refl)
    | inr h ↦ inl (rw h refl)
  ]

  remove_found :
      {lk rd ow st : ℕ} {n : Address → ℕ} (key : Carrier)
      (o : Option (Address × List (Item Carrier Address))) (s : Shared Carrier V)
      → World K s lk rd ow st n
      → unlink K key s.head ≡ o
      → found s.heap (remove_at K key o s).0 ≡ value_of K key s.head s.heap
  remove_found key none s w e = rw (unlink-none K key s.head e) refl
  remove_found key (some (p, rest)) s w e =
      rw (unlink-Removed K key p s.head rest w.distinct e).found refl

  module _ {n : ℕ} {s : System Carrier V} where
    -- In runs in which no `get` joins the readers of `ref_locked` between the fetch_sub that counts the last
    -- one out and its store of DIRTY, and each new item gets an address not in use: whatever threads do in
    -- a bucket, and in whatever order, each key has the value that the latest write to it gave it, by
    -- `insert` or through a guard of `get_mut`, which writes when it is dropped, and none if it was then
    -- removed; and the search of a `get` or `get_mut` that does not wait for a guard, and that of every
    -- `remove`, finds that value, and nothing if there is none.
    pub latest_found :
        (v : V) (key : Carrier)
        → Reach K n s
        → (value_of K key s.shared.head s.shared.heap ≡ latest K key s.shared.log)
          × (((step K v (searches (gets key)) s.shared).0 ≡ searches (gets key))
              ⊎ (found s.shared.heap (step K v (searches (gets key)) s.shared).0
                  ≡ latest K key s.shared.log))
          × (((step K v (searches (gets_mut key)) s.shared).0 ≡ searches (gets_mut key))
              ⊎ (found s.shared.heap (step K v (searches (gets_mut key)) s.shared).0
                  ≡ latest K key s.shared.log))
          × (found s.shared.heap (step K v (searches (removes key)) s.shared).0
              ≡ latest K key s.shared.log)
    unfolding step
    latest_found v key r =
        let w = (Reach-Inv K r).world in
        let now = w.agrees key in
        (
          now,
          rw (← now) (get_found key (lookup K key s.shared.head) s.shared refl),
          rw (← now) (get_mut_found key (lookup K key s.shared.head) s.shared refl),
          remove_found key (unlink K key s.shared.head) s.shared w refl ∙ now,
        )

    -- In runs in which no `get` joins the readers of `ref_locked` between the fetch_sub that counts
    -- the last one out and its store of DIRTY, and each new item gets an address that is not in
    -- use: as long as a thread has a guard of a value of the bucket, no step of another thread
    -- changes or frees any allocated item of the bucket, so that what is read through the guard
    -- stays the same.
    pub guard_stable :
        (i j : ℕ) {p q : Pc Carrier V} (v : V) (a : Address)
        → Reach K n s
        → i ≢ j
        → get_elem? s.threads i ≡ some p
        → get_elem? s.threads j ≡ some q
        → Fits K p s.shared
        → guarding q ≡ 1
        → is_some (s.shared.heap a) ≡ true
        → (step K v p s.shared).1.heap a ≡ s.shared.heap a
    guard_stable i j {p} {q} v a r ne at there fits pos e =
        others_kept K (Reach-Inv K r) i at v j q a fits ne there (guarding_lem q pos) e
