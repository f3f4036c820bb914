-- ===== src/AtomicHashMap/Visits/Snapshot.antt =====
-- What an iterator of src/collections/atomic_hashmap.rs returns while threads call the map and drop
-- guards in any order.
use acar.Prelude.{
  ℕ, ◌+◌, ◌<◌, ◌≡◌, ◌≢◌, ◌⊎◌, refl, some, List, [], ◌∷◌, ◌++◌, get_elem?, arith, total, le-total,
  pair-le-total, sym, ◌∙◌, Bool-cases, inl, inr,
}
use acar.Utils.{Address}
use acar.AtomicHashMap.Chain.{Key, Item, Distinct}
use acar.AtomicHashMap.Log.{latest}
use acar.AtomicHashMap.Threads.{Pc, step}
use acar.AtomicHashMap.Locks.{owned_lem, free_lem, is_free}
use acar.AtomicHashMap.System.{owning}
use acar.AtomicHashMap.Interleaved.{Reach-Inv}
use acar.AtomicHashMap.Visits.{
  Stage, advances, visits, ended, broken, turn, advance, busy, shareds, Whole, Runs,
}
use acar.AtomicHashMap.Visits.Chains.{given, logged_to, contents_to-logged, item_at-lookup}
use acar.AtomicHashMap.Visits.Places.{calling, iterating}
use acar.AtomicHashMap.Visits.Turns.{allocated_value}
use acar.AtomicHashMap.Visits.Sound.{runs-Stored, none_busy}
use acar.AtomicHashMap.Visits.Invariant.{Runs-Sound}
use acar.AtomicHashMap.Visits.Within.{step-quiet}

module _ {C V : Type 0} where
  -- The items that an iterator has returned.
  abbrev pub returned : Stage C V → List (Item C V)
  returned (advances k out) = out
  returned (visits k p out) = out
  returned (ended out) = out
  returned _ = []

  advance-returned :
      (k : ℕ) (rest : List (Item C Address)) (out : List (Item C V))
      → returned (advance k rest out) ≡ out
  advance-returned k [] out = refl
  advance-returned k ((c, p) ∷ rest) out = refl

module _ (K : Key) {V : Type 0} where
  open K use {Carrier}

  module _ {n size : ℕ} {w : Whole Carrier V} where
    -- In runs in which no `lock_group` of the `lock` of the map or of the `ref_locked` of a bucket
    -- comes between the fetch_sub that counts the last member out and its store of DIRTY, and each
    -- new item gets an address that is not in use: however threads insert, look up, remove and drop
    -- guards, an iterator reads no item that has been freed or unlinked, and its drop does not
    -- panic; and once it is at its end it has returned every key of the map, bucket by bucket and
    -- in the order of the chains, each with the value that the latest write to it gave it: the
    -- iterator shows the map as it is at that moment. The keys of a bucket are distinct.
    pub iter_snapshot :
        (i k : ℕ) (out : List (Item Carrier V))
        → Runs K n size w
        → (get_elem? w.stages i ≢ some broken)
          × (get_elem? w.stages i ≡ some (ended out) → given out ≡ logged_to K size (shareds w))
          × Distinct K (shareds w k).head
    iter_snapshot i k out r =
        let sound = Runs-Sound K n size r in
        let world = λ (l : ℕ). (Reach-Inv K (sound.runs l)).world in
        (
          λ at. sound.places i broken at,
          λ at.
              (sound.places i (ended out) at).1
              ∙ contents_to-logged K size (shareds w) (λ l. (world l).distinct)
                  (λ l q. (world l).agrees q),
          (world k).distinct,
        )

    -- An iterator that stands at an item waits, or it returns the item with the value that the latest
    -- write to its key gave it, while no thread has a guard of `get_mut` in the bucket. The runs are
    -- those of `iter_snapshot`.
    pub next_latest :
        (i k : ℕ) (p : Address) (out : List (Item Carrier V))
        → Runs K n size w
        → get_elem? w.stages i ≡ some (visits k p out)
        → ((turn size (shareds w) (visits k p out) w.lock).0 ≡ visits k p out)
          ⊎ ((c : Carrier) × (v : V) × (returned (turn size (shareds w) (visits k p out) w.lock).0
                ≡ out ++ (c, v) ∷ [])
              × (latest K c (shareds w k).log ≡ some v)
              × (total owning (w.buckets k).threads ≡ 0))
    unfolding turn
    next_latest i k p out r at = elim (Bool-cases (is_free (shareds w k).held)) [
      | inl free ↦
          let sound = Runs-Sound K n size r in
          let world = (Reach-Inv K (sound.runs k)).world in
          let (lt, c, rest, here, e) = sound.places i (visits k p out) at in
          let (v, value) =
            allocated_value K (shareds w) k p (runs-Stored K n size w.buckets sound.runs) here in
          let found = item_at-lookup K p (shareds w k).head here world.distinct in
          inr (
            c,
            v,
            rw (free, here, value) (advance-returned k rest (out ++ (c, v) ∷ [])),
            sym (world.agrees c) ∙ rw (found, value) refl,
            (free_lem (shareds w k).held free world.held).1,
          )
      | inr locked ↦ inl (rw locked refl)
    ]

    -- In runs in which no `lock_group` of the `lock` of the map or of the `ref_locked` of a bucket
    -- comes between the fetch_sub that counts the last member out and its store of DIRTY, and each
    -- new item gets an address that is not in use: while a thread has an iterator, no other thread
    -- has one and none is in a call, so that a step of another thread in a bucket is at most the
    -- drop of a guard: it changes no chain.
    pub iter_alone :
        (i j k : ℕ) (v : V) {x y : Stage Carrier V} {p : Pc Carrier V}
        → Runs K n size w
        → i ≢ j
        → get_elem? w.stages i ≡ some x
        → get_elem? w.stages j ≡ some y
        → get_elem? (w.buckets k).threads j ≡ some p
        → 0 < iterating x
        → (calling y + iterating y ≡ 0)
          × (busy p ≡ 0)
          × ((step K v p (shareds w k)).1.head ≡ (shareds w k).head)
    iter_alone i j k v {x} {y} {p} r ne at other there pos =
        let sound = Runs-Sound K n size r in
        let iter = le-total iterating w.stages i at in
        let alone = owned_lem w.lock sound.counts (omega (arith, iter, pos)) in
        let quiet = none_busy K n size sound i j k at pos there in
        (
          omega (
            arith,
            alone.1,
            alone.2,
            pos,
            le-total calling w.stages j other,
            pair-le-total iterating w.stages i j ne at other,
          ),
          quiet,
          (step-quiet K v (shareds w k) p quiet).0,
        )
