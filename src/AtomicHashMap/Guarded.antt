-- ===== src/AtomicHashMap/Guarded.antt =====
-- What a bucket of src/collections/atomic_hashmap.rs guarantees to threads that call and hold guards in
-- any order.
use acar.Prelude.{
  ℕ, ◌+◌, ◌<◌, ◌≤◌, ◌≡◌, ◌≢◌, refl, true, some, is_some, get_elem?, replicate, total, arith,
  total-replicate, pair-le-total, le-total,
}
use acar.Utils.{Address}
use acar.AtomicHashMap.Locks.{is_free, owned_lem, none_lem}
use acar.AtomicHashMap.Chain.{Key}
use acar.AtomicHashMap.Log.{count}
use acar.AtomicHashMap.Threads.{Pc, idle, reads, writes, faulted}
use acar.AtomicHashMap.System.{System, Reach, locking, reading, owning, settling, removed}
use acar.AtomicHashMap.World.{bit}
use acar.AtomicHashMap.Interleaved.{Reach-Inv}

module _ (K : Key) {V : Type 0} where
  open K use {Carrier}

  module _ {n : ℕ} {s : System Carrier V} where
    -- In runs in which no `get` joins the readers of `ref_locked` between the fetch_sub that counts the last
    -- one out and its store of DIRTY, and each new item gets an address that is not in use: whatever
    -- threads insert, look up and remove in a bucket, and in whatever order, the item of every open
    -- guard is allocated, so that no guard outlives the memory of its value; no drop of a guard and no
    -- `remove` touches an item that has been freed, and no drop of a guard panics.
    pub guard_alive :
        (i : ℕ) (p : Address)
        → Reach K n s
        → (get_elem? s.threads i ≡ some (reads p) → is_some (s.shared.heap p) ≡ true)
          × (get_elem? s.threads i ≡ some (writes p) → is_some (s.shared.heap p) ≡ true)
          × (get_elem? s.threads i ≢ some faulted)
    guard_alive i p r =
        let own = (Reach-Inv K r).own in
        (λ at. own i (reads p) at, λ at. own i (writes p) at, λ at. own i faulted at)

    -- In runs in which no `get` joins the readers of `ref_locked` between the fetch_sub that counts
    -- the last one out and its store of DIRTY, and each new item gets an address that is not in
    -- use: while a thread has a guard of `get_mut`, or is a `remove` that frees its item, no other
    -- thread has a guard of a value of the bucket and none frees an item. At most one thread at a
    -- time has locked the bucket.
    pub guards_apart :
        (i j : ℕ) {p q : Pc Carrier V}
        → Reach K n s
        → i ≢ j
        → get_elem? s.threads i ≡ some p
        → get_elem? s.threads j ≡ some q
        → (0 < owning p → reading q + owning q ≡ 0) × (locking p + locking q ≤ 1)
    guards_apart i j r ne at other =
        let w = (Reach-Inv K r).world in
        (
          λ pos.
              let most = le-total owning s.threads i at in
              let (_, alone, one, _) = owned_lem s.shared.held w.held (omega (arith, most, pos)) in
              omega (
                arith,
                one,
                pos,
                alone,
                le-total reading s.threads j other,
                pair-le-total owning s.threads i j ne at other,
              ),
          ground (arith, w.lock, pair-le-total locking s.threads i j ne at other),
        )

    -- In runs in which no `get` joins the readers of `ref_locked` between the fetch_sub that counts the last
    -- one out and its store of DIRTY, and each new item gets an address not in use: once every thread has
    -- returned and dropped its guards, the bucket is free, so is its `ref_locked`, and the allocated items
    -- are those of its chain, each there once.
    pub none_leaks :
        (m : ℕ)
        → Reach K n s
        → s.threads ≡ replicate m idle
        → (s.shared.available ≡ true)
          × (is_free s.shared.held ≡ true)
          × ((a : Address) → count K a s.shared.head ≡ bit (is_some (s.shared.heap a)))
    none_leaks m r e =
        let w = (Reach-Inv K r).world in
        (
          ground (arith, w.lock, none_of locking refl),
          none_lem s.shared.held w.held
              (omega (arith, none_of reading refl, none_of owning refl, none_of settling refl)),
          λ a. omega (arith, w.placed a, none_of (removed a) refl),
        )
      where
        none_of : (w : Pc Carrier V → ℕ) → w idle ≡ 0 → total w s.threads ≡ 0
        none_of w h = rw e (total-replicate w m idle h)
