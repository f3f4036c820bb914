-- ===== src/AtomicVec/System.antt =====
-- Threads that push to and pop from one vector of src/collections/atomic_vec.rs, interleaved in any
-- order.
use acar.Prelude.{
  ℕ, ◌+◌, ◌<◌, ◌^◌, ◌≡◌, ◌≢◌, none, some, List, [], ◌==◌, if◌then◌else◌, get_elem?, set, replicate,
}
use acar.AtomicVec.Heap.{Ptr, null, Heap, item, write, new}
use acar.AtomicVec.Threads.{
  Shared, Pc, step, Taken, idle, pu_busy, pu_leave, pu_lock, pu_link, rl_swap, rl_link, rl_open,
  po_lock, po_unlink, po_reclaim, faulted,
}

pub record System (A : Type 0) : Type 0 where
  pub shared : Shared A
  pub threads : List (Pc A)

module _ {A : Type 0} where
  -- The item that a `push` makes.
  abbrev pub allocate : Ptr → A → Shared A → Shared A
  allocate p x s = record s {
    vec = record s.vec { heap = write s.vec.heap p (some (item x null)) };
  }

  abbrev pub init : ℕ → System A
  init n = record {
    shared = record { vec = new; linked = []; taken = [] };
    threads = replicate n idle;
  }

  -- The states that `n` threads can reach. An item gets an address that is not in use, and the counter
  -- of items has room.
  pub data Reach (n : ℕ) : System A → Type 0 where
    start : Reach n (init n)
    access :
        {s : System A} (i : ℕ) {p : Pc A}
        → Reach n s
        → get_elem? s.threads i ≡ some p
        → s.shared.vec.len + 1 < 2 ^ 64
        → Reach n
            (record { shared = (step p s.shared).1; threads = set s.threads i (step p s.shared).0 })
    push :
        {s : System A} (i : ℕ) (p : Ptr) (x : A)
        → Reach n s
        → get_elem? s.threads i ≡ some idle
        → p ≢ null
        → s.shared.vec.heap p ≡ none
        → Reach n
            (record { shared = allocate p x s.shared; threads = set s.threads i (pu_busy p x) })
    pop :
        {s : System A} (i : ℕ)
        → Reach n s
        → get_elem? s.threads i ≡ some idle
        → Reach n (record { shared = s.shared; threads = set s.threads i po_lock })

  -- 1 for the thread that holds the lock.
  abbrev pub holds : Pc A → ℕ
  holds (pu_link p x) = 1
  holds (rl_swap k) = 1
  holds (rl_link p k) = 1
  holds (rl_open k) = 1
  holds po_unlink = 1
  holds _ = 0

  abbrev pub counted_in : Taken A → ℕ
  counted_in none = 0
  counted_in (some c) = 1

  -- 1 for a thread with an unlinked item that `len` still counts.
  abbrev pub uncounted : Pc A → ℕ
  uncounted (rl_swap k) = counted_in k
  uncounted (rl_link p k) = counted_in k
  uncounted (rl_open k) = counted_in k
  uncounted (po_reclaim q y) = 1
  uncounted _ = 0

  abbrev pub owns_taken : Ptr → Taken A → ℕ
  owns_taken a none = 0
  owns_taken a (some (q, y)) = if a == q then 1 else 0

  -- How many times a thread has the item at an address to itself.
  abbrev pub owns : Ptr → Pc A → ℕ
  owns a (pu_busy p x) = if a == p then 1 else 0
  owns a (pu_leave p x) = if a == p then 1 else 0
  owns a (pu_lock p x) = if a == p then 1 else 0
  owns a (pu_link p x) = if a == p then 1 else 0
  owns a (rl_swap k) = owns_taken a k
  owns a (rl_link p k) = (if a == p then 1 else 0) + owns_taken a k
  owns a (rl_open k) = owns_taken a k
  owns a (po_reclaim q y) = if a == q then 1 else 0
  owns a _ = 0

  abbrev pub HoldsTaken : Heap A → Taken A → Type 0
  HoldsTaken h none = Unit
  HoldsTaken h (some (q, y)) = (next : Ptr) × (h q ≡ some (item y next))

  -- What the items that a thread has to itself hold.
  abbrev pub Holds : Heap A → Pc A → Type 0
  Holds h (pu_busy p x) = h p ≡ some (item x null)
  Holds h (pu_leave p x) = h p ≡ some (item x null)
  Holds h (pu_lock p x) = h p ≡ some (item x null)
  Holds h (pu_link p x) = h p ≡ some (item x null)
  Holds h (rl_swap k) = HoldsTaken h k
  Holds h (rl_link p k) = ((x : A) × (h p ≡ some (item x null))) × HoldsTaken h k
  Holds h (rl_open k) = HoldsTaken h k
  Holds h (po_reclaim q y) = (next : Ptr) × (h q ≡ some (item y next))
  Holds h idle = Unit
  Holds h po_lock = Unit
  Holds h po_unlink = Unit
  Holds h faulted = ⊥
