-- ===== src/AtomicHashMap/System.antt =====
-- Threads with calls on one bucket of src/collections/atomic_hashmap.rs, interleaved in any order.
use acar.Prelude.{
  ℕ, ◌≡◌, true, Option, none, some, List, [], ◌==◌, if◌then◌else◌, is_some, get_elem?, set,
  replicate,
}
use acar.Utils.{Address}
use acar.AtomicHashMap.Locks.{unlocked, emptying}
use acar.AtomicHashMap.Chain.{Key}
use acar.AtomicHashMap.Threads.{
  Shared, Op, inserts, gets, Pc, idle, locks, searches, reads, settles, writes, awaits, frees,
  faulted, step,
}

pub record System (C V : Type 0) : Type 0 where
  pub shared : Shared C V
  pub threads : List (Pc C V)

module _ (K : Key) {V : Type 0} where
  open K use {Carrier}

  abbrev pub init : ℕ → System Carrier V
  init n = record {
    shared = record { head = []; held = unlocked; available = true; heap = λ a. none; log = [] };
    threads = replicate n idle;
  }

  -- A new item gets an address that is not in use; and no `get` joins the readers between the fetch_sub
  -- that counts the last one out and its store of DIRTY.
  abbrev pub Fits : Pc Carrier V → Shared Carrier V → Type 0
  Fits (searches (inserts key value q)) s = s.heap q ≡ none
  Fits (searches (gets key)) s = emptying s.held ≡ 0
  Fits _ s = Unit

  pub data Reach (n : ℕ) : System Carrier V → Type 0 where
    start : Reach n (init n)
    access :
        {s : System Carrier V} (i : ℕ) (value : V) {p : Pc Carrier V}
        → Reach n s
        → get_elem? s.threads i ≡ some p
        → Fits p s.shared
        → Reach n (record {
          shared = (step K value p s.shared).1;
          threads = set s.threads i (step K value p s.shared).0;
        })
    call :
        {s : System Carrier V} (i : ℕ) (o : Op Carrier V)
        → Reach n s
        → get_elem? s.threads i ≡ some idle
        → Reach n (record { shared = s.shared; threads = set s.threads i (locks o) })

module _ {C V : Type 0} where
  -- 1 for the thread that has locked the bucket.
  abbrev pub locking : Pc C V → ℕ
  locking (searches o) = 1
  locking _ = 0

  -- 1 for an open guard of `get`.
  abbrev pub reading : Pc C V → ℕ
  reading (reads p) = 1
  reading _ = 0

  -- 1 for a thread that has `ref_locked` for itself.
  abbrev pub owning : Pc C V → ℕ
  owning (writes p) = 1
  owning (frees p) = 1
  owning _ = 0

  -- 1 for a thread that is to store DIRTY.
  abbrev pub settling : Pc C V → ℕ
  settling settles = 1
  settling _ = 0

  -- How many times a thread has an item to itself, which is in no chain.
  abbrev pub removed : Address → Pc C V → ℕ
  removed a (awaits p) = if a == p then 1 else 0
  removed a (frees p) = if a == p then 1 else 0
  removed a _ = 0

  -- The item of an open guard is allocated.
  abbrev pub Holds : (Address → Option V) → Pc C V → Type 0
  Holds h (reads p) = is_some (h p) ≡ true
  Holds h (writes p) = is_some (h p) ≡ true
  Holds h faulted = ⊥
  Holds h _ = Unit
