-- ===== src/AtomicHashMap/Visits.antt =====
-- The whole map of src/collections/atomic_hashmap.rs as threads see it, whose calls hold its `lock` as a
-- group and whose iterators hold it for themselves: where a thread stands in a call or with an
-- iterator, and what it does next. What a call does in its bucket is AtomicHashMap/Threads.antt.
pub mod Chains
pub mod Places
pub mod Kept
pub mod Turns
pub mod Within
pub mod Adding
pub mod Sound
pub mod Invariant
pub mod Snapshot
pub mod Tallies
pub mod Lengths
use acar.Prelude.{
  ℕ, zero, suc, ◌+◌, ◌≡◌, Bool, true, false, Option, none, some, List, [], ◌∷◌, ◌++◌, ◌==◌, ltb,
  ◌<◌, not, is_some, wrapping_inc, wrapping_dec, if◌then◌else◌, get_elem?, set, replicate,
}
use acar.Utils.{Address}
use acar.AtomicHashMap.Chain.{Key, Item, lookup, unlink}
use acar.AtomicHashMap.Threads.{
  Shared, Op, inserts, removes, Pc, idle, locks, searches, reads, writes, awaits, frees, faulted,
  step,
}
use acar.AtomicHashMap.Locks.{
  Lock, unlocked, locked, is_free, is_exclusive, joined, left, has_member, is_last, stored,
  emptying,
}
use acar.AtomicHashMap.System.{System, Fits, init}

-- An iterator stands at a bucket or at an item of one, with the items that it has returned.
pub data Stage (C V : Type 0) : Type 0 where
  outside : Stage C V
  joins : ℕ → Op C V → Stage C V  -- `lock.lock_group`, for a call in the bucket
  starts : ℕ → Op C V → Stage C V
  inside : ℕ → Stage C V
  adds : Stage C V  -- `len.fetch_add`, once an item has been added
  leaves : Stage C V  -- `lock.unlock_group`, up to the fetch_sub
  empties : Stage C V  -- in it, the store of DIRTY
  opens : Stage C V  -- `lock.lock_exclusive`
  advances : ℕ → List (Item C V) → Stage C V  -- `advance_bucket`, with `current` null
  visits : ℕ → Address → List (Item C V) → Stage C V  -- `current` is an item
  ended : List (Item C V) → Stage C V
  closes : Stage C V  -- `lock.unlock_exclusive`
  broken : Stage C V  -- a freed or unlinked item has been read, or an unlocking has panicked

-- The key of the item at an address, and the chain that follows it.
unfoldable pub item_at :
    {C : Type 0} → Address → List (Item C Address) → Option (C × List (Item C Address))
item_at p [] = none
item_at p ((k, q) ∷ rest) = if p == q then some (k, rest) else item_at p rest

module _ {C V : Type 0} where
  abbrev pub advance : ℕ → List (Item C Address) → List (Item C V) → Stage C V
  advance k [] out = advances (suc k) out
  advance k ((c, p) ∷ rest) out = visits k p out

  -- The item that `next` returns, and where it goes on.
  abbrev pub visit : ℕ → List (Item C V) → Option (C × List (Item C Address)) → Option V → Stage C V
  visit k out none o = broken
  visit k out (some item) none = broken
  visit k out (some (c, rest)) (some value) = advance k rest (out ++ (c, value) ∷ [])

  -- One access, in a map of `size` buckets; `next` waits while the values of the bucket are locked.
  unfoldable pub turn : ℕ → (ℕ → Shared C V) → Stage C V → Lock → Stage C V × Lock
  turn size bs outside h = (outside, h)
  turn size bs (joins k o) h = if is_exclusive h then (joins k o, h) else (starts k o, joined h)
  turn size bs (starts k o) h = (starts k o, h)
  turn size bs (inside k) h = (inside k, h)
  turn size bs adds h = (adds, h)
  turn size bs leaves h =
      if has_member h then (if is_last h then empties else outside, left h) else (broken, h)
  turn size bs empties h = (outside, stored h)
  turn size bs opens h = if is_free h then (advances 0 [], locked) else (opens, h)
  turn size bs (advances k out) h = (if ltb k size then advance k (bs k).head out else ended out, h)
  turn size bs (visits k p out) h = (
    if is_free (bs k).held
        then visit k out (item_at p (bs k).head) ((bs k).heap p)
        else visits k p out,
    h,
  )
  turn size bs (ended out) h = (ended out, h)
  turn size bs closes h = if is_exclusive h then (outside, unlocked) else (broken, h)
  turn size bs broken h = (broken, h)

  -- No call joins the group between the fetch_sub that counts the last one out and its store of DIRTY.
  abbrev pub Calm : Stage C V → Lock → Type 0
  Calm (joins k o) h = emptying h ≡ 0
  Calm _ h = Unit

  -- What a thread may begin: a call, an iterator, or the drop of its iterator.
  pub data Begins : Stage C V → Stage C V → Type 0 where
    call : (k : ℕ) (o : Op C V) → Begins outside (joins k o)
    iter : Begins outside opens
    drop_new : (k : ℕ) (out : List (Item C V)) → Begins (advances k out) closes
    drop : (k : ℕ) (p : Address) (out : List (Item C V)) → Begins (visits k p out) closes
    drop_ended : (out : List (Item C V)) → Begins (ended out) closes

  -- 1 inside a call, but for the guard that it returns.
  abbrev pub busy : Pc C V → ℕ
  busy (locks o) = 1
  busy (searches o) = 1
  busy (awaits p) = 1
  busy (frees p) = 1
  busy _ = 0

pub record Whole (C V : Type 0) : Type 0 where
  pub buckets : ℕ → System C V
  pub lock : Lock
  pub len : ℕ
  pub stages : List (Stage C V)

abbrev pub put_at : {A : Type 0} → (ℕ → A) → ℕ → A → ℕ → A
put_at f k a j = if j == k then a else f j

abbrev pub shareds : {C V : Type 0} → Whole C V → ℕ → Shared C V
shareds w k = (w.buckets k).shared

module _ (K : Key) {V : Type 0} where
  open K use {Carrier}

  abbrev pub accessed : V → ℕ → Pc Carrier V → System Carrier V → System Carrier V
  accessed v i p s = record {
    shared = (step K v p s.shared).1;
    threads = set s.threads i (step K v p s.shared).0;
  }

  -- The access adds an item to the chain, or takes one out of it, which `remove` counts at once.
  abbrev pub adds_item : Pc Carrier V → Shared Carrier V → Bool
  adds_item (searches (inserts key value q)) s = not (is_some (lookup K key s.head))
  adds_item _ s = false

  abbrev pub takes_item : Pc Carrier V → Shared Carrier V → Bool
  takes_item (searches (removes key)) s = is_some (unlink K key s.head)
  takes_item _ s = false

module _ (K : Key) {V : Type 0} (n size : ℕ) where
  open K use {Carrier}

  -- The runs of `n` threads: each thread has a place in every bucket, for the guards that it keeps.
  pub data Runs : Whole Carrier V → Type 0 where
    start :
        Runs (record {
          buckets = λ k. init K n;
          lock = unlocked;
          len = 0;
          stages = replicate n outside;
        })
    access :
        {w : Whole Carrier V} (i k : ℕ) (v : V) {p : Pc Carrier V}
        → Runs w
        → k < size
        → get_elem? (w.buckets k).threads i ≡ some p
        → Fits K p (w.buckets k).shared
        → Runs (record {
          buckets = put_at w.buckets k (accessed K v i p (w.buckets k));
          lock = w.lock;
          len = if takes_item K p (w.buckets k).shared then wrapping_dec w.len else w.len;
          stages = if adds_item K p (w.buckets k).shared then set w.stages i adds else w.stages;
        })
    turns :
        {w : Whole Carrier V} (i : ℕ) {x : Stage Carrier V}
        → Runs w
        → get_elem? w.stages i ≡ some x
        → Calm x w.lock
        → Runs (record {
          buckets = w.buckets;
          lock = (turn size (shareds w) x w.lock).1;
          len = w.len;
          stages = set w.stages i (turn size (shareds w) x w.lock).0;
        })
    begins :
        {w : Whole Carrier V} (i : ℕ) {x y : Stage Carrier V}
        → Runs w
        → get_elem? w.stages i ≡ some x
        → Begins x y
        → Runs
            (record { buckets = w.buckets; lock = w.lock; len = w.len; stages = set w.stages i y })
    enters :
        {w : Whole Carrier V} (i k : ℕ) (o : Op Carrier V)
        → Runs w
        → get_elem? w.stages i ≡ some (starts k o)
        → get_elem? (w.buckets k).threads i ≡ some idle
        → Runs (record {
          buckets = put_at w.buckets k (record {
            shared = (w.buckets k).shared;
            threads = set (w.buckets k).threads i (locks o);
          });
          lock = w.lock;
          len = w.len;
          stages = set w.stages i (inside k);
        })
    returns :
        {w : Whole Carrier V} (i k : ℕ) {p : Pc Carrier V}
        → Runs w
        → get_elem? w.stages i ≡ some (inside k)
        → get_elem? (w.buckets k).threads i ≡ some p
        → busy p ≡ 0
        → Runs (record {
          buckets = w.buckets;
          lock = w.lock;
          len = w.len;
          stages = set w.stages i leaves;
        })
    adding :
        {w : Whole Carrier V} (i : ℕ)
        → Runs w
        → get_elem? w.stages i ≡ some adds
        → Runs (record {
          buckets = w.buckets;
          lock = w.lock;
          len = wrapping_inc w.len;
          stages = set w.stages i leaves;
        })
