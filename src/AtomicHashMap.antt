-- ===== src/AtomicHashMap.antt =====
-- src/collections/atomic_hashmap.rs: buckets of linked items, each with a spin lock and a lock for the
-- guards of its values, and a lock for iterators. A chain of items is the list of them; a call is the
-- sequence of what it does, while no other thread is in a call.
pub mod Chain
pub mod Buckets
pub mod Contents
pub mod Calls
pub mod Reads
pub mod Writes
pub mod Iterate
pub mod Locks
pub mod Threads
pub mod Log
pub mod System
pub mod World
pub mod Interleaved
pub mod Guarded
pub mod Linear
pub mod Visits
pub mod Requests
pub mod Owned
use acar.Prelude.{
  ℕ, zero, suc, ◌+◌, ◌%◌, ◌^◌, ◌<◌, ◌≡◌, Bool, true, false, Option, none, some, List, [], ◌∷◌, ◌++◌,
  ◌==◌, if◌then◌else◌, length, get_elem?, set, replicate, wrapping_inc, wrapping_dec, leb,
}
use acar.Locking.{Locking}
use acar.Outcome.{Run, ok, panics, aborts, fault, waits, Cmd, pure, ◌>>=◌, ◌>>◌}
use acar.AtomicHashMap.Chain.{Key, Item, lookup, update, unlink}

abbrev pub default_buckets : ℕ
default_buckets = 256

-- Values that a bucket has destroyed are recorded, the latest first.
pub record Bucket (C Lock V : Type 0) : Type 0 where
  pub head : List (Item C V)
  pub ref_locked : Lock
  pub available : Bool  -- `state`
  pub destroyed : List V

pub record AtomicInner (C Lock V : Type 0) : Type 0 where
  pub buckets : List (Bucket C Lock V)
  pub lock : Lock
  pub len : ℕ  -- usize
  pub ref_count : ℕ  -- usize

abbrev pub InBucket : Key → Locking → Type 0 → Type 0 → Type 0
InBucket K L V B = Cmd (Bucket K.Carrier L.Lock V) B

abbrev pub Call : Key → Locking → Type 0 → Type 0 → Type 0
Call K L V B = Cmd (AtomicInner K.Carrier L.Lock V) B

module _ (K : Key) (L : Locking) {V : Type 0} where
  open L use {Lock}
  open K use {Carrier}

  abbrev pub new_bucket : Bucket Carrier Lock V
  new_bucket = record { head = []; ref_locked = L.fresh; available = true; destroyed = [] }

  -- With no other thread to release it, a bucket that is being updated is waited for without end.
  unfoldable pub lock_bucket : InBucket K L V (Unit {0})
  lock_bucket b = if b.available then ok tt (record b { available = false }) else waits

  unfoldable pub release : InBucket K L V (Unit {0})
  release b = ok tt (record b { available = true })

  unfoldable pub ref_locking : (Lock → Option Lock) → InBucket K L V (Unit {0})
  ref_locking call b = elim (call b.ref_locked) [
    | none ↦ waits
    | some l ↦ ok tt (record b { ref_locked = l })
  ]

  unfoldable pub load_head : InBucket K L V (List (Item Carrier V))
  load_head b = ok b.head b

  unfoldable pub store_head : List (Item Carrier V) → InBucket K L V (Unit {0})
  store_head items b = ok tt (record b { head = items })

  -- `ManuallyDrop::drop`
  unfoldable pub destroy : V → InBucket K L V (Unit {0})
  destroy v b = ok tt (record b { destroyed = v ∷ b.destroyed })

  -- What the calls do in the bucket of the key, with the part after the loop as a function of what
  -- the loop found. The result of `insert_in` is whether the item is a new one.
  unfoldable pub insert_at :
      Carrier → V → List (Item Carrier V) → Option (V × List (Item Carrier V)) → InBucket K L V Bool
  insert_at key value items (some (old, rest)) = do
    ref_locking L.lock_exclusive
    destroy old
    ref_locking L.unlock_exclusive
    store_head rest
    release
    pure false
  insert_at key value items none = do store_head ((key, value) ∷ items); release; pure true

  unfoldable pub insert_in : Carrier → V → InBucket K L V Bool
  insert_in key value = do
    lock_bucket
    items ← load_head
    insert_at key value items (update K key value items)

  unfoldable pub get_at : (Lock → Option Lock) → Option V → InBucket K L V (Option V)
  get_at take (some value) = do
    ref_locking take
    ref_locking (λ l. some (L.clone l))
    release
    pure (some value)
  get_at take none = do release; pure none

  unfoldable pub get_in : (Lock → Option Lock) → Carrier → InBucket K L V (Option V)
  get_in take key = do lock_bucket; items ← load_head; get_at take (lookup K key items)

  -- Up to the point where the item is out of the chain.
  unfoldable pub unlink_at : Option (V × List (Item Carrier V)) → InBucket K L V (Option V)
  unlink_at (some (value, rest)) = do store_head rest; pure (some value)
  unlink_at none = do release; pure none

  unfoldable pub unlink_in : Carrier → InBucket K L V (Option V)
  unlink_in key = do lock_bucket; items ← load_head; unlink_at (unlink K key items)

  unfoldable pub reclaim_in : InBucket K L V (Unit {0})
  reclaim_in = do release; ref_locking L.lock_exclusive; ref_locking L.unlock_exclusive

  -- A command on the bucket of the given index, which is checked.
  abbrev pub put_back :
      {B : Type 0}
      → AtomicInner Carrier Lock V
      → ℕ
      → Run (Bucket Carrier Lock V) B
      → Run (AtomicInner Carrier Lock V) B
  put_back m i (ok r c) = ok r (record m { buckets = set m.buckets i c })
  put_back m i panics = panics
  put_back m i aborts = aborts
  put_back m i fault = fault
  put_back m i waits = waits

  unfoldable pub in_bucket : {B : Type 0} → ℕ → InBucket K L V B → Call K L V B
  in_bucket i f m = elim (get_elem? m.buckets i) [ none ↦ panics | some b ↦ put_back m i (f b) ]

  unfoldable pub locking : (Lock → Option Lock) → Call K L V (Unit {0})
  locking call m = elim (call m.lock) [ none ↦ waits | some l ↦ ok tt (record m { lock = l }) ]

  unfoldable pub set_len : (ℕ → ℕ) → Call K L V (Unit {0})
  set_len f m = ok tt (record m { len = f m.len })

  -- The remainder by no bucket at all panics.
  unfoldable pub find_bucket : Carrier → Call K L V ℕ
  find_bucket key m = if length m.buckets == 0 then panics else ok (K.hash key % length m.buckets) m

  abbrev pub with_capacity : ℕ → AtomicInner Carrier Lock V
  with_capacity bucket_count = record {
    buckets = replicate bucket_count new_bucket;
    lock = L.fresh;
    len = 0;
    ref_count = 1;
  }

  abbrev pub new : AtomicInner Carrier Lock V
  new = with_capacity default_buckets

  unfoldable pub insert : Carrier → V → Call K L V (Unit {0})
  insert key value = do
    i ← find_bucket key
    locking L.lock_group
    added ← in_bucket i (insert_in key value)
    if added then set_len wrapping_inc else pure tt
    locking L.unlock_group

  -- The guard's value; the guard is a handle of the bucket's lock.
  unfoldable pub get : Carrier → Call K L V (Option V)
  get key = do
    i ← find_bucket key
    locking L.lock_group
    found ← in_bucket i (get_in L.lock_group key)
    locking L.unlock_group
    pure found

  -- The end of a guard of `get`, and of one of `get_mut` through which its value has become `value`.
  -- A bucket has a handle of its lock too, so a guard's is never the last.
  unfoldable pub end_ref : InBucket K L V (Unit {0})
  end_ref = do ref_locking L.unlock_group; ref_locking L.drop

  unfoldable pub write_in : Option (V × List (Item Carrier V)) → InBucket K L V (Unit {0})
  write_in (some (old, rest)) = do
    store_head rest
    ref_locking L.unlock_exclusive
    ref_locking L.drop
  write_in none = λ _. fault

  unfoldable pub end_mut : Carrier → V → InBucket K L V (Unit {0})
  end_mut key value = do items ← load_head; write_in (update K key value items)

  unfoldable pub drop_ref : Carrier → Option V → Call K L V (Unit {0})
  drop_ref key none = pure tt
  drop_ref key (some old) = do i ← find_bucket key; in_bucket i end_ref

  unfoldable pub drop_mut : Carrier → V → Option V → Call K L V (Unit {0})
  drop_mut key value none = pure tt
  drop_mut key value (some old) = do i ← find_bucket key; in_bucket i (end_mut key value)

  unfoldable pub get_mut : Carrier → Call K L V (Option V)
  get_mut key = do
    i ← find_bucket key
    locking L.lock_group
    found ← in_bucket i (get_in L.lock_exclusive key)
    locking L.unlock_group
    pure found

  -- The rest of `remove`, once the item is out of the chain.
  unfoldable pub count_out : ℕ → Option V → Call K L V (Unit {0})
  count_out i none = pure tt
  count_out i (some value) = do set_len wrapping_dec; in_bucket i reclaim_in

  unfoldable pub remove : Carrier → Call K L V (Option V)
  remove key = do
    i ← find_bucket key
    locking L.lock_group
    found ← in_bucket i (unlink_in key)
    count_out i found
    locking L.unlock_group
    pure found

  unfoldable pub len : Call K L V ℕ
  len m = ok m.len m

  unfoldable pub clone : Call K L V (Unit {0})
  clone m = ok tt (record m { ref_count = wrapping_inc m.ref_count })

  unfoldable pub destroy_all : List V → List (Item Carrier V) → List V
  destroy_all gone [] = gone
  destroy_all gone ((k, v) ∷ items) = destroy_all (v ∷ gone) items

  -- The loop of `drop`: every bucket is emptied and each of its values destroyed.
  unfoldable pub drop_buckets : List (Bucket Carrier Lock V) → List (Bucket Carrier Lock V)
  drop_buckets [] = []
  drop_buckets (b ∷ bs) =
      record b { head = []; destroyed = destroy_all b.destroyed b.head } ∷ drop_buckets bs

  -- The result is whether the allocation is gone.
  unfoldable pub drop : Call K L V Bool
  drop m =
      if m.ref_count == 1
      then ok true
          (record m { ref_count = wrapping_dec m.ref_count; buckets = drop_buckets m.buckets })
      else ok false (record m { ref_count = wrapping_dec m.ref_count })
