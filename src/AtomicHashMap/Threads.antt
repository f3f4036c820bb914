-- ===== src/AtomicHashMap/Threads.antt =====
-- One bucket of src/collections/atomic_hashmap.rs as threads see it: where a thread stands in a call on
-- a key of the bucket, or in the use of a guard, and what it does next. One step is one access of the
-- bucket's `state`, one call of its `ref_locked`, the fetch_sub or the store of DIRTY in the `unlock_group`
-- of it, or a piece of code that touches only what the
-- holder of the bucket or of an item may touch.
use acar.Prelude.{
  Bool, true, false, Option, none, some, List, [], ◌∷◌, ◌==◌, if◌then◌else◌, is_some,
}
use acar.Utils.{Address}
use acar.AtomicHashMap.Locks.{
  Lock, unlocked, locked, is_free, is_exclusive, joined, left, has_member, is_last, stored,
}
use acar.AtomicHashMap.Chain.{Key, Item, lookup, unlink}

-- The items in the chain, latest first, each a key and an address, and the value of each item that is
-- allocated. `log` is not part of the bucket: it says which value
-- each key has been given, or that it has been removed, the latest first.
pub record Shared (C V : Type 0) : Type 0 where
  pub head : List (Item C Address)
  pub held : Lock  -- `ref_locked`
  pub available : Bool  -- `state`
  pub heap : Address → Option V
  pub log : List (C × Option V)

-- The calls; the item that `insert` makes, if it makes one, gets the given address.
pub data Op (C V : Type 0) : Type 0 where
  inserts : C → V → Address → Op C V
  gets : C → Op C V
  gets_mut : C → Op C V
  removes : C → Op C V

pub data Pc (C V : Type 0) : Type 0 where
  idle : Pc C V
  locks : Op C V → Pc C V  -- the exchange of `state`
  searches : Op C V → Pc C V  -- the bucket is locked
  reads : Address → Pc C V  -- a guard of `get`
  settles : Pc C V  -- in its drop, the store of DIRTY
  writes : Address → Pc C V  -- a guard of `get_mut`
  awaits : Address → Pc C V  -- `remove`, once the item is out of the chain and the bucket free
  frees : Address → Pc C V  -- with `ref_locked`
  faulted : Pc C V  -- an item that is freed has been used, or an unlocking has panicked

abbrev pub store : {V : Type 0} → (Address → Option V) → Address → Option V → Address → Option V
store h p c a = if a == p then c else h a

-- The key of the item of the chain that is at an address.
unfoldable pub key_at : {C : Type 0} → Address → List (Item C Address) → Option C
key_at p [] = none
key_at p ((k, q) ∷ rest) = if p == q then some k else key_at p rest

module _ (K : Key) {V : Type 0} where
  open K use {Carrier}

  abbrev pub release : Shared Carrier V → Shared Carrier V
  release s = record s { available = true }

  abbrev pub noted : Carrier → Option V → Shared Carrier V → Shared Carrier V
  noted key o s = record s { log = (key, o) ∷ s.log }

  abbrev pub written : Option Carrier → V → Shared Carrier V → Shared Carrier V
  written none value s = s
  written (some key) value s = noted key (some value) s

  -- What a call does at the item of its key, or without one. A call that waits for `ref_locked` keeps
  -- the bucket. `insert` writes the new value after it has given `ref_locked` back and before it
  -- gives the bucket back: the item is in the chain then, and a guard, a `remove` or an iterator
  -- comes to it only through the bucket or the lock of the map, so that the write is one step with
  -- the destruction of the old value.
  abbrev pub insert_at :
      Carrier → V → Address → Option Address → Shared Carrier V → Pc Carrier V × Shared Carrier V
  insert_at key value q none s = (
    idle,
    noted key (some value)
        (release (record s { head = (key, q) ∷ s.head; heap = store s.heap q (some value) })),
  )
  insert_at key value q (some p) s =
      if is_free s.held
      then (
        idle,
        noted key (some value) (release (record s { heap = store s.heap p (some value) })),
      )
      else (searches (inserts key value q), s)

  abbrev pub get_at : Carrier → Option Address → Shared Carrier V → Pc Carrier V × Shared Carrier V
  get_at key none s = (idle, release s)
  get_at key (some p) s =
      if is_exclusive s.held
      then (searches (gets key), s)
      else (reads p, release (record s { held = joined s.held }))

  abbrev pub get_mut_at :
      Carrier → Option Address → Shared Carrier V → Pc Carrier V × Shared Carrier V
  get_mut_at key none s = (idle, release s)
  get_mut_at key (some p) s =
      if is_free s.held
      then (writes p, release (record s { held = locked }))
      else (searches (gets_mut key), s)

  abbrev pub remove_at :
      Carrier
      → Option (Address × List (Item Carrier Address))
      → Shared Carrier V
      → Pc Carrier V × Shared Carrier V
  remove_at key none s = (idle, release s)
  remove_at key (some (p, rest)) s = (awaits p, noted key none (release (record s { head = rest })))

  abbrev pub search : Op Carrier V → Shared Carrier V → Pc Carrier V × Shared Carrier V
  search (inserts key value q) s = insert_at key value q (lookup K key s.head) s
  search (gets key) s = get_at key (lookup K key s.head) s
  search (gets_mut key) s = get_mut_at key (lookup K key s.head) s
  search (removes key) s = remove_at key (unlink K key s.head) s

  -- The drop of a guard of `get`, up to the fetch_sub of `unlock_group`, and the store of DIRTY.
  abbrev pub leave : Shared Carrier V → Pc Carrier V × Shared Carrier V
  leave s =
      if has_member s.held
      then (if is_last s.held then settles else idle, record s { held = left s.held })
      else (faulted, s)

  abbrev pub end_ref : Address → Shared Carrier V → Pc Carrier V × Shared Carrier V
  end_ref p s = if is_some (s.heap p) then leave s else (faulted, s)

  abbrev pub settle : Shared Carrier V → Pc Carrier V × Shared Carrier V
  settle s = (idle, record s { held = stored s.held })

  -- `unlock_exclusive` panics if the lock is in another state.
  abbrev pub unlock : Shared Carrier V → Pc Carrier V × Shared Carrier V
  unlock s = if is_exclusive s.held then (idle, record s { held = unlocked }) else (faulted, s)

  -- The drop of a guard of `get_mut`, whose value has become `value`: the item may have been removed
  -- from the chain by then.
  abbrev pub end_mut : V → Address → Shared Carrier V → Pc Carrier V × Shared Carrier V
  end_mut value p s =
      if is_some (s.heap p)
      then unlock
          (written (key_at p s.head) value (record s { heap = store s.heap p (some value) }))
      else (faulted, s)

  abbrev pub free : Address → Shared Carrier V → Pc Carrier V × Shared Carrier V
  free p s =
      if is_some (s.heap p) then unlock (record s { heap = store s.heap p none }) else (faulted, s)

  -- `value` is what the holder of a guard of `get_mut` writes.
  unfoldable pub step : V → Pc Carrier V → Shared Carrier V → Pc Carrier V × Shared Carrier V
  step value idle s = (idle, s)
  step value (locks o) s =
      if s.available then (searches o, record s { available = false }) else (locks o, s)
  step value (searches o) s = search o s
  step value (reads p) s = end_ref p s
  step value settles s = settle s
  step value (writes p) s = end_mut value p s
  step value (awaits p) s =
      if is_free s.held then (frees p, record s { held = locked }) else (awaits p, s)
  step value (frees p) s = free p s
  step value faulted s = (faulted, s)
