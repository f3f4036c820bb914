-- ===== src/Lib.antt =====
-- The crate castbox (src/): a user-space mutex with exclusive and group locks, the backoff that it
-- spins with, guards, a linked queue, a hash map, two reference-counted pointers with a lock of
-- their own, one of them to a value of any type, and helpers for raw memory.
--
-- How the parts work together. `Arw` holds a value with a `Mutex`; its guards are handles of that
-- mutex, and give their share of the lock back when they are dropped. A `Mutex` spins with
-- `Backoff` and parks threads in two queues, each an `AtomicVec`; an `AtomicVec` is guarded by a
-- spin lock of its own. An `AtomicHashMap` has a mutex for each bucket and one for its iterators.
--
-- Files, and the code that each models:
-- - Backoff.antt: src/mutex/backoff.rs. `Backoff` is the counter; a call returns its `Pause`.
--   Backoff/Bounds.antt counts calls and hints.
-- - Mutex.antt: src/mutex/mutex.rs, `InnerMutex` and the calls that are one access.
--   Mutex/Threads.antt holds the other calls: `Pc` (Mutex/Threads/Points.antt) says where in a call
--   a thread stands, the accesses are in Mutex/Threads/Calls.antt, and `step` is the next one of a
--   thread. Mutex/System.antt interleaves threads in any order, `Reach` and `CalmReach` are the
--   runs; in calm ones no thread joins a group that is being emptied and none calls
--   `unlock_all_group`. Mutex/Invariant.antt and Mutex/Exclusion.antt are about calm runs, Mutex/Solo.antt and
--   Mutex/Parking.antt about calls that nobody interferes with, Mutex/Handles.antt about `clone`
--   and `drop`, and Mutex/Race.antt is a run that is not calm.
-- - Locking.antt: what the owners of a lock use of it, and the laws that they rely on: who holds
--   the lock, and how many handles of it there are. Mutex/Lone.antt shows that the mutex fills it.
-- - Guards.antt: src/mutex/watch_guard.rs, watch_guard_ref.rs and watch_guard_mut.rs.
-- - AtomicVec/Heap.antt and AtomicVec.antt: src/collections/atomic_vec.rs, over a heap of items,
--   with a fault for each access through a pointer to no item. AtomicVec/Rep.antt says which list a
--   vector stands for; Tail, Push, Unlink, Pop, Fifo and Drop are about the calls.
--   AtomicVec/Threads.antt is the same code as threads see it: `Pc` says where in a `push` or `pop`
--   a thread stands and `step` is what it does next. AtomicVec/System.antt interleaves the threads,
--   `Reach` are the runs; AtomicVec/World.antt says what the vector and the items of the threads
--   are between two steps, its Linking and Taking and AtomicVec/Interleaved.antt that every step
--   keeps it, AtomicVec/Safety.antt what follows.
-- - Utils.antt: src/utils.rs; Utils/Laws.antt is about raw memory and the wait.
-- - Arw.antt: src/arw/inner.rs, strong.rs, weak.rs, one call after the other. Outcome.antt holds
--   the outcomes of a call, Arw/Counts.antt is about the two counts and Arw/Value.antt about the
--   value; Arw/Handles.antt holds the constructors, `is_locked` and `map`, and Arw/Pointers.antt
--   src/arw/ptr_interface.rs and the handles as addresses, weak ones that dangle included.
--   Arw/Threads.antt is the same code an access at a time: `Pc` says where in a call the holder of
--   a handle stands. Arw/System.antt interleaves the holders, `Reach` are the runs;
--   Arw/Counted.antt and Arw/Invariant.antt are the invariant, Arw/Safety.antt what follows from
--   it.
-- - AtomicHashMap.antt: src/collections/atomic_hashmap.rs. AtomicHashMap/Chain.antt holds the loops
--   over the items of a bucket and the interface `Key`, with Chain/Unlinking.antt about `remove`,
--   AtomicHashMap/Buckets.antt what a call does in one bucket, AtomicHashMap/Contents.antt which
--   value a key has; Calls, Reads and Writes are about the calls, AtomicHashMap/Iterate.antt holds
--   the iterators and AtomicHashMap/Iterate/Items.antt what they return.
--   AtomicHashMap/Requests.antt holds sequences of calls, AtomicHashMap/Owned.antt what becomes of
--   the values given to them. AtomicHashMap/Threads.antt is one bucket as threads see it, its items
--   at addresses: `Pc` says where a thread stands in a call or that it holds a guard;
--   AtomicHashMap/Locks.antt holds its `ref_locked` and the `lock` of the map, as states of the mutex
--   with the number of members, and what the calls of src/mutex/mutex.rs make of them.
--   AtomicHashMap/Log.antt reads the value of a key off the bucket and off a log of the writes,
--   AtomicHashMap/System.antt interleaves the threads, AtomicHashMap/World.antt, its Agrees,
--   Searches and Steps and AtomicHashMap/Interleaved.antt are the invariant,
--   AtomicHashMap/Guarded.antt and AtomicHashMap/Linear.antt what follows.
--   AtomicHashMap/Visits.antt puts such buckets together to a map with its lock, and has the calls
--   that join the lock as a group and the iterators that hold it for themselves; in
--   AtomicHashMap/Visits, Chains is about the order of the items, Places, Kept and Turns about
--   where an iterator stands, Within about calls, Sound and Invariant are the invariant, and
--   Snapshot is what follows; Adding, Tallies and Lengths are about `len`.
-- - AnyRef.antt: src/any_ref/inner.rs, strong.rs and weak.rs, with AnyRef/Downcast.antt about the
--   types of values, AnyRef/Requests.antt the calls that read and write the value as requests, with
--   a cell that knows the type of its value as the specification, AnyRef/Typing.antt and
--   AnyRef/Sequences.antt about sequences of them, AnyRef/Counts.antt about the two counts,
--   AnyRef/Handles.antt and AnyRef/Pointers.antt (src/any_ref/ptr_interface.rs) as for `Arw`.
-- - Prelude.antt: names, tests and lemmas that the parts share. Examples.antt: concrete inputs.
--
-- Bounds and fuel. A `usize` is a natural number with its wrap-around written out
-- (Prelude/Word.antt); the statements bound the number of threads, items and handles where it
-- matters. `drop` of a vector takes fuel, and one round more than there are items is enough.
-- `Mutex/Lone` gives each call as many accesses as it makes when it does not have to wait; `none`
-- is a call that waits or panics.
--
-- A run of the holders of an `Arw` has fewer than `isize::MAX` handles at each access, as each
-- takes memory. In a run of the threads of a vector there is room for one more item in `len` at
-- each access. A `for` loop over an iterator takes fuel, and one round more than `len` is enough; a
-- wait takes as many rounds as the clock needs to pass the deadline.
--
-- Left out. Accesses happen in one total order: weaker memory orderings are not told apart. Each
-- queue of parked threads is a list, and a push or pop of it is one access. `thread::park` may
-- return at any time. Where the threads of a vector are interleaved, a piece of code that
-- touches only what its thread alone may touch is one step, each thread has a handle throughout,
-- and a new item has an address that is not in use; the drop of the vector is not interleaved. A
-- handle of an `Arw` is used by one thread at a time, and where holders are interleaved a call
-- of the lock is one access, which is not waited for, while the unlocking in `fill` and
-- `try_unwrap` may panic; `map` and the moves to and from raw pointers are not calls of their
-- own there. The calls of `AnyRef` are made one after the other, not interleaved, and those in
-- AtomicHashMap.antt while no other thread is in one; a chain is the list of its items. Where
-- the threads at one bucket of a map are interleaved, a call of `ref_locked` is one access,
-- which takes the lock if its state allows it, but for `unlock_group`, which is the fetch_sub
-- and the store of DIRTY; a call that finds the bucket locked or its `ref_locked` taken tries
-- again; a `get` that comes between these two accesses of the drop of another guard is left out
-- of the runs, for the code then gives a lock away twice (Mutex/Race.antt is such a run of the
-- mutex); what `insert` writes is one step with its use of `ref_locked`; a guard that is kept
-- during other calls counts as a thread of its own, what is written through a guard of `get_mut`
-- is written when the guard is dropped, and clones and the drop of the map are not interleaved.
-- Where iterators are added, the map's lock is as `ref_locked` is, and no call joins it between
-- the same two accesses; a call may go to any bucket, and the end of the wait of `next` and its
-- read of the item are one step; the references that `next` returns are read at that moment. A
-- type, in `AnyRef`, is the number that `TypeId` gives it. The allocator, the clock, the hash of
-- a key, the default values and the offset of the value in an allocation are parameters. Not
-- modelled: `Debug` and `Pointer` formatting, which only prints; the tests; and lib.rs and the
-- `mod` files, which only name other modules.
mod Prelude
pub mod Backoff
pub mod Locking
pub mod Mutex
pub mod AtomicVec
pub mod Outcome
pub mod Utils
pub mod Arw
pub mod Guards
pub mod AtomicHashMap
pub mod AnyRef
mod Examples
