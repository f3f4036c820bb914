-- ===== src/AtomicVec.antt =====
-- src/collections/atomic_vec.rs: a linked queue behind a spin lock, over an explicit heap of items.
-- A call is the sequence of its accesses; `pop` and `push` come with their critical sections as
-- functions of their own, so that what other threads do in between can be put there.
pub mod Heap
pub mod Rep
pub mod Tail
pub mod Push
pub mod Unlink
pub mod Pop
pub mod Fifo
pub mod Drop
pub mod Threads
pub mod System
pub mod World
pub mod Interleaved
pub mod Safety
use acar.Prelude.{
  ℕ, zero, suc, ◌+◌, Bool, true, false, not, Option, none, some, ◌==◌, if◌then◌else◌, wrapping_inc,
  wrapping_dec,
}
use acar.AtomicVec.Heap.{
  Ptr, null, item, AtomicInner, Cmd, Run, ok, spins, pure, ◌>>=◌, ◌>>◌, read, modify, alloc, load,
  set_next, free,
}

module _ {ℓ} {A : Type ℓ} where
  -- The wait for the lock: with no other thread to release it, the loop spins for ever.
  unfoldable pub lock : Cmd A (Unit {0})
  lock v = if v.available then ok tt (record v { available = false }) else spins

  unfoldable pub is_busy : Cmd A Bool
  is_busy v = ok (not v.available) v

  unfoldable pub update_tail : Ptr → Cmd A (Unit {0})
  update_tail p = do
    tail ← read (λ v. v.tail)
    if tail == null then pure tt else set_next tail p
    modify (λ v. record v { tail = p })
    modify (λ v. record v { head = if v.head == null then p else v.head })
    modify (λ v. record v { len = wrapping_inc v.len })

  unfoldable pub release : Cmd A (Unit {0})
  release = do
    p ← read (λ v. v.t_tail)
    modify (λ v. record v { t_tail = null })
    if p == null then pure tt else update_tail p
    modify (λ v. record v { available = true })

  -- The exchange that leaves an item to the thread that holds the lock; whether it was made.
  unfoldable pub leave : Ptr → Cmd A Bool
  leave p = do
    t ← read (λ v. v.t_tail)
    if t == null then modify (λ v. record v { t_tail = p }) >> pure true else pure false

  -- `fresh` is the address that the allocator returns.
  unfoldable pub push : (fresh : Ptr) → A → Cmd A (Unit {0})
  push fresh val = do
    alloc fresh (item val null)
    busy ← is_busy
    left ← if busy then leave fresh else pure false
    if left then pure tt else (do lock; update_tail fresh; release)

  -- The part of `pop` under the lock: the item that it unlinks, or `null`.
  unfoldable pub unlink : Cmd A Ptr
  unlink = do
    head ← read (λ v. v.head)
    if head == null then pure null else do
      block ← load head
      modify (λ v. record v { head = block.next })
      modify (λ v. record v { tail = if v.tail == head then null else v.tail })
      pure head

  -- The part after the lock is released.
  unfoldable pub reclaim : Ptr → Cmd A (Option A)
  reclaim p = if p == null then pure none else do
    block ← load p
    free p
    modify (λ v. record v { len = wrapping_dec v.len })
    pure (some block.value)

  unfoldable pub pop : Cmd A (Option A)
  pop = do lock; p ← unlink; release; reclaim p

  unfoldable pub len : AtomicInner A → ℕ
  len v = v.len

  unfoldable pub is_empty : AtomicInner A → Bool
  unfolding len
  is_empty v = len v == 0

  unfoldable pub clone : Cmd A (Unit {0})
  clone = modify (λ v. record v { ref_count = wrapping_inc v.ref_count })

  -- The loop of `drop`, with fuel.
  unfoldable pub drop_items : ℕ → Ptr → Cmd A (Unit {0})
  drop_items zero head = λ v. spins
  drop_items (suc k) head =
      if head == null then pure tt else do block ← load head; free head; drop_items k block.next

  -- The result is whether the allocation is gone.
  unfoldable pub drop : (fuel : ℕ) → Cmd A Bool
  drop fuel = do
    n ← read (λ v. v.ref_count)
    modify (λ v. record v { ref_count = wrapping_dec v.ref_count })
    if n == 1 then (do head ← read (λ v. v.head); drop_items fuel head; pure true) else pure false
