-- ===== src/AtomicVec/Threads.antt =====
-- src/collections/atomic_vec.rs as threads see it: where a thread stands in `push` or `pop`, and what
-- it does next. One step is one access of `state` or `t_tail`, or a piece of code that touches only
-- what its thread alone may touch: `head`, `tail` and the links while it holds the lock, an item that
-- it has made or unlinked, and `len`, which is only added to and subtracted from.
use acar.Prelude.{true, false, Option, none, some, List, [], ◌∷◌, ◌++◌, ◌==◌, if◌then◌else◌}
use acar.AtomicVec.Heap.{Ptr, null, Heap, Item, AtomicInner, Run, ok, fault, spins}
use acar.AtomicVec.{update_tail, unlink, reclaim}

-- The vector. `linked` and `taken` are not part of it: they are the values that have been linked in and
-- unlinked so far, in that order.
pub record Shared (A : Type 0) : Type 0 where
  pub vec : AtomicInner A
  pub linked : List A
  pub taken : List A

-- What a `pop` has unlinked, with the value of the item; nothing in a `push`.
abbrev pub Taken : Type 0 → Type 0
Taken A = Option (Ptr × A)

pub data Pc (A : Type 0) : Type 0 where
  idle : Pc A
  -- push
  pu_busy : Ptr → A → Pc A  -- the load in `is_busy`
  pu_leave : Ptr → A → Pc A  -- the exchange of `t_tail`
  pu_lock : Ptr → A → Pc A  -- the exchange of `state`
  pu_link : Ptr → A → Pc A  -- `update_tail`
  -- release
  rl_swap : Taken A → Pc A  -- the swap of `t_tail`
  rl_link : Ptr → Taken A → Pc A  -- `update_tail`
  rl_open : Taken A → Pc A  -- the store of AVAILABLE
  -- pop
  po_lock : Pc A  -- the exchange of `state`
  po_unlink : Pc A
  po_reclaim : Ptr → A → Pc A
  faulted : Pc A

module _ {A : Type 0} where
  abbrev pub value_at : Heap A → Ptr → List A
  value_at h p = elim (h p) [ none ↦ [] | some c ↦ c.value ∷ [] ]

  -- What `unlink` leaves, of an item with the given content; of none if the list is empty.
  abbrev pub unlinked_to : Option (Item A) → Ptr → AtomicInner A → Shared A → Pc A × Shared A
  unlinked_to none q v s = (rl_swap none, record s { vec = v })
  unlinked_to (some c) q v s =
      (rl_swap (some (q, c.value)), record s { vec = v; taken = s.taken ++ c.value ∷ [] })

  -- What follows a `release`.
  abbrev pub released_to : Taken A → Pc A
  released_to none = idle
  released_to (some (q, y)) = po_reclaim q y

  -- A command on the vector, and where the thread stands then.
  abbrev pub after_run :
      {B : Type 0} → Run A B → Shared A → (B → AtomicInner A → Pc A × Shared A) → Pc A × Shared A
  after_run (ok b v) s k = k b v
  after_run fault s k = (faulted, s)
  after_run spins s k = (faulted, s)

  -- `pop` returns what `reclaim` does.
  unfoldable pub step : Pc A → Shared A → Pc A × Shared A
  step idle s = (idle, s)
  step (pu_busy p x) s = if s.vec.available then (pu_lock p x, s) else (pu_leave p x, s)
  step (pu_leave p x) s =
      if s.vec.t_tail == null
      then (idle, record s { vec = record s.vec { t_tail = p } })
      else (pu_lock p x, s)
  step (pu_lock p x) s =
      if s.vec.available
      then (pu_link p x, record s { vec = record s.vec { available = false } })
      else (pu_lock p x, s)
  step (pu_link p x) s =
      after_run (update_tail p s.vec) s
        λ _ v. (rl_swap none, record s { vec = v; linked = s.linked ++ value_at s.vec.heap p })
  step (rl_swap k) s =
      let swapped = record s { vec = record s.vec { t_tail = null } } in
      if s.vec.t_tail == null then (rl_open k, swapped) else (rl_link s.vec.t_tail k, swapped)
  step (rl_link p k) s =
      after_run (update_tail p s.vec) s
        λ _ v. (rl_open k, record s { vec = v; linked = s.linked ++ value_at s.vec.heap p })
  step (rl_open k) s = (released_to k, record s { vec = record s.vec { available = true } })
  step po_lock s =
      if s.vec.available
      then (po_unlink, record s { vec = record s.vec { available = false } })
      else (po_lock, s)
  step po_unlink s = after_run (unlink s.vec) s λ q v. unlinked_to (s.vec.heap q) q v s
  step (po_reclaim q y) s = after_run (reclaim q s.vec) s λ o v. (idle, record s { vec = v })
  step faulted s = (faulted, s)
