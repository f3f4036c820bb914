-- ===== src/Arw.antt =====
-- src/arw/inner.rs, src/arw/strong.rs and src/arw/weak.rs: one allocation, with its two counts, its
-- lock and its value, and the calls on the handles that point to it. The lock is the interface
-- `Locking`. Values whose destructor has run are recorded, the latest first.
pub mod Counts
pub mod Value
pub mod Handles
pub mod Pointers
pub mod Threads
pub mod System
pub mod Counted
pub mod Invariant
pub mod Safety
use acar.Prelude.{
  ℕ, zero, suc, ◌+◌, ◌-◌, ◌^◌, Bool, true, false, Option, none, some, List, [], ◌∷◌, ◌==◌, ltb, leb,
  if◌then◌else◌, wrapping_inc, wrapping_dec, usize_max,
}
use acar.Locking.{Locking}
use acar.Outcome.{ok, panics, aborts, fault, waits, Cmd, pure, ◌>>=◌, ◌>>◌}

-- `isize::MAX as usize`
abbrev pub max_refcount : ℕ
max_refcount = 2 ^ 63 - 1

pub record ArwInner {ℓ} (Lock : Type 0) (T : Type ℓ) : Type ℓ where
  pub lock : Option Lock  -- `none` once dropped in place
  pub strong : ℕ  -- usize
  pub weak : ℕ  -- usize
  pub val : Option T  -- `none` once dropped in place
  pub allocated : Bool
  pub destroyed : List T

abbrev pub Call {ℓ κ} : Locking → Type ℓ → Type κ → Type (ℓ ⊔ κ)
Call L T B = Cmd (ArwInner L.Lock T) B

module _ {ℓ} (L : Locking) {T : Type ℓ} where
  open L use {Lock}

  abbrev pub new : T → ArwInner Lock T
  new value = record {
    lock = some L.fresh;
    strong = 1;
    weak = 1;
    val = some value;
    allocated = true;
    destroyed = [];
  }

  -- Every access goes through the pointer, and is a fault once the memory has been given back.
  unfoldable pub inner : Call L T (ArwInner Lock T)
  inner s = if s.allocated then ok s s else fault

  unfoldable pub set_strong : ℕ → Call L T (Unit {0})
  set_strong n s = ok tt (record s { strong = n })

  unfoldable pub set_weak : ℕ → Call L T (Unit {0})
  set_weak n s = ok tt (record s { weak = n })

  -- A call of the lock; the lock is a fault once dropped.
  unfoldable pub locking : (Lock → Option Lock) → Call L T (Unit {0})
  locking call s = elim s.lock [
    | none ↦ fault
    | some l ↦ elim (call l) [ none ↦ waits | some k ↦ ok tt (record s { lock = some k }) ]
  ]

  -- The drop of a guard's handle of the lock.
  unfoldable pub drop_handle : Call L T (Unit {0})
  drop_handle s = elim s.lock [ none ↦ fault | some l ↦ ok tt (record s { lock = L.drop l }) ]

  -- `ptr::drop_in_place` of the lock and of the value.
  unfoldable pub drop_lock : Call L T (Unit {0})
  drop_lock s = elim s.lock [ none ↦ fault | some l ↦ ok tt (record s { lock = none }) ]

  unfoldable pub drop_val : Call L T (Unit {0})
  drop_val s = elim s.val [
    | none ↦ fault
    | some x ↦ ok tt (record s { val = none; destroyed = x ∷ s.destroyed })
  ]

  -- A bitwise copy of the value.
  unfoldable pub read_data : Call L T T
  read_data s = elim s.val [ none ↦ fault | some x ↦ ok x s ]

  unfoldable pub write_data : T → Call L T (Unit {0})
  write_data x s = ok tt (record s { val = some x })

  -- `dealloc`
  unfoldable pub dealloc : Call L T (Unit {0})
  dealloc s = ok tt (record s { allocated = false })

  -- `<Arw as Clone>::clone`
  unfoldable pub clone : Call L T (Unit {0})
  clone = do
    s ← inner
    set_strong (wrapping_inc s.strong)
    if leb max_refcount s.strong then (λ _. aborts) else pure tt

  -- `<WeakArw as Drop>::drop`, of a pointer that does not dangle
  unfoldable pub drop_weak : Call L T (Unit {0})
  drop_weak = do s ← inner; set_weak (wrapping_dec s.weak); if s.weak == 1 then dealloc else pure tt

  -- `<Arw as Drop>::drop`
  unfoldable pub drop : Call L T (Unit {0})
  drop = do
    s ← inner
    set_strong (wrapping_dec s.strong)
    if s.strong == 1 then (do drop_lock; drop_val; drop_weak) else pure tt

  -- With no other thread to change it, a weak count that is locked is waited for without end, and
  -- the exchange succeeds.
  unfoldable pub downgrade : Call L T (Unit {0})
  downgrade = do
    s ← inner
    if s.weak == usize_max
        then (λ _. waits)
        else (if leb s.weak max_refcount then set_weak (s.weak + 1) else (λ _. panics))

  -- `checked_increment`, and the update by it: whether a strong handle was made.
  unfoldable pub upgrade : Call L T Bool
  upgrade = do
    s ← inner
    if s.strong == 0
        then pure false
        else (if leb s.strong max_refcount
            then set_strong (s.strong + 1) >> pure true
            else (λ _. panics))

  -- `<WeakArw as Clone>::clone`, of a pointer that does not dangle
  unfoldable pub clone_weak : Call L T (Unit {0})
  clone_weak = do
    s ← inner
    set_weak (wrapping_inc s.weak)
    if ltb max_refcount s.weak then (λ _. aborts) else pure tt

  unfoldable pub is_unique : Call L T Bool
  is_unique = do
    s ← inner
    if s.weak == 1
        then (do set_weak usize_max; t ← inner; set_weak 1; pure (t.strong == 1))
        else pure false

  -- `Arw::weak_count`, which leaves the implicit handle out.
  unfoldable pub weak_count : Call L T ℕ
  weak_count = do s ← inner; pure (if s.weak == usize_max then 0 else s.weak - 1)

  unfoldable pub strong_count : Call L T ℕ
  strong_count = do s ← inner; pure s.strong

  -- `WeakArw::weak_count`, of a pointer that does not dangle
  unfoldable pub weak_count_of_weak : Call L T ℕ
  weak_count_of_weak = do s ← inner; pure s.weak

  -- The value, or `none` where the handle is given back.
  unfoldable pub try_unwrap : Call L T (Option T)
  try_unwrap = do
    inner
    locking L.lock_exclusive
    s ← inner
    if s.strong == 1
        then (do set_strong 0; elem ← read_data; drop_val; drop_lock; drop_weak; pure (some elem))
        else (do locking L.unlock_exclusive; pure none)

  unfoldable pub fill : T → Call L T (Unit {0})
  fill value = do
    inner
    locking L.lock_exclusive
    drop_val
    write_data value
    locking L.unlock_exclusive

  -- The guard's value; the guard is a handle of the same lock.
  unfoldable pub as_ref : Call L T T
  as_ref = do inner; locking (λ l. L.lock_group (L.clone l)); read_data

  unfoldable pub as_mut : Call L T T
  as_mut = do inner; locking (λ l. L.lock_exclusive (L.clone l)); read_data

  -- The end of a guard of `as_ref`, and of one of `as_mut` through which the value has become `x`.
  unfoldable pub drop_ref : Call L T (Unit {0})
  drop_ref = do locking L.unlock_group; drop_handle

  unfoldable pub drop_mut : T → Call L T (Unit {0})
  drop_mut x = do write_data x; locking L.unlock_exclusive; drop_handle
