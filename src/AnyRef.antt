-- ===== src/AnyRef.antt =====
-- src/any_ref/inner.rs, src/any_ref/strong.rs and src/any_ref/weak.rs: one allocation with a value of
-- some type, its two counts and its lock, and the calls on the handles that point to it. A type is
-- the number that `TypeId` gives it, and every value is one of a type of all of them. Values whose
-- destructor has run are recorded, the latest first.
pub mod Downcast
pub mod Handles
pub mod Pointers
pub mod Counts
pub mod Requests
pub mod Typing
pub mod Sequences
use acar.Prelude.{
  ℕ, zero, suc, ◌+◌, ◌-◌, ◌^◌, Bool, true, false, Option, none, some, List, [], ◌∷◌, ◌==◌, ltb, leb,
  if◌then◌else◌, wrapping_inc, wrapping_dec, usize_max,
}
use acar.Locking.{Locking}
use acar.Outcome.{ok, panics, aborts, fault, waits, Cmd, pure, ◌>>=◌, ◌>>◌}

abbrev pub TypeId : Type 0
TypeId = ℕ

-- `isize::MAX as usize`
abbrev pub max_refcount : ℕ
max_refcount = 2 ^ 63 - 1

pub record AnyRefInner (Lock V : Type 0) : Type 0 where
  pub boxed : Option (TypeId × V)  -- `data`: the type that the box knows, and the value
  pub type_id : TypeId
  pub type_name : TypeId  -- the type whose name it is
  pub lock : Option Lock  -- `none` once dropped in place
  pub strong : ℕ  -- usize
  pub weak : ℕ  -- usize
  pub allocated : Bool
  pub destroyed : List V

abbrev pub Call : Locking → Type 0 → Type 0 → Type 0
Call L V B = Cmd (AnyRefInner L.Lock V) B

module _ (L : Locking) {V : Type 0} where
  open L use {Lock}

  abbrev pub from_box : TypeId → V → AnyRefInner Lock V
  from_box u src = record {
    boxed = some (u, src);
    type_id = u;
    type_name = u;
    lock = some L.fresh;
    strong = 1;
    weak = 1;
    allocated = true;
    destroyed = [];
  }

  abbrev pub new : TypeId → V → AnyRefInner Lock V
  new u value = from_box u value

  -- Every access goes through the pointer, and is a fault once the memory has been given back.
  unfoldable pub inner : Call L V (AnyRefInner Lock V)
  inner s = if s.allocated then ok s s else fault

  unfoldable pub set_strong : ℕ → Call L V (Unit {0})
  set_strong n s = ok tt (record s { strong = n })

  unfoldable pub set_weak : ℕ → Call L V (Unit {0})
  set_weak n s = ok tt (record s { weak = n })

  -- A call of the lock; the lock is a fault once dropped.
  unfoldable pub locking : (Lock → Option Lock) → Call L V (Unit {0})
  locking call s = elim s.lock [
    | none ↦ fault
    | some l ↦ elim (call l) [ none ↦ waits | some k ↦ ok tt (record s { lock = some k }) ]
  ]

  -- The drop of a guard's handle of the lock.
  unfoldable pub drop_handle : Call L V (Unit {0})
  drop_handle s = elim s.lock [ none ↦ fault | some l ↦ ok tt (record s { lock = L.drop l }) ]

  -- `ptr::drop_in_place` of the lock and of the box.
  unfoldable pub drop_lock : Call L V (Unit {0})
  drop_lock s = elim s.lock [ none ↦ fault | some l ↦ ok tt (record s { lock = none }) ]

  unfoldable pub drop_data : Call L V (Unit {0})
  drop_data s = elim s.boxed [
    | none ↦ fault
    | some (u, x) ↦ ok tt (record s { boxed = none; destroyed = x ∷ s.destroyed })
  ]

  -- The box that the allocation holds.
  unfoldable pub get_ref : Call L V (TypeId × V)
  get_ref s = elim s.boxed [ none ↦ fault | some d ↦ ok d s ]

  unfoldable pub set_data : TypeId → V → Call L V (Unit {0})
  set_data u x s = ok tt (record s { boxed = some (u, x) })

  unfoldable pub set_type_id : TypeId → Call L V (Unit {0})
  set_type_id u s = ok tt (record s { type_id = u })

  unfoldable pub dealloc : Call L V (Unit {0})
  dealloc s = ok tt (record s { allocated = false })

  -- `<AnyRef as Clone>::clone`
  unfoldable pub clone : Call L V (Unit {0})
  clone = do
    s ← inner
    set_strong (wrapping_inc s.strong)
    if ltb max_refcount s.strong then (λ _. aborts) else pure tt

  -- `<WeakAnyRef as Drop>::drop`, of a pointer that does not dangle
  unfoldable pub drop_weak : Call L V (Unit {0})
  drop_weak = do s ← inner; set_weak (wrapping_dec s.weak); if s.weak == 1 then dealloc else pure tt

  -- `<AnyRef as Drop>::drop`
  unfoldable pub drop : Call L V (Unit {0})
  drop = do
    s ← inner
    set_strong (wrapping_dec s.strong)
    if s.strong == 1 then (do drop_lock; drop_data; drop_weak) else pure tt

  -- With no other thread to change it, a weak count that is locked is waited for without end, and
  -- the exchange succeeds.
  unfoldable pub downgrade : Call L V (Unit {0})
  downgrade = do
    s ← inner
    if s.weak == usize_max
        then (λ _. waits)
        else (if leb s.weak max_refcount then set_weak (s.weak + 1) else (λ _. panics))

  -- `checked_increment`, and the update by it: whether a strong handle was made.
  unfoldable pub upgrade : Call L V Bool
  upgrade = do
    s ← inner
    if s.strong == 0
        then pure false
        else (if leb s.strong max_refcount
            then set_strong (s.strong + 1) >> pure true
            else (λ _. panics))

  -- `<WeakAnyRef as Clone>::clone`, of a pointer that does not dangle
  unfoldable pub clone_weak : Call L V (Unit {0})
  clone_weak = do
    s ← inner
    set_weak (wrapping_inc s.weak)
    if ltb max_refcount s.weak then (λ _. aborts) else pure tt

  unfoldable pub is_unique : Call L V Bool
  is_unique = do
    s ← inner
    if s.weak == 1
        then (do set_weak usize_max; t ← inner; set_weak 1; pure (t.strong == 1))
        else pure false

  -- `AnyRef::weak_count`, which leaves the implicit handle out.
  unfoldable pub weak_count : Call L V ℕ
  weak_count = do s ← inner; pure (if s.weak == usize_max then 0 else s.weak - 1)

  unfoldable pub strong_count : Call L V ℕ
  strong_count = do s ← inner; pure s.strong

  -- `WeakAnyRef::weak_count`, of a pointer that does not dangle
  unfoldable pub weak_count_of_weak : Call L V ℕ
  weak_count_of_weak = do s ← inner; pure s.weak

  -- A bitwise copy of the value as a `T`, which it has to be, whatever `type_id` says.
  unfoldable pub read_as : TypeId → Call L V V
  read_as u = do (v, x) ← get_ref; if v == u then pure x else (λ _. fault)

  -- The value, or `none` where the handle is given back.
  unfoldable pub try_unwrap : TypeId → Call L V (Option V)
  try_unwrap u = do
    inner
    locking L.lock_exclusive
    s ← inner
    if s.strong == 1
        then (do set_strong 0; elem ← read_as u; drop_data; drop_lock; drop_weak; pure (some elem))
        else (do locking L.unlock_exclusive; pure none)

  -- The guard's value; the guard is a handle of the same lock.
  unfoldable pub try_downcast_ref : TypeId → Call L V (Option V)
  try_downcast_ref u = do
    s ← inner
    if s.type_id == u
        then (do
          locking (λ l. L.lock_group (L.clone l))
          (v, t) ← get_ref
          if v == u then pure (some t) else (do locking L.unlock_group; drop_handle; pure none))
        else pure none

  unfoldable pub try_downcast_mut : TypeId → Call L V (Option V)
  try_downcast_mut u = do
    s ← inner
    if s.type_id == u
        then (do
          locking (λ l. L.lock_exclusive (L.clone l))
          (v, t) ← get_ref
          (if v == u
              then pure (some t)
              else (do locking L.unlock_exclusive; drop_handle; pure none)))
        else pure none

  unfoldable pub expect_value : Option V → Call L V V
  expect_value (some t) = pure t
  expect_value none = λ _. panics

  unfoldable pub as_ref : TypeId → Call L V V
  as_ref u = do o ← try_downcast_ref u; expect_value o

  unfoldable pub as_mut : TypeId → Call L V V
  as_mut u = do o ← try_downcast_mut u; expect_value o

  -- The end of a guard of `as_ref`, and of one of `as_mut` through which the value has become `x`.
  unfoldable pub drop_ref : Call L V (Unit {0})
  drop_ref = do locking L.unlock_group; drop_handle

  unfoldable pub drop_mut : TypeId → V → Call L V (Unit {0})
  drop_mut u x = do set_data u x; locking L.unlock_exclusive; drop_handle

  -- The old box is dropped when the new one is stored.
  unfoldable pub fill : TypeId → V → Call L V (Unit {0})
  fill u value = do
    inner
    locking L.lock_exclusive
    drop_data
    set_data u value
    set_type_id u
    locking L.unlock_exclusive
