-- ===== src/Guards.antt =====
-- src/mutex/watch_guard.rs, src/mutex/watch_guard_ref.rs and src/mutex/watch_guard_mut.rs: a value
-- with a handle of its lock. A reference that a guard holds is the value that it points to. A call
-- that does not return, because it waits or panics, is `none`.
pub mod Laws
use acar.Prelude.{Bool, Option, none, some}
use acar.Locking.{Locking}

infixl 5 ◌>>=◌
abbrev pub ◌>>=◌ {ℓ κ} : {A : Type ℓ} {B : Type κ} → Option A → (A → Option B) → Option B
none >>= f = none
some a >>= f = f a

pub record WatchGuard {ℓ} (Lock : Type 0) (T : Type ℓ) : Type ℓ where
  pub value : T
  pub lock : Lock

pub record WatchGuardRef {ℓ} (Lock : Type 0) (T : Type ℓ) : Type ℓ where
  pub value : T
  pub lock : Lock

pub record WatchGuardMut {ℓ} (Lock : Type 0) (T : Type ℓ) : Type ℓ where
  pub value : T
  pub lock : Lock

module _ {ℓ} (L : Locking) {T : Type ℓ} where
  open L use {Lock}

  unfoldable pub new_guard : T → WatchGuard Lock T
  new_guard x = record { value = x; lock = L.fresh }

  unfoldable pub new_locked : T → Lock → WatchGuard Lock T
  new_locked x l = record { value = x; lock = l }

  unfoldable pub is_locked : WatchGuard Lock T → Bool
  is_locked g = L.is_locked_exclusive g.lock

  unfoldable pub lock : WatchGuard Lock T → Option (WatchGuard Lock T)
  lock g = do l ← L.lock_exclusive g.lock; some (record g { lock = l })

  unfoldable pub unlock : WatchGuard Lock T → Option (WatchGuard Lock T)
  unlock g = do l ← L.unlock_exclusive g.lock; some (record g { lock = l })

  -- The end of a guard gives its share of the lock back, and then its handle. What it leaves is the
  -- lock, or nothing where the handle was the last one.
  unfoldable pub drop_guard : WatchGuard Lock T → Option (Option Lock)
  drop_guard g = do l ← L.unlock_group g.lock; some (L.drop l)

  unfoldable pub deref_guard : WatchGuard Lock T → T
  deref_guard g = g.value

  -- `deref_mut`, through which the value becomes `x`.
  unfoldable pub write_guard : T → WatchGuard Lock T → WatchGuard Lock T
  write_guard x g = record g { value = x }

  unfoldable pub new_ref : T → Lock → WatchGuardRef Lock T
  new_ref x l = record { value = x; lock = l }

  unfoldable pub is_locked_ref : WatchGuardRef Lock T → Bool
  is_locked_ref g = L.is_locked_exclusive g.lock

  unfoldable pub deref_ref : WatchGuardRef Lock T → T
  deref_ref g = g.value

  unfoldable pub drop_ref : WatchGuardRef Lock T → Option (Option Lock)
  drop_ref g = do l ← L.unlock_group g.lock; some (L.drop l)

  unfoldable pub new_mut : T → Lock → WatchGuardMut Lock T
  new_mut x l = record { value = x; lock = l }

  unfoldable pub is_locked_mut : WatchGuardMut Lock T → Bool
  is_locked_mut g = L.is_locked_exclusive g.lock

  unfoldable pub deref_of_mut : WatchGuardMut Lock T → T
  deref_of_mut g = g.value

  -- `deref_mut`, through which the value becomes `x`.
  unfoldable pub write_mut : T → WatchGuardMut Lock T → WatchGuardMut Lock T
  write_mut x g = record g { value = x }

  unfoldable pub drop_mut : WatchGuardMut Lock T → Option (Option Lock)
  drop_mut g = do l ← L.unlock_exclusive g.lock; some (L.drop l)

  -- A guard is compared by its value; the comparison of values is a parameter.
  unfoldable pub eq_guard {κ} : {U : Type κ} → (T → U → Bool) → WatchGuard Lock T → U → Bool
  eq_guard eq g other = eq g.value other

  unfoldable pub eq_ref {κ} : {U : Type κ} → (T → U → Bool) → WatchGuardRef Lock T → U → Bool
  eq_ref eq g other = eq g.value other

  unfoldable pub eq_mut {κ} : {U : Type κ} → (T → U → Bool) → WatchGuardMut Lock T → U → Bool
  eq_mut eq g other = eq g.value other
