-- ===== src/Guards/Laws.antt =====
-- What the three guards of src/mutex do to their lock.
use acar.Prelude.{ℕ, ◌+◌, ◌<◌, ◌^◌, ◌≡◌, refl, true, none, some}
use acar.Locking.{nobody, Locking}
use acar.Guards.{
  new_guard, lock, drop_guard, new_ref, is_locked_ref, drop_ref, new_mut, is_locked_mut, drop_mut,
  ◌>>=◌,
}

module _ (L : Locking) {T : Type 0} where
  -- A guard that `WatchGuard::new` made has a lock of its own, and its `drop` panics, whether it is
  -- dropped at once or while it is locked by `lock`.
  pub drop_guard-new_guard :
      (x : T)
      → (drop_guard L (new_guard L x) ≡ none) × (lock L (new_guard L x) >>= drop_guard L ≡ none)
  unfolding drop_guard new_guard lock
  drop_guard-new_guard x =
      let (k, took, mine) = L.takes L.fresh L.fresh_Is in
      (rw L.panics_fresh refl, rw (took, L.panics_group k mine) refl)

  -- A group lock taken through a new handle for a `WatchGuardRef`, and an exclusive lock taken so for
  -- a `WatchGuardMut`, are given back when the guard is dropped, and so is the handle. Until then
  -- `is_locked` of either guard is true, the shared one included.
  pub drop-new :
      {r : ℕ} (x : T) (l : L.Lock)
      → L.Is r nobody l
      → r + 2 < 2 ^ 64
      → ((k : L.Lock) × (L.lock_group (L.clone l) ≡ some k)
          × (is_locked_ref L (new_ref L x k) ≡ true)
          × ((m : L.Lock) × (drop_ref L (new_ref L x k) ≡ some (some m)) × L.Is r nobody m))
        × ((k : L.Lock) × (L.lock_exclusive (L.clone l) ≡ some k)
            × (is_locked_mut L (new_mut L x k) ≡ true)
            × ((m : L.Lock) × (drop_mut L (new_mut L x k) ≡ some (some m)) × L.Is r nobody m))
  unfolding is_locked_ref new_ref drop_ref is_locked_mut new_mut drop_mut
  drop-new x l free room =
      let other = L.clone-Is l nobody free room in
      let (k, opened, ours) = L.opens (L.clone l) other in
      let (k', took, mine) = L.takes (L.clone l) other in
      let (c, closed, left) = L.closes k ours in
      let (c', gave, left') = L.gives k' mine in
      let (m, ended, back) = L.drop-Is c nobody left in
      let (m', ended', back') = L.drop-Is c' nobody left' in
      (
        (k, opened, L.sees_group k 0 ours, (m, rw (closed, ended) refl, back)),
        (k', took, L.sees_exclusive k' mine, (m', rw (gave, ended') refl, back')),
      )
