-- ===== src/Locking.antt =====
-- What the owners of a lock (src/arw, src/any_ref, src/collections/atomic_hashmap.rs and the guards
-- of src/mutex) use of src/mutex/mutex.rs: its calls, made by one thread while no other is in a call.
use acar.Prelude.{ℕ, suc, ◌+◌, ◌<◌, ◌^◌, ◌≡◌, Bool, true, false, Option, none, some}

-- Who holds a lock. `group n` is a group of `n + 1` members.
pub data Held : Type 0 where
  nobody : Held
  group : ℕ → Held
  exclusively : Held

-- The calls; `none` is a call that does not return, because it waits or panics, and for `drop` that
-- the handle was the last one and the lock is gone.
pub record Locking : Type 1 where
  pub Lock : Type 0
  pub fresh : Lock
  -- Held as given, through one handle more than the number.
  pub Is : ℕ → Held → Lock → Type 0
  pub lock_exclusive : Lock → Option Lock
  pub unlock_exclusive : Lock → Option Lock
  pub lock_group : Lock → Option Lock
  pub unlock_group : Lock → Option Lock
  pub clone : Lock → Lock
  pub drop : Lock → Option Lock
  pub fresh_Is : Is 0 nobody fresh
  pub takes :
      {r : ℕ} (l : Lock)
      → Is r nobody l
      → (k : Lock) × (lock_exclusive l ≡ some k) × Is r exclusively k
  pub gives :
      {r : ℕ} (l : Lock)
      → Is r exclusively l
      → (k : Lock) × (unlock_exclusive l ≡ some k) × Is r nobody k
  pub opens :
      {r : ℕ} (l : Lock) → Is r nobody l → (k : Lock) × (lock_group l ≡ some k) × Is r (group 0) k
  pub joins :
      {r : ℕ} (l : Lock) (n : ℕ)
      → Is r (group n) l
      → n + 2 < 2 ^ 64
      → (k : Lock) × (lock_group l ≡ some k) × Is r (group (suc n)) k
  pub closes :
      {r : ℕ} (l : Lock) → Is r (group 0) l → (k : Lock) × (unlock_group l ≡ some k) × Is r nobody k
  pub leaves :
      {r : ℕ} (l : Lock) (n : ℕ)
      → Is r (group (suc n)) l
      → (k : Lock) × (unlock_group l ≡ some k) × Is r (group n) k
  pub refuses_exclusive : {r : ℕ} (l : Lock) (n : ℕ) → Is r (group n) l → lock_exclusive l ≡ none
  pub refuses_group : {r : ℕ} (l : Lock) → Is r exclusively l → lock_group l ≡ none
  pub refuses_second : {r : ℕ} (l : Lock) → Is r exclusively l → lock_exclusive l ≡ none
  pub panics_exclusive : {r : ℕ} (l : Lock) (n : ℕ) → Is r (group n) l → unlock_exclusive l ≡ none
  pub panics_group : {r : ℕ} (l : Lock) → Is r exclusively l → unlock_group l ≡ none
  pub panics_fresh : unlock_group fresh ≡ none
  pub is_locked_exclusive : Lock → Bool
  pub sees_nobody : {r : ℕ} (l : Lock) → Is r nobody l → is_locked_exclusive l ≡ false
  pub sees_group : {r : ℕ} (l : Lock) (n : ℕ) → Is r (group n) l → is_locked_exclusive l ≡ true
  pub sees_exclusive : {r : ℕ} (l : Lock) → Is r exclusively l → is_locked_exclusive l ≡ true
  pub clone-Is : {r : ℕ} (l : Lock) (h : Held) → Is r h l → r + 2 < 2 ^ 64 → Is (suc r) h (clone l)
  pub drop-Is :
      {r : ℕ} (l : Lock) (h : Held) → Is (suc r) h l → (k : Lock) × (drop l ≡ some k) × Is r h k
  pub drop_last : (l : Lock) (h : Held) → Is 0 h l → drop l ≡ none
