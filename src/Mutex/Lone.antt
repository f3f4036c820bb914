-- ===== src/Mutex/Lone.antt =====
-- The calls of src/mutex/mutex.rs made by one thread while no other is in a call: the interface
-- `Locking`, filled by the mutex.
use mathlib.Core.Path.{subst}
use acar.Prelude.{
  ℕ, suc, ◌+◌, ◌<◌, ◌^◌, ◌≡◌, refl, Bool, true, false, Option, none, some, [], if◌then◌else◌, arith,
  length, ap,
}
use acar.Backoff
use acar.Mutex.{
  State, unlocked, locked, locked_group, dirty, InnerMutex, new, clone, drop, is_locked_exclusive,
}
use acar.Mutex.Threads.{Pc, step, idle, ex_spin, ex_held, gr_join, gr_held, ue_swap, ug_load}
use acar.Mutex.Solo.{solo, mutex_of, unlock_group_other}
use acar.Locking.{Held, nobody, group, exclusively, Locking}

abbrev is_idle : Pc → Bool
is_idle idle = true
is_idle _ = false

abbrev holds_exclusive : Pc → Bool
holds_exclusive ex_held = true
holds_exclusive _ = false

abbrev holds_group : Pc → Bool
holds_group gr_held = true
holds_group _ = false

-- The accesses of a call, up to the point where it has returned; `none` if it has not by then.
lone : ℕ → Pc → (Pc → Bool) → InnerMutex → Option InnerMutex
lone n p done m =
    let (q, s) = solo n 0 p (record { mutex = m; unparked = [] }) in
    if done q then some s.mutex else none

-- A lock that is not taken at once waits; the fuel covers every access of a call that does not.
unfoldable pub lock_exclusive : InnerMutex → Option InnerMutex
unfolding lone
lock_exclusive = lone 3 (ex_spin Backoff.new 10) holds_exclusive

unfoldable pub unlock_exclusive : InnerMutex → Option InnerMutex
unfolding lone
unlock_exclusive = lone 7 ue_swap is_idle

unfoldable pub lock_group : InnerMutex → Option InnerMutex
unfolding lone
lock_group m = lone (16 + length m.parking_g) gr_join holds_group m

unfoldable pub unlock_group : InnerMutex → Option InnerMutex
unfolding lone
unlock_group = lone 9 ug_load is_idle

-- A mutex whose queues are empty, whose holders are as given, and that has one handle more than the
-- number.
pub data Lone : ℕ → Held → InnerMutex → Type 0 where
  free : (r : ℕ) → suc r < 2 ^ 64 → Lone r nobody (mutex_of unlocked (suc r) [] [] 0 unlocked)
  emptied : (r : ℕ) → suc r < 2 ^ 64 → Lone r nobody (mutex_of dirty (suc r) [] [] 0 unlocked)
  shared :
      (r n : ℕ)
      → n + 1 < 2 ^ 64
      → suc r < 2 ^ 64
      → Lone r (group n) (mutex_of locked_group (suc r) [] [] (suc n) unlocked)
  owned : (r : ℕ) → suc r < 2 ^ 64 → Lone r exclusively (mutex_of locked (suc r) [] [] 0 unlocked)

-- The same mutex, with its count of handles written another way.
Lone-refs :
    {r a b : ℕ} (h : Held) (x : State) (n : ℕ)
    → a ≡ b
    → Lone r h (mutex_of x a [] [] n unlocked)
    → Lone r h (mutex_of x b [] [] n unlocked)
Lone-refs {r} h x n e = subst (λ c. Lone r h (mutex_of x c [] [] n unlocked)) e

pub takes :
    {r : ℕ} (m : InnerMutex)
    → Lone r nobody m
    → (k : InnerMutex) × (lock_exclusive m ≡ some k) × Lone r exclusively k
unfolding lock_exclusive solo step Backoff.new
takes m (free r u) = (_, refl, owned r u)
takes m (emptied r u) = (_, refl, owned r u)

pub gives :
    {r : ℕ} (m : InnerMutex)
    → Lone r exclusively m
    → (k : InnerMutex) × (unlock_exclusive m ≡ some k) × Lone r nobody k
unfolding unlock_exclusive solo step
gives m (owned r u) = (_, refl, free r u)

pub opens :
    {r : ℕ} (m : InnerMutex)
    → Lone r nobody m
    → (k : InnerMutex) × (lock_group m ≡ some k) × Lone r (group 0) k
unfolding lock_group solo step Backoff.new
opens m (free r u) = (_, refl, shared r 0 (omega arith) u)
opens m (emptied r u) = (_, refl, shared r 0 (omega arith) u)

pub joins :
    {r : ℕ} (m : InnerMutex) (n : ℕ)
    → Lone r (group n) m
    → n + 2 < 2 ^ 64
    → (k : InnerMutex) × (lock_group m ≡ some k) × Lone r (group (suc n)) k
unfolding lock_group solo step Backoff.new
joins m n (shared r n' h u) room = (
  _,
  ap (λ k. some (mutex_of locked_group (suc r) [] [] k unlocked)) (omega arith),
  shared r (suc n) (omega arith) u,
)

pub closes :
    {r : ℕ} (m : InnerMutex)
    → Lone r (group 0) m
    → (k : InnerMutex) × (unlock_group m ≡ some k) × Lone r nobody k
unfolding unlock_group solo step
closes m l = close m 0 l refl
  where
    close :
        {r : ℕ} (m : InnerMutex) (n : ℕ)
        → Lone r (group n) m
        → n ≡ 0
        → (k : InnerMutex) × (unlock_group m ≡ some k) × Lone r nobody k
    close m n (shared r n' h u) e = rw e (_, refl, emptied r u)

pub leaves :
    {r : ℕ} (m : InnerMutex) (n : ℕ)
    → Lone r (group (suc n)) m
    → (k : InnerMutex) × (unlock_group m ≡ some k) × Lone r (group n) k
unfolding unlock_group
leaves m n (shared r n' h u) = (
  _,
  rw (unlock_group_other 0 (suc r) (suc (suc n)) [] [] [] (ground arith))
      (ap (λ k. some (mutex_of locked_group (suc r) [] [] k unlocked)) (omega arith)),
  shared r n (omega arith) u,
)

pub refuses_exclusive :
    {r : ℕ} (m : InnerMutex) (n : ℕ) → Lone r (group n) m → lock_exclusive m ≡ none
unfolding lock_exclusive solo step Backoff.new
refuses_exclusive m n (shared r n' h u) = refl

pub refuses_second : {r : ℕ} (m : InnerMutex) → Lone r exclusively m → lock_exclusive m ≡ none
unfolding lock_exclusive solo step Backoff.new
refuses_second m (owned r u) = refl

pub refuses_group : {r : ℕ} (m : InnerMutex) → Lone r exclusively m → lock_group m ≡ none
unfolding lock_group solo step Backoff.new
refuses_group m (owned r u) = refl

pub panics_exclusive :
    {r : ℕ} (m : InnerMutex) (n : ℕ) → Lone r (group n) m → unlock_exclusive m ≡ none
unfolding unlock_exclusive solo step
panics_exclusive m n (shared r n' h u) = refl

pub panics_group : {r : ℕ} (m : InnerMutex) → Lone r exclusively m → unlock_group m ≡ none
unfolding unlock_group solo step
panics_group m (owned r u) = refl

pub clone-Lone :
    {r : ℕ} (m : InnerMutex) (h : Held) → Lone r h m → r + 2 < 2 ^ 64 → Lone (suc r) h (clone m)
unfolding clone
clone-Lone m h (free r u) room =
    Lone-refs nobody unlocked 0 (omega arith) (free (suc r) (omega arith))
clone-Lone m h (emptied r u) room =
    Lone-refs nobody dirty 0 (omega arith) (emptied (suc r) (omega arith))
clone-Lone m h (shared r n small u) room =
    Lone-refs (group n) locked_group (suc n) (omega arith) (shared (suc r) n small (omega arith))
clone-Lone m h (owned r u) room =
    Lone-refs exclusively locked 0 (omega arith) (owned (suc r) (omega arith))

pub drop-Lone :
    {r : ℕ} (m : InnerMutex) (h : Held)
    → Lone (suc r) h m
    → (k : InnerMutex) × (drop m ≡ some k) × Lone r h k
unfolding drop
drop-Lone {r} m h (free r' u) =
    (mutex_of unlocked (suc r) [] [] 0 unlocked, ground arith, free r (omega arith))
drop-Lone {r} m h (emptied r' u) =
    (mutex_of dirty (suc r) [] [] 0 unlocked, ground arith, emptied r (omega arith))
drop-Lone {r} m h (shared r' n small u) = (
  mutex_of locked_group (suc r) [] [] (suc n) unlocked,
  ground arith,
  shared r n small (omega arith),
)
drop-Lone {r} m h (owned r' u) =
    (mutex_of locked (suc r) [] [] 0 unlocked, ground arith, owned r (omega arith))

pub drop_last_handle : (m : InnerMutex) (h : Held) → Lone 0 h m → drop m ≡ none
unfolding drop
drop_last_handle m h (free r u) = refl
drop_last_handle m h (emptied r u) = refl
drop_last_handle m h (shared r n small u) = refl
drop_last_handle m h (owned r u) = refl

pub panics_fresh : unlock_group new ≡ none
unfolding unlock_group solo step
panics_fresh = refl

pub sees_nobody : {r : ℕ} (m : InnerMutex) → Lone r nobody m → is_locked_exclusive m ≡ false
unfolding is_locked_exclusive
sees_nobody m (free r u) = refl
sees_nobody m (emptied r u) = refl

pub sees_group :
    {r : ℕ} (m : InnerMutex) (n : ℕ) → Lone r (group n) m → is_locked_exclusive m ≡ true
unfolding is_locked_exclusive
sees_group m n (shared r n' h u) = refl

pub sees_exclusive : {r : ℕ} (m : InnerMutex) → Lone r exclusively m → is_locked_exclusive m ≡ true
unfolding is_locked_exclusive
sees_exclusive m (owned r u) = refl

-- The mutex is a lock: alone, its calls return exactly when the holders allow it, and change the
-- holders as the names say.
abbrev pub mutex_locking : Locking
mutex_locking = record {
  Lock = InnerMutex;
  fresh = new;
  Is = Lone;
  lock_exclusive = lock_exclusive;
  unlock_exclusive = unlock_exclusive;
  lock_group = lock_group;
  unlock_group = unlock_group;
  clone = clone;
  drop = drop;
  fresh_Is = free 0 (omega arith);
  takes = takes;
  gives = gives;
  opens = opens;
  joins = joins;
  closes = closes;
  leaves = leaves;
  refuses_exclusive = refuses_exclusive;
  refuses_group = refuses_group;
  refuses_second = refuses_second;
  panics_exclusive = panics_exclusive;
  panics_group = panics_group;
  panics_fresh = panics_fresh;
  is_locked_exclusive = is_locked_exclusive;
  sees_nobody = sees_nobody;
  sees_group = sees_group;
  sees_exclusive = sees_exclusive;
  clone-Is = clone-Lone;
  drop-Is = drop-Lone;
  drop_last = drop_last_handle;
}
