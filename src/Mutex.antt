-- ===== src/Mutex.antt =====
-- src/mutex/mutex.rs: the shared part of a mutex, its constants and the calls that are one atomic
-- access. The loops are in `Mutex/Threads`, an access at a time.
pub mod Threads
pub mod System
pub mod Invariant
pub mod Exclusion
pub mod Solo
pub mod Parking
pub mod Handles
pub mod Lone
mod Race
use acar.Prelude.{
  ℕ, ◌+◌, ◌<◌, Bool, true, false, not, ◌&&◌, ◌||◌, Option, none, some, List, [], ◌==◌, ltb,
  if◌then◌else◌, wrapping_inc, wrapping_dec,
}

pub data MutexType : Type 0 where
  exclusive group : MutexType

-- The four values that `state` (and, of these, the first two that `wake_deadlock`) ever holds.
-- The source spells them as constants of type u8: 0, 1, 3 and 4.
pub data State : Type 0 where
  unlocked locked locked_group dirty : State

abbrev pub is_unlocked : State → Bool
is_unlocked unlocked = true
is_unlocked _ = false

abbrev pub is_exclusive : State → Bool
is_exclusive locked = true
is_exclusive _ = false

abbrev pub is_group : State → Bool
is_group locked_group = true
is_group _ = false

abbrev pub is_dirty : State → Bool
is_dirty dirty = true
is_dirty _ = false

-- A parking list holds the identifiers of threads, in the order of the queue that `AtomicVec` is.
pub record InnerMutex : Type 0 where
  pub state : State
  pub ref_count : ℕ  -- usize
  pub parking_e : List ℕ
  pub parking_g : List ℕ
  pub lockers : ℕ  -- `locked`, usize
  pub wake_deadlock : State

abbrev pub new : InnerMutex
new = record {
  state = unlocked;
  ref_count = 1;
  parking_e = [];
  parking_g = [];
  lockers = 0;
  wake_deadlock = unlocked;
}

unfoldable pub is_locked_group : InnerMutex → Bool
is_locked_group m = is_group m.state || is_dirty m.state && ltb 0 m.lockers

unfoldable pub is_locked_exclusive : InnerMutex → Bool
is_locked_exclusive m = not (is_unlocked m.state || is_dirty m.state && m.lockers == 0)

unfoldable pub is_locked : InnerMutex → Bool
unfolding is_locked_group is_locked_exclusive
is_locked m = is_locked_group m || is_locked_exclusive m

unfoldable pub get_ref_count : InnerMutex → ℕ
get_ref_count m = m.ref_count

unfoldable pub clone : InnerMutex → InnerMutex
clone m = record m { ref_count = wrapping_inc m.ref_count }

-- `none` once the last handle is gone and the allocation is freed.
unfoldable pub drop : InnerMutex → Option InnerMutex
drop m = if m.ref_count == 1 then none else some (record m { ref_count = wrapping_dec m.ref_count })
