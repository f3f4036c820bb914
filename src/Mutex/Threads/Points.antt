-- ===== src/Mutex/Threads/Points.antt =====
-- Where a thread stands in a call of src/mutex/mutex.rs, and what its accesses have in common.
use acar.Prelude.{ℕ, Bool, true, false, Option, none, some, List, [], ◌∷◌, ◌==◌, if◌then◌else◌}
use acar.Backoff
use acar.Backoff.{Backoff}
use acar.Mutex.{MutexType, exclusive, group, State, unlocked, locked_group, dirty, InnerMutex}

-- The mutex, and the threads on which `unpark` has been called, latest first.
pub record Shared : Type 0 where
  pub mutex : InnerMutex
  pub unparked : List ℕ

-- What follows a call of `wake`: the group lock is held; the other kind is woken if this woke
-- nobody; nothing.
pub data Then : Type 0 where
  enter : Then
  or_else : MutexType → Then
  finish : Then

pub data Pc : Type 0 where
  idle : Pc
  -- lock_exclusive
  ex_spin : Backoff → (spin : ℕ) → Pc  -- the load in `spin`
  ex_check : Backoff → Pc  -- DIRTY: the load of `locked`
  ex_claim : Backoff → Pc  -- the exchange of DIRTY
  ex_take : Backoff → Pc  -- the exchange of UNLOCKED
  ex_held : Pc
  -- lock_group
  gr_join : Pc  -- the fetch_add
  gr_spin : Backoff → (spin : ℕ) → Pc
  gr_claim : Backoff → Pc
  gr_recheck : Pc  -- LOCKED_GROUP: the second load
  gr_take : Backoff → Pc
  gr_held : Pc
  -- try_lock_exclusive
  tr_load : Pc
  tr_claim : Pc
  tr_take : Pc
  -- unlock_exclusive
  ue_swap : Pc
  -- unlock_group
  ug_load : Pc
  ug_sub : Pc
  ug_store : Pc
  -- suspend, from the lock loop of that kind
  su_guard : MutexType → Backoff → Pc
  su_push : MutexType → Backoff → Pc
  su_open : MutexType → Backoff → Pc
  su_park : MutexType → Backoff → Pc
  -- wake
  wk_guard : MutexType → Then → Pc
  wk_pop : MutexType → Then → Pc
  wk_open : Bool → Then → Pc
  -- wake_all(Group), from `lock_group`
  wa_guard : Pc
  wa_pop : Pc
  wa_early : Pc  -- the store before the rest is woken
  wa_drain : Pc
  wa_open : Pc
  panicked : Pc

-- `match self.spin(10)`: `spin` returns the state that it loads if that is UNLOCKED or DIRTY, or if
-- no round is left.
abbrev pub stops : State → ℕ → Bool
stops unlocked k = true
stops dirty k = true
stops _ k = k == 0

abbrev pub ex_match : Backoff → State → Pc
ex_match b dirty = ex_check b
ex_match b _ = ex_take b

abbrev pub gr_match : Backoff → State → Pc
gr_match b dirty = gr_claim b
gr_match b locked_group = gr_recheck
gr_match b _ = gr_take b

-- The head of a lock loop, with a new call of `spin`.
abbrev pub again : MutexType → Backoff → Pc
again exclusive b = ex_spin b 10
again group b = gr_spin b 10

-- The end of a round that did not get the lock.
unfoldable pub retry : MutexType → Backoff → Pc
unfolding Backoff.is_completed Backoff.snooze
retry t b = if Backoff.is_completed b then su_guard t b else again t (Backoff.snooze b).1

abbrev pub after_wake : Bool → Then → Pc
after_wake res enter = gr_held
after_wake true (or_else t) = idle
after_wake false (or_else t) = wk_guard t finish
after_wake res finish = idle

abbrev pub put_state : Shared → State → Shared
put_state s x = record s { mutex = record s.mutex { state = x } }

abbrev pub put_lockers : Shared → ℕ → Shared
put_lockers s n = record s { mutex = record s.mutex { lockers = n } }

abbrev pub put_guard : Shared → State → Shared
put_guard s x = record s { mutex = record s.mutex { wake_deadlock = x } }

abbrev pub parking : MutexType → InnerMutex → List ℕ
parking exclusive m = m.parking_e
parking group m = m.parking_g

abbrev pub put_parking : MutexType → Shared → List ℕ → Shared
put_parking exclusive s l = record s { mutex = record s.mutex { parking_e = l } }
put_parking group s l = record s { mutex = record s.mutex { parking_g = l } }

-- `parking.pop()` and the `unpark` of what it returns.
abbrev pub unpark_first : MutexType → Shared → Option ℕ × Shared
unpark_first t s = elim (parking t s.mutex) [
  | [] ↦ (none, s)
  | j ∷ rest ↦ (some j, put_parking t (record s { unparked = j ∷ s.unparked }) rest)
]
