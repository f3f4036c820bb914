-- ===== src/Mutex/Threads/Calls.antt =====
-- The bodies of the calls of src/mutex/mutex.rs, an access at a time.
use acar.Prelude.{
  ℕ, Bool, ◌||◌, [], ◌∷◌, ◌++◌, ◌==◌, if◌then◌else◌, is_some, wrapping_inc, wrapping_dec,
}
use acar.Backoff
use acar.Backoff.{Backoff}
use acar.Mutex.{
  MutexType, exclusive, group, unlocked, locked, locked_group, dirty, is_unlocked, is_exclusive,
  is_group, is_dirty,
}
use acar.Mutex.Threads.Points.{
  Shared, Then, Pc, enter, or_else, idle, ex_claim, ex_held, gr_spin, gr_held, tr_claim, tr_take,
  ug_sub, ug_store, su_push, su_open, su_park, wk_guard, wk_pop, wk_open, wa_guard, wa_pop,
  wa_early, wa_drain, wa_open, panicked, again, retry, after_wake, put_state, put_lockers,
  put_guard, parking, put_parking, unpark_first,
}

-- lock_exclusive
abbrev pub check_members : Backoff → Shared → Pc × Shared
check_members b s = (if s.mutex.lockers == 0 then ex_claim b else retry exclusive b, s)

abbrev pub claim_exclusive : Backoff → Shared → Pc × Shared
claim_exclusive b s =
    if is_dirty s.mutex.state then (ex_held, put_state s locked) else (retry exclusive b, s)

abbrev pub take_exclusive : Backoff → Shared → Pc × Shared
take_exclusive b s =
    if is_unlocked s.mutex.state then (ex_held, put_state s locked) else (retry exclusive b, s)

-- lock_group
abbrev pub join_group : Shared → Pc × Shared
join_group s = (gr_spin Backoff.new 10, put_lockers s (wrapping_inc s.mutex.lockers))

abbrev pub claim_group : Backoff → Shared → Pc × Shared
claim_group b s =
    if is_dirty s.mutex.state then (wa_guard, put_state s locked_group) else (retry group b, s)

abbrev pub recheck_group : Shared → Pc × Shared
recheck_group s = (if is_group s.mutex.state then wk_guard group enter else gr_held, s)

abbrev pub take_group : Backoff → Shared → Pc × Shared
take_group b s =
    if is_unlocked s.mutex.state then (wa_guard, put_state s locked_group) else (retry group b, s)

-- try_lock_exclusive
abbrev pub try_load : Shared → Pc × Shared
try_load s = (if s.mutex.lockers == 0 then tr_claim else tr_take, s)

abbrev pub try_claim : Shared → Pc × Shared
try_claim s = if is_dirty s.mutex.state then (ex_held, put_state s locked) else (idle, s)

abbrev pub try_take : Shared → Pc × Shared
try_take s = if is_unlocked s.mutex.state then (ex_held, put_state s locked) else (idle, s)

abbrev pub unlock_exclusive : Shared → Pc × Shared
unlock_exclusive s =
    if is_exclusive s.mutex.state
    then (wk_guard group (or_else exclusive), put_state s unlocked)
    else (panicked, s)

-- unlock_group
abbrev pub check_group : Shared → Pc × Shared
check_group s = (if is_group s.mutex.state || is_dirty s.mutex.state then ug_sub else panicked, s)

abbrev pub leave_group : Shared → Pc × Shared
leave_group s =
    (if s.mutex.lockers == 1 then ug_store else idle, put_lockers s (wrapping_dec s.mutex.lockers))

abbrev pub empty_group : Shared → Pc × Shared
empty_group s = (wk_guard exclusive (or_else group), put_state s dirty)

-- suspend
abbrev pub suspend_guard : MutexType → Backoff → Shared → Pc × Shared
suspend_guard t b s =
    if is_unlocked s.mutex.wake_deadlock then (su_push t b, put_guard s locked) else (again t b, s)

abbrev pub suspend_push : ℕ → MutexType → Backoff → Shared → Pc × Shared
suspend_push i t b s = (su_open t b, put_parking t s (parking t s.mutex ++ i ∷ []))

abbrev pub suspend_open : MutexType → Backoff → Shared → Pc × Shared
suspend_open t b s = (su_park t b, put_guard s unlocked)

-- wake
abbrev pub wake_guard : MutexType → Then → Shared → Pc × Shared
wake_guard t k s =
    if is_unlocked s.mutex.wake_deadlock
    then (wk_pop t k, put_guard s locked)
    else (wk_guard t k, s)

abbrev pub wake_pop : MutexType → Then → Shared → Pc × Shared
wake_pop t k s = let (o, s') = unpark_first t s in (wk_open (is_some o) k, s')

abbrev pub wake_open : Bool → Then → Shared → Pc × Shared
wake_open res k s = (after_wake res k, put_guard s unlocked)

-- wake_all
abbrev pub wake_all_guard : Shared → Pc × Shared
wake_all_guard s =
    if is_unlocked s.mutex.wake_deadlock then (wa_pop, put_guard s locked) else (wa_guard, s)

abbrev pub wake_all_pop : Shared → Pc × Shared
wake_all_pop s = let (o, s') = unpark_first group s in (if is_some o then wa_early else wa_open, s')

abbrev pub wake_all_drain : Shared → Pc × Shared
wake_all_drain s =
    let (o, s') = unpark_first group s in (if is_some o then wa_drain else wa_open, s')
