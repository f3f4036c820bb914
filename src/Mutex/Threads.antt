-- ===== src/Mutex/Threads.antt =====
-- src/mutex/mutex.rs as threads see it: what the next access of a thread to the shared memory does. One step is one atomic operation, in a total order of all of them.
pub mod Points
pub mod Calls
use acar.Prelude.{
  ℕ, ◌-◌, Bool, true, false, ◌||◌, Option, none, some, List, [], ◌∷◌, ◌++◌, ◌==◌, if◌then◌else◌,
  is_some, wrapping_inc, wrapping_dec,
}
use acar.Backoff
use acar.Backoff.{Backoff}
use acar.Mutex.{
  MutexType, exclusive, group, State, unlocked, locked, locked_group, dirty, is_unlocked,
  is_exclusive, is_group, is_dirty, InnerMutex,
}
pub use Points.{
  Shared, Then, Pc, enter, or_else, finish, idle, ex_spin, ex_check, ex_claim, ex_take, ex_held,
  gr_join, gr_spin, gr_claim, gr_recheck, gr_take, gr_held, tr_load, tr_claim, tr_take, ue_swap,
  ug_load, ug_sub, ug_store, su_guard, su_push, su_open, su_park, wk_guard, wk_pop, wk_open,
  wa_guard, wa_pop, wa_early, wa_drain, wa_open, panicked, stops, ex_match, gr_match, again,
  after_wake, put_state, put_lockers, put_guard, parking, put_parking, unpark_first,
}
unfoldable pub use Points.{retry}
use Calls.{
  check_members, claim_exclusive, take_exclusive, join_group, claim_group, recheck_group,
  take_group, try_load, try_claim, try_take, unlock_exclusive, check_group, leave_group,
  empty_group, suspend_guard, suspend_push, suspend_open, wake_guard, wake_pop, wake_open,
  wake_all_guard, wake_all_pop, wake_all_drain,
}

-- The next access of thread `i`, which stands at the given point of a call. `idle`, `ex_held` and
-- `gr_held` are outside every call, and a panicked thread makes no access.
unfoldable pub step : ℕ → Pc → Shared → Pc × Shared
unfolding retry
step i (ex_spin b k) s =
    (if stops s.mutex.state k then ex_match b s.mutex.state else ex_spin b (k - 1), s)
step i (ex_check b) s = check_members b s
step i (ex_claim b) s = claim_exclusive b s
step i (ex_take b) s = take_exclusive b s
step i gr_join s = join_group s
step i (gr_spin b k) s =
    (if stops s.mutex.state k then gr_match b s.mutex.state else gr_spin b (k - 1), s)
step i (gr_claim b) s = claim_group b s
step i gr_recheck s = recheck_group s
step i (gr_take b) s = take_group b s
step i tr_load s = try_load s
step i tr_claim s = try_claim s
step i tr_take s = try_take s
step i ue_swap s = unlock_exclusive s
step i ug_load s = check_group s
step i ug_sub s = leave_group s
step i ug_store s = empty_group s
step i (su_guard t b) s = suspend_guard t b s
step i (su_push t b) s = suspend_push i t b s
step i (su_open t b) s = suspend_open t b s
step i (su_park t b) s = (again t b, s)
step i (wk_guard t k) s = wake_guard t k s
step i (wk_pop t k) s = wake_pop t k s
step i (wk_open res k) s = wake_open res k s
step i wa_guard s = wake_all_guard s
step i wa_pop s = wake_all_pop s
step i wa_early s = (wa_drain, put_guard s unlocked)
step i wa_drain s = wake_all_drain s
step i wa_open s = (gr_held, put_guard s unlocked)
step i p s = (p, s)

-- `unlock_all_group`, up to its call of `unlock_group`.
unfoldable pub unlock_all_group : Shared → Pc × Shared
unlock_all_group s = (ug_load, put_lockers s 1)
