-- ===== src/Mutex/System.antt =====
-- Threads over one mutex of src/mutex/mutex.rs, interleaved in any order. A thread calls what the
-- interface lets it call: it unlocks only a lock that it holds.
use acar.Prelude.{ℕ, ◌≡◌, Bool, true, ◌==◌, some, List, [], get_elem?, set, replicate, total}
use acar.Mutex.{new}
use acar.Mutex.Threads.{
  Shared, Pc, step, idle, ex_spin, ex_held, gr_join, gr_spin, gr_claim, gr_recheck, gr_take,
  gr_held, tr_load, ue_swap, ug_load, ug_sub, ug_store, su_guard, su_push, su_open, su_park,
  unlock_all_group, wk_guard, wk_pop, wk_open, wa_guard, wa_pop, wa_early, wa_drain, wa_open, enter,
  panicked,
}
use acar.Mutex.{group}
use acar.Backoff

pub record System : Type 0 where
  pub shared : Shared
  pub threads : List Pc

-- The calls that a thread may start, outside any other.
pub data Calls : Pc → Pc → Type 0 where
  lock_exclusive : Calls idle (ex_spin Backoff.new 10)
  lock_group : Calls idle gr_join
  try_lock_exclusive : Calls idle tr_load
  unlock_exclusive : Calls ex_held ue_swap
  unlock_group : Calls gr_held ug_load

-- `unlock_all_group` may be called by a thread that holds nothing as well.
pub data CallsAll : Pc → Type 0 where
  from_outside : CallsAll idle
  from_group : CallsAll gr_held
  from_exclusive : CallsAll ex_held

-- Thread `i` makes its next access, or starts a call; `unlock_all_group` stores 1 in the counter first.
pub data Step (s : System) : System → Type 0 where
  access :
      (i : ℕ) {p : Pc}
      → get_elem? s.threads i ≡ some p
      → Step s (record {
        shared = (step i p s.shared).1;
        threads = set s.threads i (step i p s.shared).0;
      })
  call :
      (i : ℕ) {p q : Pc}
      → get_elem? s.threads i ≡ some p
      → Calls p q
      → Step s (record { shared = s.shared; threads = set s.threads i q })
  call_all :
      (i : ℕ) {p : Pc}
      → get_elem? s.threads i ≡ some p
      → CallsAll p
      → Step s (record {
        shared = (unlock_all_group s.shared).1;
        threads = set s.threads i (unlock_all_group s.shared).0;
      })

abbrev pub init : ℕ → System
init n = record { shared = record { mutex = new; unparked = [] }; threads = replicate n idle }

-- Every state that `n` threads can reach.
pub data Reach (n : ℕ) : System → Type 0 where
  start : Reach n (init n)
  later : {s t : System} → Reach n s → Step s t → Reach n t

-- 1 for a thread that holds the exclusive lock, up to the exchange that gives it back.
abbrev pub excl : Pc → ℕ
excl ex_held = 1
excl ue_swap = 1
excl _ = 0

-- 1 for a thread that has been let into the group, up to the fetch_sub that counts it out.
abbrev pub grp : Pc → ℕ
grp gr_recheck = 1
grp gr_held = 1
grp ug_load = 1
grp ug_sub = 1
grp (wk_guard t enter) = 1
grp (wk_pop t enter) = 1
grp (wk_open res enter) = 1
grp wa_guard = 1
grp wa_pop = 1
grp wa_early = 1
grp wa_drain = 1
grp wa_open = 1
grp _ = 0

-- 1 for a thread that waits in `lock_group`, counted in but not let in.
abbrev pub waits : Pc → ℕ
waits (gr_spin b k) = 1
waits (gr_claim b) = 1
waits (gr_take b) = 1
waits (su_guard group b) = 1
waits (su_push group b) = 1
waits (su_open group b) = 1
waits (su_park group b) = 1
waits _ = 0

-- 1 for a thread that has counted the last member out and has not stored DIRTY yet.
abbrev pub closing : Pc → ℕ
closing ug_store = 1
closing _ = 0

abbrev pub broken : Pc → ℕ
broken panicked = 1
broken _ = 0

-- The step is not the entry of `lock_group` while some thread is about to store DIRTY.
abbrev pub calm : Pc → List Pc → Bool
calm gr_join threads = total closing threads == 0
calm _ threads = true

-- The reachable states of runs in which nobody joins a group between the fetch_sub that empties
-- it and the store of DIRTY, and nobody calls `unlock_all_group`.
pub data CalmReach (n : ℕ) : System → Type 0 where
  calm_start : CalmReach n (init n)
  calm_access :
      {s : System} (i : ℕ) {p : Pc}
      → CalmReach n s
      → get_elem? s.threads i ≡ some p
      → calm p s.threads ≡ true
      → CalmReach n (record {
        shared = (step i p s.shared).1;
        threads = set s.threads i (step i p s.shared).0;
      })
  calm_call :
      {s : System} (i : ℕ) {p q : Pc}
      → CalmReach n s
      → get_elem? s.threads i ≡ some p
      → Calls p q
      → CalmReach n (record { shared = s.shared; threads = set s.threads i q })
