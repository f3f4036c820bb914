-- ===== src/Examples/MutexRuns.antt =====
-- Runs of src/mutex/mutex.rs at concrete inputs.
use acar.Prelude.{◌≡◌, ◌≢◌, ◌≤◌, if◌then◌else◌, refl, some, [], ◌∷◌, get_elem?, arith, usize_max}
use acar.Backoff
use acar.Mutex.{
  unlocked, locked, locked_group, dirty, exclusive, group, is_locked_group, is_locked_exclusive,
  clone, drop, new,
}
use acar.Mutex.Threads.{
  step, idle, ex_spin, ex_held, gr_join, tr_load, ue_swap, ug_load, su_park, panicked,
  unlock_all_group,
}
use acar.Mutex.System.{
  System, lock_exclusive, CalmReach, calm_start, calm_access, calm_call, excl, grp,
}
use acar.Mutex.Exclusion.{exclusive_alone, never_panicked, holders_seen}
use acar.Mutex.Solo.{solo, shared_of, try_lock_exclusive_lem, unlock_lem}
use acar.Mutex.Parking.{tired, lock_parks, handover, unlock_group_underflow}
use acar.Mutex.Handles.{Handles, created, cloned, dropped, count_of, freed_with_last}

-- Thread 0 has taken the exclusive lock, and thread 1 has begun to ask for it.
abbrev taken : System
taken = record {
  shared = shared_of locked 1 [] [] 0 [];
  threads = ex_held ∷ ex_spin Backoff.new 10 ∷ [];
}

taken-CalmReach : CalmReach 2 taken
unfolding step Backoff.new
taken-CalmReach =
    calm_access 0
      (calm_access 0 (calm_call 0 (calm_call 1 calm_start refl lock_exclusive) refl lock_exclusive)
        refl refl)
      refl refl

exclusive_alone_example : (excl (ex_spin Backoff.new 10) ≡ 0) × (grp (ex_spin Backoff.new 10) ≡ 0)
exclusive_alone_example =
    exclusive_alone 0 1 (omega arith) taken-CalmReach (omega arith) refl refl refl

never_panicked_example : get_elem? taken.threads 1 ≢ some panicked
never_panicked_example = never_panicked 1 (omega arith) taken-CalmReach

holders_seen_example :
    (excl ex_held ≤ (if is_locked_exclusive taken.shared.mutex then 1 else 0))
    × (grp ex_held ≤ (if is_locked_group taken.shared.mutex then 1 else 0))
holders_seen_example = holders_seen 0 (omega arith) taken-CalmReach refl

try_lock_exclusive_lem_example :
    solo 2 5 tr_load (shared_of dirty 1 [] [] 0 []) ≡ (ex_held, shared_of locked 1 [] [] 0 [])
try_lock_exclusive_lem_example = try_lock_exclusive_lem 5 (shared_of dirty 1 [] [] 0 [])

unlock_lem_example :
    (solo 7 5 ue_swap (shared_of locked 1 (8 ∷ []) (9 ∷ []) 1 [])
      ≡ (idle, shared_of unlocked 1 (8 ∷ []) [] 1 (9 ∷ [])))
    × (solo 9 5 ug_load (shared_of locked_group 1 (8 ∷ []) (9 ∷ []) 1 [])
        ≡ (idle, shared_of dirty 1 [] (9 ∷ []) 0 (8 ∷ [])))
    × ((let (p, s) = unlock_all_group (shared_of locked_group 1 (8 ∷ []) (9 ∷ []) 1 []) in
          solo 9 5 p s)
        ≡ (idle, shared_of dirty 1 [] (9 ∷ []) 0 (8 ∷ [])))
unlock_lem_example = unlock_lem 5 1 1 (8 ∷ []) (9 ∷ []) []

lock_parks_example :
    (solo 147 5 (ex_spin Backoff.new 10) (shared_of locked 1 (8 ∷ []) [] 0 [])
      ≡ (su_park exclusive tired, shared_of locked 1 (8 ∷ 5 ∷ []) [] 0 []))
    × (solo 148 5 gr_join (shared_of locked 1 (8 ∷ []) [] 0 [])
        ≡ (su_park group tired, shared_of locked 1 (8 ∷ []) (5 ∷ []) 1 []))
lock_parks_example = lock_parks 5 1 0 (8 ∷ []) [] []

handover_example :
    let (p, s) = solo 7 5 ue_swap (shared_of locked 1 (8 ∷ 9 ∷ []) [] 0 []) in
    (p ≡ idle)
    × (solo 3 8 (su_park exclusive tired) s ≡ (ex_held, shared_of locked 1 (9 ∷ []) [] 0 (8 ∷ [])))
handover_example = handover 5 8 1 0 tired (9 ∷ []) []

unlock_group_underflow_example :
    (solo 2 5 ug_load (shared_of dirty 1 [] [] 0 []) ≡ (idle, shared_of dirty 1 [] [] usize_max []))
    × (solo 27 6 (ex_spin Backoff.new 10) (shared_of dirty 1 [] [] usize_max [])
        ≡ (su_park exclusive tired, shared_of dirty 1 (6 ∷ []) [] usize_max []))
unlock_group_underflow_example = unlock_group_underflow 5 6 1 [] [] []

one_left : Handles 1 (drop (clone new))
one_left = dropped (cloned created (omega arith))

freed_with_last_example : count_of (drop (clone new)) ≡ some 1
freed_with_last_example = freed_with_last one_left
