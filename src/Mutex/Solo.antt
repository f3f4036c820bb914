-- ===== src/Mutex/Solo.antt =====
-- Calls of src/mutex/mutex.rs that no other thread interferes with.
use acar.Prelude.{
  ℕ, zero, suc, ◌≡◌, refl, false, ◌&&◌, ◌||◌, not, List, [], ◌∷◌, ◌==◌, if◌then◌else◌, wrapping_dec,
  arith, Bool-cases, inl, inr, ap,
}
use acar.Backoff
use acar.Mutex.{
  State, unlocked, locked, locked_group, dirty, is_unlocked, is_dirty, InnerMutex, is_locked,
}
use acar.Mutex.Threads.{
  Shared, Pc, step, idle, ex_spin, ex_held, tr_load, ue_swap, ug_load, ug_store, unlock_all_group,
}

-- `n` accesses of thread `i` in a row.
unfoldable pub solo : ℕ → ℕ → Pc → Shared → Pc × Shared
solo zero i p s = (p, s)
solo (suc n) i p s = let (q, t) = step i p s in solo n i q t

abbrev pub holding : State → Shared → Shared
holding x s = record s { mutex = record s.mutex { state = x } }

-- `try_lock_exclusive` takes the lock exactly if the mutex is DIRTY and no thread is counted in the
-- group, or UNLOCKED and some thread is counted; otherwise it changes nothing.
pub try_lock_exclusive_lem :
    (i : ℕ) (s : Shared)
    → solo 2 i tr_load s ≡ (
        if s.mutex.lockers == 0 && is_dirty s.mutex.state
          || not (s.mutex.lockers == 0) && is_unlocked s.mutex.state
        then (ex_held, holding locked s)
        else (idle, s))
unfolding solo step
try_lock_exclusive_lem i s = ground arith

-- `lock_exclusive` on a mutex that is not locked takes it within three accesses, and changes only
-- the state.
pub lock_exclusive_free :
    (i : ℕ) (s : Shared)
    → is_locked s.mutex ≡ false
    → solo 3 i (ex_spin Backoff.new 10) s ≡ (ex_held, holding locked s)
unfolding solo step is_locked
lock_exclusive_free i s h = ground arith

-- The queue that a release of the exclusive lock leaves, and whom it wakes: the first parked member
-- of a group, or, if there is none, the first thread parked for the exclusive lock.
abbrev pub served : List ℕ → List ℕ → List ℕ → List ℕ × List ℕ × List ℕ
served (j ∷ first) second woken = (first, second, j ∷ woken)
served [] (j ∷ second) woken = ([], second, j ∷ woken)
served [] [] woken = ([], [], woken)

abbrev pub mutex_of : State → ℕ → List ℕ → List ℕ → ℕ → State → InnerMutex
mutex_of x refs e g n guard = record {
  state = x;
  ref_count = refs;
  parking_e = e;
  parking_g = g;
  lockers = n;
  wake_deadlock = guard;
}

-- A mutex on which no thread is in `suspend`, `wake` or `wake_all`.
abbrev pub shared_of : State → ℕ → List ℕ → List ℕ → ℕ → List ℕ → Shared
shared_of x r e g n u = record { mutex = mutex_of x r e g n unlocked; unparked = u }

unlock_exclusive_lem :
    (i r n : ℕ) (e g u : List ℕ)
    → solo 7 i ue_swap (shared_of locked r e g n u)
      ≡ (let (g', e', u') = served g e u in (idle, shared_of unlocked r e' g' n u'))
unfolding solo step
unlock_exclusive_lem i r n [] [] u = refl
unlock_exclusive_lem i r n (j ∷ e) [] u = refl
unlock_exclusive_lem i r n e (j ∷ g) u = refl

unlock_group_last :
    (i r : ℕ) (e g u : List ℕ)
    → solo 9 i ug_load (shared_of locked_group r e g 1 u)
      ≡ (let (e', g', u') = served e g u in (idle, shared_of dirty r e' g' 0 u'))
unfolding solo step
unlock_group_last i r [] [] u = refl
unlock_group_last i r [] (j ∷ g) u = refl
unlock_group_last i r (j ∷ e) g u = refl

pub unlock_group_other :
    (i r n : ℕ) (e g u : List ℕ)
    → (n == 1) ≡ false
    → solo 9 i ug_load (shared_of locked_group r e g n u)
      ≡ (idle, shared_of locked_group r e g (wrapping_dec n) u)
unfolding solo step
unlock_group_other i r n e g u h =
    ap
      (λ b.
        solo 7 i (if b then ug_store else idle) (shared_of locked_group r e g (wrapping_dec n) u))
      h

unlock_group_lem :
    (i r n : ℕ) (e g u : List ℕ)
    → solo 9 i ug_load (shared_of locked_group r e g n u) ≡ (
        let (e', g', u') = served e g u in
        if n == 1
        then (idle, shared_of dirty r e' g' 0 u')
        else (idle, shared_of locked_group r e g (wrapping_dec n) u))
unlock_group_lem i r n e g u = elim (Bool-cases (n == 1)) [
  | inl h ↦ let one : n ≡ 1 = ground arith in rw one (unlock_group_last i r e g u)
  | inr h ↦ rw h (unlock_group_other i r n e g u h)
]

-- What the three unlocking calls do on a mutex that is locked as they expect. `unlock_exclusive`
-- unlocks it and wakes one thread, group members first. `unlock_group` by the last member marks it
-- DIRTY and wakes one thread, one that waits for the exclusive lock first; by any other member it
-- only counts that member out. `unlock_all_group` does what the last member does whatever the number
-- of members; afterwards nobody is counted, not even the threads that still wait for the group.
pub unlock_lem :
    (i r n : ℕ) (e g u : List ℕ)
    → (solo 7 i ue_swap (shared_of locked r e g n u)
        ≡ (let (g', e', u') = served g e u in (idle, shared_of unlocked r e' g' n u')))
      × (solo 9 i ug_load (shared_of locked_group r e g n u) ≡ (
          let (e', g', u') = served e g u in
          if n == 1
          then (idle, shared_of dirty r e' g' 0 u')
          else (idle, shared_of locked_group r e g (wrapping_dec n) u)))
      × ((let (p, s) = unlock_all_group (shared_of locked_group r e g n u) in solo 9 i p s)
          ≡ (let (e', g', u') = served e g u in (idle, shared_of dirty r e' g' 0 u')))
unfolding unlock_all_group
unlock_lem i r n e g u =
    (unlock_exclusive_lem i r n e g u, unlock_group_lem i r n e g u, unlock_group_last i r e g u)
