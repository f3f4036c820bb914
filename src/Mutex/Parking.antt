-- ===== src/Mutex/Parking.antt =====
-- Parking and waking in src/mutex/mutex.rs: a call that waits long enough suspends itself, and
-- `wake_all` empties the queue of the group.
use acar.Prelude.{
  ℕ, suc, ◌+◌, ◌≡◌, refl, false, List, [], ◌∷◌, ◌++◌, arith, wrapping_inc, usize_max, length,
}
use mathlib.Core.List.{reverse_aux}
use acar.Backoff
use acar.Backoff.{Backoff}
use acar.Mutex.{is_locked, State, unlocked, locked, locked_group, dirty, exclusive, group}
use acar.Mutex.Threads.{
  step, idle, ex_spin, ex_held, gr_join, gr_held, su_park, wa_drain, ue_swap, ug_load,
}
use acar.Mutex.Solo.{solo, mutex_of, shared_of}

abbrev pub tired : Backoff
tired = record { step = 11 }

-- A call that finds the mutex exclusively locked: twelve rounds of eleven loads and an exchange, after
-- which the thread stands at the end of the queue of its kind, parked, with the guard of the queues
-- free again. `lock_group` has counted the thread in at once, `lock_exclusive` has changed nothing else.
pub lock_parks :
    (i r n : ℕ) (e g u : List ℕ)
    → (solo 147 i (ex_spin Backoff.new 10) (shared_of locked r e g n u)
        ≡ (su_park exclusive tired, shared_of locked r (e ++ i ∷ []) g n u))
      × (solo 148 i gr_join (shared_of locked r e g n u)
          ≡ (su_park group tired, shared_of locked r e (g ++ i ∷ []) (wrapping_inc n) u))
unfolding solo step Backoff.new
lock_parks i r n e g u = (refl, refl)

-- Two more rounds than the list has elements.
rounds : List ℕ → ℕ
rounds [] = 2
rounds (j ∷ g) = suc (rounds g)

rounds-length : (g : List ℕ) → rounds g ≡ length g + 2
unfolding rounds
rounds-length [] = omega arith
rounds-length (j ∷ g) = omega (arith, rounds-length g)

-- The loop of `wake_all` unparks every thread of the queue, first in first woken.
wake_all_drains :
    (i r n : ℕ) (x : State) (e g u : List ℕ)
    → solo (rounds g) i wa_drain (shared_of x r e g n u)
      ≡ (gr_held, shared_of x r e [] n (reverse_aux g u))
unfolding solo step rounds
wake_all_drains i r n x e [] u = refl
wake_all_drains i r n x e (j ∷ g) u = wake_all_drains i r n x e g (j ∷ u)

group_free :
    (i r n : ℕ) (x : State) (e g u : List ℕ)
    → is_locked (mutex_of x r e g n unlocked) ≡ false
    → solo (suc (suc (suc (suc (suc (rounds g)))))) i gr_join (shared_of x r e g n u)
      ≡ (gr_held, shared_of locked_group r e [] (wrapping_inc n) (reverse_aux g u))
unfolding solo step rounds is_locked
group_free i r n unlocked e [] u h = refl
group_free i r n unlocked e (j ∷ g) u h =
    wake_all_drains i r (wrapping_inc n) locked_group e g (j ∷ u)
group_free i r n dirty e [] u h = refl
group_free i r n dirty e (j ∷ g) u h = wake_all_drains i r (wrapping_inc n) locked_group e g (j ∷ u)
group_free i r n locked e g u h = cc
group_free i r n locked_group e g u h = cc

-- `lock_group` on a mutex that is not locked opens the group: the thread is counted and holds the
-- lock, and every thread parked for the group is unparked, in the order of the queue.
pub lock_group_free :
    (i r n : ℕ) (x : State) (e g u : List ℕ)
    → is_locked (mutex_of x r e g n unlocked) ≡ false
    → solo (length g + 7) i gr_join (shared_of x r e g n u)
      ≡ (gr_held, shared_of locked_group r e [] (wrapping_inc n) (reverse_aux g u))
lock_group_free i r n x e g u h =
    let fuel : length g + 7 ≡ suc (suc (suc (suc (suc (rounds g))))) =
      omega (arith, rounds-length g) in
    rw fuel (group_free i r n x e g u h)

-- An `unlock_exclusive` with no member of a group parked before it unparks the thread that came first
-- to park for the exclusive lock; and that thread, returned from `park`, holds the lock after three
-- more accesses, if no other thread makes an access to the mutex from the unlocking on.
pub handover :
    (i j r n : ℕ) (b : Backoff) (e u : List ℕ)
    → let (p, s) = solo 7 i ue_swap (shared_of locked r (j ∷ e) [] n u) in
      (p ≡ idle) × (solo 3 j (su_park exclusive b) s ≡ (ex_held, shared_of locked r e [] n (j ∷ u)))
unfolding solo step
handover i j r n b e u = (refl, refl)

-- An `unlock_group` too many, after the last member has left, is not refused: it returns and leaves the
-- counter at `usize::MAX`. A `lock_exclusive` that is called then, while no other thread makes an
-- access to the mutex, finds no free lock and parks, although nobody holds the lock.
pub unlock_group_underflow :
    (i j r : ℕ) (e g u : List ℕ)
    → (solo 2 i ug_load (shared_of dirty r e g 0 u) ≡ (idle, shared_of dirty r e g usize_max u))
      × (solo 27 j (ex_spin Backoff.new 10) (shared_of dirty r e g usize_max u)
          ≡ (su_park exclusive tired, shared_of dirty r (e ++ j ∷ []) g usize_max u))
unfolding solo step Backoff.new
unlock_group_underflow i j r e g u = (refl, refl)
