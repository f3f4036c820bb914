-- ===== src/Mutex/Race.antt =====
-- Runs of src/mutex/mutex.rs in which a thread joins a group that is being emptied.
use mathlib.Core.List.{foldl}
use acar.Prelude.{
  ℕ, zero, suc, ◌≡◌, refl, List, [], ◌∷◌, ◌++◌, Option, none, some, get_elem?, Option-cases, inl,
  inr,
}
use acar.Mutex.Threads.{Pc, step, idle, ex_held, gr_held}
use acar.Mutex.System.{
  System, access, call, Calls, lock_exclusive, lock_group, unlock_group, Reach, start, later, init,
}

-- A reachable state of `n` threads.
record Run (n : ℕ) : Type 0 where
  last : System
  reach : Reach n last

-- What a thread does in its turn: its next access, or the start of a call.
data Act : Type 0 where
  moves locks locks_group leaves : Act

start_call : Act → (p : Pc) → Option ((q : Pc) × Calls p q)
start_call locks idle = some (_, lock_exclusive)
start_call locks_group idle = some (_, lock_group)
start_call leaves gr_held = some (_, unlock_group)
start_call _ _ = none

turn : {n : ℕ} → Run n → Act × ℕ → Run n
unfolding start_call
turn r (act, i) = elim (Option-cases (get_elem? r.last.threads i)) [
  | inl e ↦ r
  | inr (p, e) ↦ elim act [
    | moves ↦ record { last = _; reach = later r.reach (access i e) }
    | other ↦ elim (start_call other p) [
      | none ↦ r
      | some (q, c) ↦ record { last = _; reach = later r.reach (call i e c) }
    ]
  ]
]

run : {n : ℕ} → List (Act × ℕ) → Run n
unfolding turn
run {n} = foldl turn (record { last = init n; reach = start })

abbrev accesses : ℕ → ℕ → List (Act × ℕ)
accesses zero i = []
accesses (suc k) i = (moves, i) ∷ accesses k i

-- Thread 0 takes the group lock alone, leaves, and counts itself out, but has not stored DIRTY.
abbrev emptying : List (Act × ℕ)
emptying = (locks_group, 0) ∷ accesses 6 0 ++ (leaves, 0) ∷ accesses 2 0

-- Thread 1 joins and leaves the group, and stores DIRTY. Thread 2 takes the exclusive lock, thread 0
-- stores DIRTY over LOCKED, and thread 3 takes the exclusive lock too.
abbrev late_store : List (Act × ℕ)
late_store =
    emptying
    ++ (locks_group, 1) ∷ accesses 16 1
    ++ (leaves, 1) ∷ accesses 3 1
    ++ (locks, 2) ∷ accesses 3 2
    ++ accesses 1 0
    ++ (locks, 3) ∷ accesses 3 3

-- Two threads hold the exclusive lock at once.
two_exclusive :
    (s : System) × Reach 4 s
    × (get_elem? s.threads 2 ≡ some ex_held)
    × (get_elem? s.threads 3 ≡ some ex_held)
unfolding run step Option-cases
two_exclusive = let r : Run 4 = run late_store in (r.last, r.reach, refl, refl)
