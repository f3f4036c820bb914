-- ===== src/Examples/BucketThreads.antt =====
-- Two threads and a bucket of src/collections/atomic_hashmap.rs: one inserts two keys and removes the
-- first while the other reads it through a guard.
use acar.Prelude.{
  ℕ, ◌+◌, ◌<◌, ◌≤◌, ◌≡◌, ◌≢◌, ◌⊎◌, refl, true, none, some, is_some, get_elem?, set, arith,
}
use acar.AtomicHashMap.Threads.{
  Pc, idle, searches, gets_mut, Op, inserts, gets, removes, step, locks, reads, writes, awaits,
  frees, faulted,
}
use acar.AtomicHashMap.Chain.{lookup, unlink}
use acar.AtomicHashMap.Log.{count, latest, value_of}
use acar.AtomicHashMap.Linear.{found, latest_found, guard_stable}
use acar.AtomicHashMap.System.{System, Reach, init, locking, reading, owning}
use acar.AtomicHashMap.World.{bit}
use acar.AtomicHashMap.Locks.{is_free}
use acar.AtomicHashMap.Guarded.{guard_alive, guards_apart, none_leaks}
use acar.Examples.Maps.{number_key}

-- Thread `i` makes its next access, and makes a call.
abbrev go : ℕ → System ℕ ℕ → System ℕ ℕ
go i s = elim (get_elem? s.threads i) [
  | none ↦ s
  | some p ↦ record {
    shared = (step number_key 0 p s.shared).1;
    threads = set s.threads i (step number_key 0 p s.shared).0;
  }
]

abbrev calls : ℕ → Op ℕ ℕ → System ℕ ℕ → System ℕ ℕ
calls i o s = record { shared = s.shared; threads = set s.threads i (locks o) }

abbrev two_keys : System ℕ ℕ
two_keys =
    go 0
      (go 0 (calls 0 (inserts 6 60 2) (go 0 (go 0 (calls 0 (inserts 4 40 1) (init number_key 2))))))

-- The second thread has a guard of the first key, and the first waits to free its item.
abbrev waiting : System ℕ ℕ
waiting = go 0 (go 0 (calls 0 (removes 4) (go 1 (go 1 (calls 1 (gets 4) two_keys)))))

abbrev freeing : System ℕ ℕ
freeing = go 0 (go 1 (go 1 waiting))

two_keys-Reach : Reach number_key 2 two_keys
unfolding step lookup
two_keys-Reach =
    Reach.access 0 0
      (Reach.access 0 0
        (Reach.call 0 (inserts 6 60 2)
          (Reach.access 0 0
            (Reach.access 0 0 (Reach.call 0 (inserts 4 40 1) Reach.start refl) refl tt) refl refl)
          refl)
        refl tt)
      refl refl

waiting-Reach : Reach number_key 2 waiting
unfolding step lookup unlink
waiting-Reach =
    Reach.access 0 0
      (Reach.access 0 0
        (Reach.call 0 (removes 4)
          (Reach.access 1 0 (Reach.access 1 0 (Reach.call 1 (gets 4) two_keys-Reach refl) refl tt)
            refl refl)
          refl)
        refl tt)
      refl tt

freeing-Reach : Reach number_key 2 freeing
unfolding step lookup unlink
freeing-Reach =
    Reach.access 0 0 (Reach.access 1 0 (Reach.access 1 0 waiting-Reach refl tt) refl tt) refl tt

freed-Reach : Reach number_key 2 (go 0 freeing)
unfolding step lookup unlink
freed-Reach = Reach.access 0 0 freeing-Reach refl tt

guard_alive_example :
    (get_elem? waiting.threads 1 ≡ some (reads 1) → is_some (waiting.shared.heap 1) ≡ true)
    × (get_elem? waiting.threads 1 ≡ some (writes 1) → is_some (waiting.shared.heap 1) ≡ true)
    × (get_elem? waiting.threads 1 ≢ some faulted)
guard_alive_example = guard_alive number_key 1 1 waiting-Reach

guard_open :
    (get_elem? waiting.threads 1 ≡ some (reads 1)) × (get_elem? waiting.threads 0 ≡ some (awaits 1))
unfolding step lookup unlink
guard_open = (refl, refl)

abbrev frees_one : Pc ℕ ℕ
frees_one = frees 1

abbrev returned : Pc ℕ ℕ
returned = idle

guards_apart_example :
    (0 < owning frees_one → reading returned + owning returned ≡ 0)
    × (locking frees_one + locking returned ≤ 1)
unfolding step lookup unlink
guards_apart_example =
    guards_apart number_key 0 1 {p = frees_one} {q = returned} freeing-Reach (omega arith) refl refl

none_leaks_example :
    ((go 0 freeing).shared.available ≡ true)
    × (is_free (go 0 freeing).shared.held ≡ true)
    × ((a : ℕ)
        → count number_key a (go 0 freeing).shared.head
          ≡ bit (is_some ((go 0 freeing).shared.heap a)))
unfolding step lookup unlink
none_leaks_example = none_leaks number_key 2 freed-Reach refl

latest_found_example :
    (value_of number_key 6 waiting.shared.head waiting.shared.heap
      ≡ latest number_key 6 waiting.shared.log)
    × (((step number_key 0 (searches (gets 6)) waiting.shared).0 ≡ searches (gets 6))
        ⊎ (found waiting.shared.heap (step number_key 0 (searches (gets 6)) waiting.shared).0
            ≡ latest number_key 6 waiting.shared.log))
    × (((step number_key 0 (searches (gets_mut 6)) waiting.shared).0 ≡ searches (gets_mut 6))
        ⊎ (found waiting.shared.heap (step number_key 0 (searches (gets_mut 6)) waiting.shared).0
            ≡ latest number_key 6 waiting.shared.log))
    × (found waiting.shared.heap (step number_key 0 (searches (removes 6)) waiting.shared).0
        ≡ latest number_key 6 waiting.shared.log)
latest_found_example = latest_found number_key 0 6 waiting-Reach

latest_values :
    (latest number_key 6 waiting.shared.log ≡ some 60)
    × (latest number_key 4 waiting.shared.log ≡ none)
unfolding step lookup unlink latest
latest_values = (refl, refl)

guard_stable_example :
    (step number_key 0 (awaits 1) waiting.shared).1.heap 1 ≡ waiting.shared.heap 1
unfolding step lookup unlink
guard_stable_example =
    guard_stable number_key 0 1 {p = awaits 1} {q = reads 1} 0 1 waiting-Reach (omega arith) refl
      refl tt refl refl
