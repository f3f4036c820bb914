-- ===== src/Examples/MapThreads.antt =====
-- Two threads and a map of two buckets of src/collections/atomic_hashmap.rs: one inserts two keys and
-- iterates, the other holds a guard of `get_mut` meanwhile and drops it.
use acar.Prelude.{
  ℕ, ◌<◌, if◌then◌else◌, ◌%◌, ◌^◌, usize_max, wrapping_inc, wrapping_dec, ◌+◌, ◌≡◌, ◌≢◌, refl, some,
  List, [], ◌∷◌, get_elem?, set, replicate, total, arith,
}
use acar.AtomicHashMap.Locks.{unlocked}
use acar.AtomicHashMap.Chain.{Distinct, lookup, unlink}
use acar.AtomicHashMap.Threads.{
  Op, inserts, removes, gets_mut, Pc, locks, searches, writes, step, key_at,
}
use acar.AtomicHashMap.System.{init}
use acar.AtomicHashMap.Visits.{
  Stage, outside, joins, inside, adds, adds_item, takes_item, leaves, empties, opens, visits,
  advances, ended, broken, turn, busy, put_at, shareds, accessed, Whole, Runs, item_at, Begins,
}
use acar.AtomicHashMap.Visits.Chains.{given, logged_to}
use acar.AtomicHashMap.Visits.Places.{calling, iterating}
use acar.AtomicHashMap.Visits.Snapshot.{iter_snapshot, iter_alone}
use acar.AtomicHashMap.Visits.Tallies.{items_to, uncounted}
use acar.AtomicHashMap.Visits.Lengths.{len_lem}
use acar.Examples.Maps.{number_key}

-- Thread `i` makes an access in bucket `k`, or takes a turn, from where it stands.
abbrev accesses : ℕ → ℕ → ℕ → Pc ℕ ℕ → Whole ℕ ℕ → Whole ℕ ℕ
accesses i k v p w = record {
  buckets = put_at w.buckets k (accessed number_key v i p (w.buckets k));
  lock = w.lock;
  len = if takes_item number_key p (w.buckets k).shared then wrapping_dec w.len else w.len;
  stages = if adds_item number_key p (w.buckets k).shared then set w.stages i adds else w.stages;
}

abbrev goes : ℕ → Stage ℕ ℕ → Whole ℕ ℕ → Whole ℕ ℕ
goes i x w = record {
  buckets = w.buckets;
  lock = (turn 2 (shareds w) x w.lock).1;
  len = w.len;
  stages = set w.stages i (turn 2 (shareds w) x w.lock).0;
}

abbrev to_stage : ℕ → Stage ℕ ℕ → Whole ℕ ℕ → Whole ℕ ℕ
to_stage i x w = record {
  buckets = w.buckets;
  lock = w.lock;
  len = w.len;
  stages = set w.stages i x;
}

abbrev entered : ℕ → ℕ → Op ℕ ℕ → Whole ℕ ℕ → Whole ℕ ℕ
entered i k o w = record {
  buckets =
      put_at w.buckets k
        (record { shared = (w.buckets k).shared; threads = set (w.buckets k).threads i (locks o) });
  lock = w.lock;
  len = w.len;
  stages = set w.stages i (inside k);
}

abbrev added : ℕ → Whole ℕ ℕ → Whole ℕ ℕ
added i w = record {
  buckets = w.buckets;
  lock = w.lock;
  len = wrapping_inc w.len;
  stages = set w.stages i leaves;
}

abbrev empty_map : Whole ℕ ℕ
empty_map = record {
  buckets = λ k. init number_key 2;
  lock = unlocked;
  len = 0;
  stages = replicate 2 outside;
}

abbrev one_uncounted : Whole ℕ ℕ
one_uncounted =
    (accesses 0 0 0 (searches (inserts 4 40 1)) (
      accesses 0 0 0 (locks (inserts 4 40 1)) (
        entered 0 0 (inserts 4 40 1)
          (goes 0 (joins 0 (inserts 4 40 1)) (to_stage 0 (joins 0 (inserts 4 40 1)) empty_map)))))

one_uncounted-Runs : Runs number_key 2 2 one_uncounted
unfolding step lookup turn unlink
one_uncounted-Runs =
    (Runs.access 0 0 0
      (Runs.access 0 0 0
        (Runs.enters 0 0 (inserts 4 40 1)
          (Runs.turns 0 (Runs.begins 0 Runs.start refl (Begins.call 0 (inserts 4 40 1))) refl refl)
          refl refl)
        (omega arith) refl tt)
      (omega arith) refl refl)

abbrev one_item : Whole ℕ ℕ
one_item = goes 0 empties (goes 0 leaves (added 0 one_uncounted))

one_item-Runs : Runs number_key 2 2 one_item
unfolding step lookup turn
one_item-Runs = Runs.turns 0 (Runs.turns 0 (Runs.adding 0 one_uncounted-Runs refl) refl tt) refl tt

abbrev two_uncounted : Whole ℕ ℕ
two_uncounted =
    (accesses 0 1 0 (searches (inserts 5 50 1)) (
      accesses 0 1 0 (locks (inserts 5 50 1)) (
        entered 0 1 (inserts 5 50 1)
          (goes 0 (joins 1 (inserts 5 50 1)) (to_stage 0 (joins 1 (inserts 5 50 1)) one_item)))))

two_uncounted-Runs : Runs number_key 2 2 two_uncounted
unfolding step lookup turn unlink
two_uncounted-Runs =
    (Runs.access 0 1 0
      (Runs.access 0 1 0
        (Runs.enters 0 1 (inserts 5 50 1)
          (Runs.turns 0 (Runs.begins 0 one_item-Runs refl (Begins.call 1 (inserts 5 50 1))) refl
            refl)
          refl refl)
        (omega arith) refl tt)
      (omega arith) refl refl)

abbrev two_items : Whole ℕ ℕ
two_items = goes 0 empties (goes 0 leaves (added 0 two_uncounted))

two_items-Runs : Runs number_key 2 2 two_items
unfolding step lookup turn
two_items-Runs = Runs.turns 0 (Runs.turns 0 (Runs.adding 0 two_uncounted-Runs refl) refl tt) refl tt

abbrev guard_made : Whole ℕ ℕ
guard_made =
    (accesses 1 0 0 (searches (gets_mut 4)) (
      accesses 1 0 0 (locks (gets_mut 4)) (
        entered 1 0 (gets_mut 4)
          (goes 1 (joins 0 (gets_mut 4)) (to_stage 1 (joins 0 (gets_mut 4)) two_items)))))

guard_made-Runs : Runs number_key 2 2 guard_made
unfolding step lookup turn unlink
guard_made-Runs =
    (Runs.access 1 0 0
      (Runs.access 1 0 0
        (Runs.enters 1 0 (gets_mut 4)
          (Runs.turns 1 (Runs.begins 1 two_items-Runs refl (Begins.call 0 (gets_mut 4))) refl refl)
          refl refl)
        (omega arith) refl tt)
      (omega arith) refl tt)

abbrev one_guard : Whole ℕ ℕ
one_guard = goes 1 empties (goes 1 leaves (to_stage 1 leaves guard_made))

one_guard-Runs : Runs number_key 2 2 one_guard
unfolding step lookup turn
one_guard-Runs =
    Runs.turns 1
      (Runs.turns 1 (Runs.returns 1 0 {p = writes 1} guard_made-Runs refl refl refl) refl tt) refl
      tt

-- The first thread's iterator waits at the first item, until the second has written 41 and dropped its
-- guard.
abbrev at_item : Whole ℕ ℕ
at_item = goes 0 (advances 0 []) (goes 0 opens (to_stage 0 opens one_guard))

at_item-Runs : Runs number_key 2 2 at_item
unfolding step lookup turn
at_item-Runs =
    Runs.turns 0 (Runs.turns 0 (Runs.begins 0 one_guard-Runs refl Begins.iter) refl tt) refl tt

abbrev unlocked_item : Whole ℕ ℕ
unlocked_item = accesses 1 0 41 (writes 1) (goes 0 (visits 0 1 []) at_item)

unlocked_item-Runs : Runs number_key 2 2 unlocked_item
unfolding step lookup turn
unlocked_item-Runs = Runs.access 1 0 41 (Runs.turns 0 at_item-Runs refl tt) (omega arith) refl tt

abbrev item_returned : Whole ℕ ℕ
item_returned = goes 0 (visits 0 1 []) unlocked_item

item_returned-Runs : Runs number_key 2 2 item_returned
unfolding step lookup turn item_at key_at
item_returned-Runs = Runs.turns 0 unlocked_item-Runs refl tt

abbrev next_bucket : Whole ℕ ℕ
next_bucket = goes 0 (advances 1 ((4, 41) ∷ [])) item_returned

next_bucket-Runs : Runs number_key 2 2 next_bucket
unfolding step lookup turn item_at key_at
next_bucket-Runs = Runs.turns 0 item_returned-Runs refl tt

abbrev second_returned : Whole ℕ ℕ
second_returned = goes 0 (visits 1 1 ((4, 41) ∷ [])) next_bucket

second_returned-Runs : Runs number_key 2 2 second_returned
unfolding step lookup turn item_at key_at
second_returned-Runs = Runs.turns 0 next_bucket-Runs refl tt

abbrev at_end : Whole ℕ ℕ
at_end = goes 0 (advances 2 ((4, 41) ∷ (5, 50) ∷ [])) second_returned

at_end-Runs : Runs number_key 2 2 at_end
unfolding step lookup turn item_at key_at
at_end-Runs = Runs.turns 0 second_returned-Runs refl tt

abbrev all_items : List (ℕ × ℕ)
all_items = (4, 41) ∷ (5, 50) ∷ []

iter_ends : get_elem? at_end.stages 0 ≡ some (ended all_items)
unfolding step lookup turn item_at key_at
iter_ends = refl

iter_snapshot_example :
    (get_elem? at_end.stages 0 ≢ some broken)
    × (get_elem? at_end.stages 0 ≡ some (ended all_items)
        → given all_items ≡ logged_to number_key 2 (shareds at_end))
    × Distinct number_key (shareds at_end 0).head
iter_snapshot_example = iter_snapshot number_key 0 0 all_items at_end-Runs

abbrev first_item : Stage ℕ ℕ
first_item = visits 0 1 []

abbrev guard_open : Pc ℕ ℕ
guard_open = writes 1

abbrev out_of_call : Stage ℕ ℕ
out_of_call = outside

iter_alone_example :
    (calling out_of_call + iterating out_of_call ≡ 0)
    × (busy guard_open ≡ 0)
    × ((step number_key 41 guard_open (shareds at_item 0)).1.head ≡ (shareds at_item 0).head)
unfolding step lookup turn
iter_alone_example =
    iter_alone number_key 0 1 0 41 {x = first_item} {y = out_of_call} {p = guard_open} at_item-Runs
      (omega arith) refl refl refl (omega arith)

-- The item is removed before the first thread has counted it.
abbrev removed_first : Whole ℕ ℕ
removed_first =
    (accesses 1 0 0 (searches (removes 4)) (
      accesses 1 0 0 (locks (removes 4)) (
        entered 1 0 (removes 4)
          (goes 1 (joins 0 (removes 4)) (to_stage 1 (joins 0 (removes 4)) one_uncounted)))))

removed_first-Runs : Runs number_key 2 2 removed_first
unfolding step lookup turn unlink
removed_first-Runs =
    (Runs.access 1 0 0
      (Runs.access 1 0 0
        (Runs.enters 1 0 (removes 4)
          (Runs.turns 1 (Runs.begins 1 one_uncounted-Runs refl (Begins.call 0 (removes 4))) refl
            refl)
          refl refl)
        (omega arith) refl tt)
      (omega arith) refl tt)

few_items : items_to 2 (shareds removed_first) < 2 ^ 64
unfolding step lookup turn unlink
few_items = omega arith

len_wraps : removed_first.len ≡ usize_max
unfolding step lookup turn unlink
len_wraps = refl

len_lem_example :
    ((removed_first.len + total uncounted removed_first.stages) % 2 ^ 64
      ≡ items_to 2 (shareds removed_first))
    × (removed_first.len < 2 ^ 64)
len_lem_example = len_lem number_key 2 2 removed_first-Runs few_items
