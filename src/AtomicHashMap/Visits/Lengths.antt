-- ===== src/AtomicHashMap/Visits/Lengths.antt =====
-- The `len` of a map of src/collections/atomic_hashmap.rs while threads call it in any order.
use acar.Prelude.{
  ℕ, zero, suc, ◌+◌, ◌%◌, ◌^◌, ◌<◌, ◌≡◌, refl, true, false, Bool, some, List, if◌then◌else◌, length,
  get_elem?, set, total, moved, replicate, total-replicate, arith, wrapping_inc, wrapping_dec,
}
use acar.AtomicHashMap.Chain.{Key}
use acar.AtomicHashMap.Threads.{Pc}
use acar.AtomicHashMap.System.{System, init}
use acar.AtomicHashMap.World.{bit}
use acar.AtomicHashMap.Interleaved.{Reach-Inv}
use acar.AtomicHashMap.Visits.{
  Stage, outside, inside, adds, leaves, put_at, shareds, Whole, Runs, start, access, turns, begins,
  enters, returns, adding,
}
use acar.AtomicHashMap.Visits.Adding.{step-length, adds_item_lem}
use acar.AtomicHashMap.Visits.Within.{put_at-same}
use acar.AtomicHashMap.Visits.Invariant.{Runs-Sound}
use acar.AtomicHashMap.Visits.Tallies.{
  items_to, items_to-same, items_to-put_at, uncounted, turn-uncounted, begins-uncounted, dec_tally,
  inc_tally,
}

module _ (K : Key) {V : Type 0} (n size : ℕ) where
  open K use {Carrier}

  -- `len` and the items that are yet to be counted are the number of items, modulo `2 ^ 64`.
  record Tallied (bs : ℕ → System Carrier V) (len : ℕ) (stages : List (Stage Carrier V))
      : Type 0 where
    pub sum : (len + total uncounted stages) % 2 ^ 64 ≡ items_to size (λ l. (bs l).shared) % 2 ^ 64
    pub bound : len < 2 ^ 64

  module _ {bs : ℕ → System Carrier V} {len : ℕ} {stages : List (Stage Carrier V)}
      (tallied : Tallied bs len stages) where
    restage-Tallied :
        (i : ℕ) {x : Stage Carrier V} (y : Stage Carrier V)
        → get_elem? stages i ≡ some x
        → uncounted y ≡ uncounted x
        → Tallied bs len (set stages i y)
    restage-Tallied i y at e =
        let c = moved uncounted stages i y at in
        let same : total uncounted (set stages i y) ≡ total uncounted stages =
          omega (arith, c.before, c.after, e) in
        record { sum = rw same tallied.sum; bound = tallied.bound }

    adding-Tallied :
        (i : ℕ)
        → get_elem? stages i ≡ some adds
        → Tallied bs (wrapping_inc len) (set stages i leaves)
    adding-Tallied i at =
        let c = moved uncounted stages i leaves at in
        let one : total uncounted stages ≡ total uncounted (set stages i leaves) + 1 =
          omega (arith, c.before, c.after) in
        record {
          sum = inc_tally len (total uncounted (set stages i leaves)) _ (rw one at tallied.sum);
          bound = omega arith;
        }

    -- The thread `i`, in a call, makes an access that changes the length of a chain.
    access-Tallied :
        (i k : ℕ) (a : System Carrier V) (takes adds_one : Bool)
        → k < size
        → length a.shared.head + bit takes ≡ length (bs k).shared.head + bit adds_one
        → (adds_one ≡ true → get_elem? stages i ≡ some (inside k))
        → Tallied
            (put_at bs k a)
            (if takes then wrapping_dec len else len)
            (if adds_one then set stages i adds else stages)
    access-Tallied i k a false false lt e inside_it = record {
      sum = omega (arith, tallied.sum, e, items_to-put_at size k bs a lt);
      bound = tallied.bound;
    }
    access-Tallied i k a true false lt e inside_it =
        let one = items_to-put_at size k bs a lt in
        record {
          sum = dec_tally len (total uncounted stages) _ _ (omega (arith, e, one)) tallied.sum;
          bound = omega arith;
        }
    access-Tallied i k a false true lt e inside_it =
        let one = items_to-put_at size k bs a lt in
        let c = moved uncounted stages i adds (inside_it refl) in
        record {
          sum = omega (arith, tallied.sum, e, one, c.before, c.after);
          bound = tallied.bound;
        }
    access-Tallied i k a true true lt e inside_it =
        let one = items_to-put_at size k bs a lt in
        let c = moved uncounted stages i adds (inside_it refl) in
        record { sum = omega (arith, tallied.sum, e, one, c.before, c.after); bound = omega arith }

    enters-Tallied :
        (k : ℕ) (ts : List (Pc Carrier V))
        → Tallied (put_at bs k (record { shared = (bs k).shared; threads = ts })) len stages
    enters-Tallied k ts =
        let same =
          items_to-same size (λ l. (bs l).shared)
            (λ l. (put_at bs k (record { shared = (bs k).shared; threads = ts }) l).shared)
            (λ l lt. put_at-same (λ s. length s.shared.head) bs k _ refl l) in
        record { sum = rw same tallied.sum; bound = tallied.bound }

  start-Tallied : Tallied (λ k. init K n) 0 (replicate n outside)
  start-Tallied = record {
    sum = omega (arith, total-replicate uncounted n outside refl, none_in size);
    bound = omega arith;
  }
    where
      none_in : (m : ℕ) → items_to m (λ k. (init K {V = V} n).shared) ≡ 0
      none_in zero = refl
      none_in (suc m) = rw (none_in m) refl

  Runs-Tallied : {w : Whole Carrier V} → Runs K n size w → Tallied w.buckets w.len w.stages
  Runs-Tallied start = start-Tallied
  Runs-Tallied (access {w = w} i k v {p} r lt at fits) =
      let sound = Runs-Sound K n size r in
      let distinct = (Reach-Inv K (sound.runs k)).world.distinct in
      access-Tallied (Runs-Tallied r) i k _ _ _ lt (step-length K v p (w.buckets k).shared distinct)
        (λ e. sound.within i k p at (omega (arith, (adds_item_lem K v p (w.buckets k).shared e).0)))
  Runs-Tallied (turns {w = w} i {x} r at calm) =
      restage-Tallied (Runs-Tallied r) i _ at (turn-uncounted size (shareds w) w.lock x)
  Runs-Tallied (begins i {x} {y} r at b) =
      restage-Tallied (Runs-Tallied r) i y at (begins-uncounted b)
  Runs-Tallied (enters {w = w} i k o r at there) =
      enters-Tallied (restage-Tallied (Runs-Tallied r) i (inside k) at refl) k _
  Runs-Tallied (returns i k r at there quiet) = restage-Tallied (Runs-Tallied r) i leaves at refl
  Runs-Tallied (adding i r at) = adding-Tallied (Runs-Tallied r) i at

  -- With fewer than `2 ^ 64` items in the map, and in runs in which no `lock_group` of the `lock`
  -- of the map or of the `ref_locked` of a bucket comes between the fetch_sub that counts the last
  -- member out and its store of DIRTY, and each new item gets an address that is not in use: `len`
  -- and the number of threads whose `insert` has added an item and has yet to count it add up to
  -- the number of items, modulo `2 ^ 64`: `len` is that number where there are no such threads, and
  -- it has wrapped around where there are more of them than items.
  pub len_lem :
      {w : Whole Carrier V}
      → Runs K n size w
      → items_to size (shareds w) < 2 ^ 64
      → ((w.len + total uncounted w.stages) % 2 ^ 64 ≡ items_to size (shareds w)) × (w.len < 2 ^ 64)
  len_lem r few = let tallied = Runs-Tallied r in (omega (arith, tallied.sum, few), tallied.bound)
