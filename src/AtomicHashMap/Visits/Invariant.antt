-- ===== src/AtomicHashMap/Visits/Invariant.antt =====
-- What the calls and the iterators of a map of src/collections/atomic_hashmap.rs keep, whatever threads
-- do and in whatever order.
use acar.Prelude.{
  ℕ, ◌==◌, inl, inr, Bool-cases, if◌then◌else◌, true, ◌+◌, ◌-◌, ◌<◌, ◌≡◌, refl, some, List,
  get_elem?, set, arith, get_elem?-set, sym, ap, ◌∙◌, total, moved, set-all, replicate,
  replicate-all, total-replicate,
}
use mathlib.Core.Path.{subst, fun_ext}
use mathlib.Core.Option.{some-injective}
use acar.AtomicHashMap.Locks.{Stands-eq, Lock, unlocked}
use acar.AtomicHashMap.Chain.{Key}
use acar.AtomicHashMap.Threads.{Shared, Op, Pc, idle, locks}
use acar.AtomicHashMap.System.{System, Reach, Fits, init}
use acar.AtomicHashMap.Visits.{
  Stage, outside, starts, inside, adds, leaves, adds_item, accessed, adding, turn, Begins, Calm,
  busy, put_at, Whole, Runs, start, access, turns, begins, enters, returns,
}
use acar.AtomicHashMap.Visits.Places.{
  calling, iterating, storing, Counted, Places, Places-outside, turn_counts,
}
use acar.AtomicHashMap.Visits.Turns.{turn-Places}
use acar.AtomicHashMap.Visits.Within.{
  put_at-same, put_at-all, move-Within, restage-Within, begins_outside,
}
use acar.AtomicHashMap.Visits.Adding.{adds_item_lem}
use acar.AtomicHashMap.Visits.Sound.{shared_in, Sound, runs-Stored, access-Sound}

module _ {C V : Type 0} where
  -- Which bucket a call is in, and whether there is one.
  abbrev bucket_of : Stage C V → ℕ
  bucket_of (inside k) = k
  bucket_of _ = 0

  abbrev calls_of : Stage C V → ℕ
  calls_of (inside k) = 1
  calls_of _ = 0

  begins_counts :
      {x y : Stage C V}
      → Begins x y
      → (calling x ≡ calling y) × (iterating x ≡ iterating y) × (storing x ≡ storing y)
  begins_counts (Begins.call j o) = (refl, refl, refl)
  begins_counts Begins.iter = (refl, refl, refl)
  begins_counts (Begins.drop_new j out) = (refl, refl, refl)
  begins_counts (Begins.drop j p out) = (refl, refl, refl)
  begins_counts (Begins.drop_ended out) = (refl, refl, refl)

  begins-Places : {x y : Stage C V} (size : ℕ) (cs : ℕ → Shared C V) → Begins x y → Places size cs y
  begins-Places size cs (Begins.call j o) = tt
  begins-Places size cs Begins.iter = tt
  begins-Places size cs (Begins.drop_new j out) = tt
  begins-Places size cs (Begins.drop j p out) = tt
  begins-Places size cs (Begins.drop_ended out) = tt

  -- A thread moves from one stage to another.
  restage-Counted :
      (stages : List (Stage C V)) (h g : Lock) (i : ℕ) {x : Stage C V} (y : Stage C V)
      → get_elem? stages i ≡ some x
      → ((calls iters st : ℕ)
          → Counted (calls + calling x) (iters + iterating x) (st + storing x) h
          → Counted (calls + calling y) (iters + iterating y) (st + storing y) g)
      → Counted (total calling stages) (total iterating stages) (total storing stages) h
      → Counted
          (total calling (set stages i y))
          (total iterating (set stages i y))
          (total storing (set stages i y))
          g
  restage-Counted stages h g i {x} y at keeps e =
      let c = moved calling stages i y at in
      let r = moved iterating stages i y at in
      let s = moved storing stages i y at in
      Stands-eq
        (keeps (total calling stages - calling x) (total iterating stages - iterating x)
          (total storing stages - storing x)
          (Stands-eq e (omega (arith, c.before)) (omega (arith, r.before))
            (omega (arith, s.before))))
        (omega (arith, c.after)) (omega (arith, r.after)) (omega (arith, s.after))

module _ (K : Key) {V : Type 0} (n size : ℕ) where
  open K use {Carrier}

  module _ {bs : ℕ → System Carrier V} {h : Lock} {stages : List (Stage Carrier V)}
      (sound : Sound K n size bs h stages) where
    -- A thread moves to another stage.
    restage-Sound :
        (i : ℕ) {x : Stage Carrier V} (y : Stage Carrier V) (g : Lock)
        → get_elem? stages i ≡ some x
        → ((calls iters st : ℕ)
            → Counted (calls + calling x) (iters + iterating x) (st + storing x) h
            → Counted (calls + calling y) (iters + iterating y) (st + storing y) g)
        → ((k : ℕ) (p : Pc Carrier V)
            → get_elem? (bs k).threads i ≡ some p
            → 0 < busy p
            → x ≡ inside k
            → y ≡ inside k)
        → Places size (shared_in bs) y
        → Sound K n size bs g (set stages i y)
    restage-Sound i {x} y g at counts own places = record {
      runs = sound.runs;
      counts = restage-Counted stages h g i y at counts sound.counts;
      within = restage-Within bs stages i y sound.within at λ k p there pos.
          own k p there pos (some-injective _ _ (sym at ∙ sound.within i k p there pos));
      places = set-all (λ z. Places size (shared_in bs) z) stages i y sound.places places;
    }

    -- The lock, as a thread at a stage finds it.
    standing :
        (i : ℕ) {x : Stage Carrier V}
        → get_elem? stages i ≡ some x
        → Counted
            (total calling stages - calling x + calling x)
            (total iterating stages - iterating x + iterating x)
            (total storing stages - storing x + storing x)
            h
    standing i {x} at =
        Stands-eq sound.counts (moved calling stages i x at).before
          (moved iterating stages i x at).before (moved storing stages i x at).before

    turns-Sound :
        (i : ℕ) {x : Stage Carrier V}
        → get_elem? stages i ≡ some x
        → Calm x h
        → Sound K n size bs
            (turn size (shared_in bs) x h).1
            (set stages i (turn size (shared_in bs) x h).0)
    unfolding turn
    turns-Sound i {x} at calm =
        restage-Sound i _ _ at
          (λ calls iters st. turn_counts size (shared_in bs) calls iters st h x calm)
          (λ k p there pos e. ap (λ z. (turn size (shared_in bs) z h).0) e)
          (turn-Places K size (shared_in bs) _ _ _ h x (standing i at)
            (runs-Stored K n size bs sound.runs) (sound.places i x at))

    begins-Sound :
        (i : ℕ) {x y : Stage Carrier V}
        → get_elem? stages i ≡ some x
        → Begins x y
        → Sound K n size bs h (set stages i y)
    begins-Sound i {x} {y} at b =
        let (c, r, s) = begins_counts b in
        restage-Sound i y h at
          (λ calls iters st e. Stands-eq e (omega (arith, c)) (omega (arith, r)) (omega (arith, s)))
          (λ k p there pos e. absurd (begins_outside k b e)) (begins-Places size (shared_in bs) b)

    -- A thread that is done in the bucket of its call.
    returns-Sound :
        (i k : ℕ) {p : Pc Carrier V} (y : Stage Carrier V)
        → get_elem? stages i ≡ some (inside k)
        → get_elem? (bs k).threads i ≡ some p
        → busy p ≡ 0
        → calling y ≡ 1
        → iterating y ≡ 0
        → storing y ≡ 0
        → Sound K n size bs h (set stages i y)
    returns-Sound i k {p} y at there quiet c r s =
        restage-Sound i y h at
          (λ calls iters st e. Stands-eq e (omega (arith, c)) (omega (arith, r)) (omega (arith, s)))
          (λ l q other pos e.
            let same : k ≡ l = ap bucket_of e in
            let other_k : get_elem? (bs k).threads i ≡ some q = rw same other in
            let equal = ap busy (some-injective p q (sym there ∙ other_k)) in
            absurd (omega (arith, equal, quiet, pos)))
          (Places-outside size (shared_in bs) y r)

    added-Sound :
        (i : ℕ) → get_elem? stages i ≡ some adds → Sound K n size bs h (set stages i leaves)
    added-Sound i at =
        restage-Sound i leaves h at (λ calls iters st e. e)
          (λ l q other pos e. absurd (let f = ap calls_of e in ground arith)) tt

    enters-Sound :
        (i k : ℕ) (o : Op Carrier V)
        → get_elem? stages i ≡ some (starts k o)
        → get_elem? (bs k).threads i ≡ some idle
        → Sound K n size
            (put_at bs k
              (record { shared = (bs k).shared; threads = set (bs k).threads i (locks o) }))
            h
            (set stages i (inside k))
    enters-Sound i k o at there =
        let staged =
          restage-Sound i (inside k) h at (λ calls iters st e. e)
            (λ l q other pos e. absurd (let f = ap calls_of e in ground arith)) tt in
        record {
          runs =
              put_at-all (λ s. Reach K n s) bs k _ (Reach.call i o (sound.runs k) there) sound.runs;
          counts = staged.counts;
          within =
              move-Within bs (set stages i (inside k)) i k _ _ staged.within there
                λ pos. get_elem?-set stages i (inside k) at;
          places = λ j x other.
              subst (λ cs. Places size cs x)
                (sym (fun_ext (put_at-same (λ s. s.shared) bs k _ refl))) (staged.places j x other);
        }

  -- An access, after which a thread that has added an item counts it.
  accesses-Sound :
      {bs : ℕ → System Carrier V} {h : Lock} {stages : List (Stage Carrier V)}
      (sound : Sound K n size bs h stages) (i k : ℕ) (v : V) {p : Pc Carrier V}
      → get_elem? (bs k).threads i ≡ some p
      → Fits K p (bs k).shared
      → Sound K n size
          (put_at bs k (accessed K v i p (bs k)))
          h
          (if adds_item K p (bs k).shared then set stages i adds else stages)
  accesses-Sound {bs} {h} {stages} sound i k v {p} at fits =
      let after = access-Sound K n size sound i k v at fits in
      elim (Bool-cases (adds_item K p (bs k).shared)) [
        | inl e ↦
            let (in_call, done) = adds_item_lem K v p (bs k).shared e in
            let stage = sound.within i k p at (omega (arith, in_call)) in
            let self : (k == k) ≡ true = ground arith in
            let there : get_elem? (put_at bs k (accessed K v i p (bs k)) k).threads i ≡ some idle =
              rw self (get_elem?-set (bs k).threads i _ at ∙ ap (λ q. some q) done) in
            rw e (returns-Sound after i k adds stage there refl refl refl refl)
        | inr e ↦ rw e after
      ]

  start-Sound : Sound K {V = V} n size (λ k. init K n) unlocked (replicate n outside)
  start-Sound = record {
    runs = λ k. Reach.start;
    counts = record {
      readers = total-replicate calling n outside refl;
      owner = total-replicate iterating n outside refl;
      closing = total-replicate storing n outside refl;
      clean = refl;
    };
    within = λ i k p there pos. absurd (
        let none_busy = replicate-all (λ q. busy q ≡ 0) n idle refl i p there in
        omega (arith, pos));
    places = replicate-all (λ x. Places size (shared_in (λ k. init K n)) x) n outside tt;
  }

  pub Runs-Sound :
      {w : Whole Carrier V} → Runs K n size w → Sound K n size w.buckets w.lock w.stages
  Runs-Sound start = start-Sound
  Runs-Sound (access i k v r lt at fits) = accesses-Sound (Runs-Sound r) i k v at fits
  Runs-Sound (turns i r at calm) = turns-Sound (Runs-Sound r) i at calm
  Runs-Sound (begins i r at b) = begins-Sound (Runs-Sound r) i at b
  Runs-Sound (enters i k o r at there) = enters-Sound (Runs-Sound r) i k o at there
  Runs-Sound (returns i k r at there quiet) =
      returns-Sound (Runs-Sound r) i k leaves at there quiet refl refl refl
  Runs-Sound (adding i r at) = added-Sound (Runs-Sound r) i at
