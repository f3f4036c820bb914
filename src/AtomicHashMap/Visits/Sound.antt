-- ===== src/AtomicHashMap/Visits/Sound.antt =====
-- What holds of a map of src/collections/atomic_hashmap.rs between two steps, and that accesses to its
-- buckets keep it.
use acar.Prelude.{
  ℕ, ◌+◌, ◌<◌, ◌≡◌, refl, true, some, List, ◌==◌, is_some, get_elem?, arith, Bool-cases, inl, inr,
  sym, ap, ◌∙◌, total, le-total,
}
use mathlib.Core.Path.{subst}
use acar.AtomicHashMap.Chain.{Key}
use acar.AtomicHashMap.Threads.{Shared, Pc}
use acar.AtomicHashMap.Locks.{owned_lem, free_lem, is_free, Lock}
use acar.AtomicHashMap.System.{System, Reach, Fits, reading, owning, settling}
use acar.AtomicHashMap.Interleaved.{Reach-Inv}
use acar.AtomicHashMap.Visits.{Stage, busy, put_at, accessed}
use acar.AtomicHashMap.Visits.Places.{calling, iterating, storing, Counted, Places, Places-outside}
use acar.AtomicHashMap.Visits.Kept.{Kept, Places-kept}
use acar.AtomicHashMap.Visits.Turns.{Stored}
use acar.AtomicHashMap.Visits.Within.{
  Within, put_at-same, put_at-all, move-Within, step-quiet, step-idle,
}

module _ {C V : Type 0} where
  abbrev pub shared_in : (ℕ → System C V) → ℕ → Shared C V
  shared_in bs k = (bs k).shared

module _ (K : Key) {V : Type 0} (n size : ℕ) where
  open K use {Carrier}

  pub record Sound (bs : ℕ → System Carrier V) (h : Lock) (stages : List (Stage Carrier V))
      : Type 0 where
    pub runs : (k : ℕ) → Reach K n (bs k)
    pub counts : Counted (total calling stages) (total iterating stages) (total storing stages) h
    pub within : Within bs stages
    pub places :
        (i : ℕ) (x : Stage Carrier V) → get_elem? stages i ≡ some x → Places size (shared_in bs) x

  pub runs-Stored :
      (bs : ℕ → System Carrier V) → ((k : ℕ) → Reach K n (bs k)) → Stored K (shared_in bs)
  runs-Stored bs runs = record {
    alive = λ k p pos.
        let placed = (Reach-Inv K (runs k)).world.placed p in
        elim (Bool-cases (is_some ((bs k).shared.heap p))) [
          | inl e ↦ e
          | inr e ↦ absurd (let none_there = rw e at placed in omega (arith, none_there))
        ];
    once = λ k p.
        let placed = (Reach-Inv K (runs k)).world.placed p in
        elim (Bool-cases (is_some ((bs k).shared.heap p))) [
          | inl e ↦ let there = rw e at placed in omega (arith, there)
          | inr e ↦ let there = rw e at placed in omega (arith, there)
        ];
  }

  module _ {bs : ℕ → System Carrier V} {h : Lock} {stages : List (Stage Carrier V)}
      (sound : Sound bs h stages) where
    -- While there is an iterator, no thread is in a call.
    pub none_busy :
        (j : ℕ) {x : Stage Carrier V} (i k : ℕ) {p : Pc Carrier V}
        → get_elem? stages j ≡ some x
        → 0 < iterating x
        → get_elem? (bs k).threads i ≡ some p
        → busy p ≡ 0
    none_busy j i k {p} there pos at = elim (Bool-cases (busy p == 0)) [
      | inl e ↦ ground arith
      | inr e ↦
          let stage = sound.within i k p at (ground arith) in
          let one = le-total calling stages i stage in
          let iter = le-total iterating stages j there in
          let alone = owned_lem h sound.counts (omega (arith, iter, pos)) in
          absurd (omega (arith, one, alone.1))
    ]

    -- A step in a bucket, while there is an iterator, is at most the drop of a guard.
    pub access-Kept :
        (j : ℕ) {x : Stage Carrier V} (i k : ℕ) (v : V) {p : Pc Carrier V}
        → get_elem? stages j ≡ some x
        → 0 < iterating x
        → get_elem? (bs k).threads i ≡ some p
        → Kept (shared_in bs) (shared_in (put_at bs k (accessed K v i p (bs k))))
    access-Kept j i k v {p} there pos at =
        let quiet = none_busy j i k there pos at in
        let s' = accessed K v i p (bs k) in
        record {
          chain = put_at-same (λ s. s.shared.head) bs k s' (step-quiet K v (bs k).shared p quiet).0;
          unlocked = λ l free. elim (Bool-cases (l == k)) [
            | inl e ↦
                let same : l ≡ k = ground arith in
                let free_k : is_free (bs k).shared.held ≡ true =
                  subst (λ m. is_free (bs m).shared.held ≡ true) same free in
                let world = (Reach-Inv K (sound.runs k)).world in
                let nobody_has = free_lem (bs k).shared.held free_k world.held in
                let no_guard : reading p + owning p + settling p ≡ 0 = omega (
                  arith,
                  nobody_has.0,
                  nobody_has.1,
                  nobody_has.2,
                  le-total settling (bs k).threads i at,
                  le-total reading (bs k).threads i at,
                  le-total owning (bs k).threads i at,
                ) in
                rw (shared_in, e)
                  (step-idle K v (bs k).shared p quiet no_guard ∙ ap (shared_in bs) (sym same))
            | inr e ↦ rw (shared_in, e) refl
          ];
        }

    pub access-Sound :
        (i k : ℕ) (v : V) {p : Pc Carrier V}
        → get_elem? (bs k).threads i ≡ some p
        → Fits K p (bs k).shared
        → Sound (put_at bs k (accessed K v i p (bs k))) h stages
    access-Sound i k v {p} at fits = record {
      runs =
          put_at-all (λ s. Reach K n s) bs k _ (Reach.access i v (sound.runs k) at fits) sound.runs;
      counts = sound.counts;
      within = move-Within bs stages i k _ _ sound.within at λ pos.
          elim (Bool-cases (busy p == 0)) [
            | inl e ↦
                let quiet = (step-quiet K v (bs k).shared p (ground arith)).1 in
                absurd (omega (arith, quiet, pos))
            | inr e ↦ sound.within i k p at (ground arith)
          ];
      places = λ j x there. elim (Bool-cases (iterating x == 0)) [
        | inl e ↦ Places-outside size _ x (ground arith)
        | inr e ↦
            Places-kept (access-Kept j i k v there (ground arith) at) size x
              (sound.places j x there)
      ];
    }
