-- ===== src/AtomicHashMap/Visits/Tallies.antt =====
-- How many items a map of src/collections/atomic_hashmap.rs has, and how its `len` is counted.
use acar.Prelude.{
  ℕ, zero, suc, ◌+◌, ◌%◌, ◌^◌, ◌<◌, ◌≡◌, refl, false, none, some, List, [], ◌∷◌, ◌++◌, Option, ltb,
  ◌==◌, length, arith, Bool-cases, inl, inr, ap, wrapping_inc, wrapping_dec,
}
use acar.Utils.{Address}
use acar.AtomicHashMap.Chain.{Item}
use acar.AtomicHashMap.Threads.{Shared}
use acar.AtomicHashMap.Locks.{has_member, is_last, is_free, is_exclusive, Lock}
use acar.AtomicHashMap.System.{System}
use acar.AtomicHashMap.Visits.{
  Stage, outside, joins, starts, opens, inside, adds, leaves, empties, advances, visits, ended,
  closes, broken, advance, visit, item_at, turn, Begins, put_at,
}

module _ {C V : Type 0} where
  -- The number of items in the first buckets.
  abbrev pub items_to : ℕ → (ℕ → Shared C V) → ℕ
  items_to zero bs = 0
  items_to (suc k) bs = items_to k bs + length (bs k).head

  pub items_to-same :
      (m : ℕ) (bs cs : ℕ → Shared C V)
      → ((l : ℕ) → l < m → length (cs l).head ≡ length (bs l).head)
      → items_to m cs ≡ items_to m bs
  items_to-same zero bs cs same = refl
  items_to-same (suc m) bs cs same =
      rw (items_to-same m bs cs (λ l lt. same l (omega arith)), same m (omega arith)) refl

  -- A write to one of them.
  pub items_to-put_at :
      (m k : ℕ) (bs : ℕ → System C V) (a : System C V)
      → k < m
      → items_to m (λ l. (put_at bs k a l).shared) + length (bs k).shared.head
        ≡ items_to m (λ l. (bs l).shared) + length a.shared.head
  items_to-put_at zero k bs a lt = absurd (omega arith)
  items_to-put_at (suc m) k bs a lt = elim (Bool-cases (m == k)) [
    | inl e ↦
        let same : m ≡ k = ground arith in
        let before =
          items_to-same m (λ l. (bs l).shared) (λ l. (put_at bs k a l).shared)
            λ l lt. (let other : (l == k) ≡ false = ground arith in rw other refl) in
        let here = ap (λ n. length (bs n).shared.head) same in rw e (omega (arith, before, here))
    | inr e ↦ rw e (omega (arith, items_to-put_at m k bs a (ground arith)))
  ]

  -- 1 for a thread that has added an item and has yet to count it.
  abbrev pub uncounted : Stage C V → ℕ
  uncounted adds = 1
  uncounted _ = 0

  advance-uncounted :
      (k : ℕ) (head : List (Item C Address)) (out : List (Item C V))
      → uncounted (advance k head out) ≡ 0
  advance-uncounted k [] out = refl
  advance-uncounted k ((c, p) ∷ rest) out = refl

  visit-uncounted :
      (k : ℕ) (out : List (Item C V)) (o : Option (C × List (Item C Address))) (v : Option V)
      → uncounted (visit k out o v) ≡ 0
  visit-uncounted k out none v = refl
  visit-uncounted k out (some item) none = refl
  visit-uncounted k out (some (c, rest)) (some v) = advance-uncounted k rest (out ++ (c, v) ∷ [])

pub dec_tally :
    (len t i j : ℕ)
    → j + 1 ≡ i
    → (len + t) % 2 ^ 64 ≡ i % 2 ^ 64
    → (wrapping_dec len + t) % 2 ^ 64 ≡ j % 2 ^ 64
dec_tally len t i j e h = omega arith

pub inc_tally :
    (len t i : ℕ)
    → (len + (t + 1)) % 2 ^ 64 ≡ i % 2 ^ 64
    → (wrapping_inc len + t) % 2 ^ 64 ≡ i % 2 ^ 64
inc_tally len t i h = omega arith

module _ {C V : Type 0} where
  pub turn-uncounted :
      (size : ℕ) (bs : ℕ → Shared C V) (h : Lock) (x : Stage C V)
      → uncounted (turn size bs x h).0 ≡ uncounted x
  unfolding turn
  turn-uncounted size bs h outside = refl
  turn-uncounted size bs h (joins k o) = elim (Bool-cases (is_exclusive h)) [
    | inl e ↦ rw e refl
    | inr e ↦ rw e refl
  ]
  turn-uncounted size bs h (starts k o) = refl
  turn-uncounted size bs h (inside k) = refl
  turn-uncounted size bs h adds = refl
  turn-uncounted size bs h leaves = elim (Bool-cases (has_member h)) [
    | inl m ↦ elim (Bool-cases (is_last h)) [ inl e ↦ rw (m, e) refl | inr e ↦ rw (m, e) refl ]
    | inr m ↦ rw m refl
  ]
  turn-uncounted size bs h empties = refl
  turn-uncounted size bs h opens = elim (Bool-cases (is_free h)) [
    | inl e ↦ rw e refl
    | inr e ↦ rw e refl
  ]
  turn-uncounted size bs h (advances k out) = elim (Bool-cases (ltb k size)) [
    | inl e ↦ rw e (advance-uncounted k (bs k).head out)
    | inr e ↦ rw e refl
  ]
  turn-uncounted size bs h (visits k p out) = elim (Bool-cases (is_free (bs k).held)) [
    | inl e ↦ rw e (visit-uncounted k out (item_at p (bs k).head) ((bs k).heap p))
    | inr e ↦ rw e refl
  ]
  turn-uncounted size bs h (ended out) = refl
  turn-uncounted size bs h closes = elim (Bool-cases (is_exclusive h)) [
    | inl e ↦ rw e refl
    | inr e ↦ rw e refl
  ]
  turn-uncounted size bs h broken = refl

  pub begins-uncounted : {x y : Stage C V} → Begins x y → uncounted y ≡ uncounted x
  begins-uncounted (Begins.call j o) = refl
  begins-uncounted Begins.iter = refl
  begins-uncounted (Begins.drop_new j out) = refl
  begins-uncounted (Begins.drop j p out) = refl
  begins-uncounted (Begins.drop_ended out) = refl
