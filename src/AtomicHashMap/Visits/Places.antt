-- ===== src/AtomicHashMap/Visits/Places.antt =====
-- Where an iterator of src/collections/atomic_hashmap.rs stands in the chains of the buckets, and what a
-- step of its thread makes of it.
use acar.Prelude.{
  ℕ, suc, ◌+◌, ◌<◌, ◌≤◌, ◌≡◌, refl, true, Option, none, some, List, [], ◌∷◌, ◌++◌, ltb, ◌⊎◌, arith,
  Bool-cases, inl, inr,
}
use acar.Utils.{Address}
use acar.AtomicHashMap.Chain.{Item}
use acar.AtomicHashMap.Threads.{Shared}
use acar.AtomicHashMap.Locks.{
  Lock, Stands, Stands-eq, is_free, is_exclusive, is_last, taken_lem, joined_lem, left_lem,
  stored_lem, given_lem,
}
use acar.AtomicHashMap.Visits.{
  Stage, outside, joins, starts, inside, adds, leaves, empties, Calm, opens, advances, visits,
  ended, closes, broken, turn, visit, advance, item_at,
}
use acar.AtomicHashMap.Visits.Chains.{given, contents, contents_to}

-- How the `lock` of the map stands with `calls` threads in the group, `iters` iterators and `st` threads
-- that are to store DIRTY.
abbrev pub Counted : ℕ → ℕ → ℕ → Lock → Type 0
Counted calls iters st h = Stands h calls iters st

module _ {C V : Type 0} where
  -- 1 for a thread that is counted in the group.
  abbrev pub calling : Stage C V → ℕ
  calling (starts k o) = 1
  calling (inside k) = 1
  calling adds = 1
  calling leaves = 1
  calling _ = 0

  -- 1 for a thread that is to store DIRTY.
  abbrev pub storing : Stage C V → ℕ
  storing empties = 1
  storing _ = 0

  -- 1 for a thread that has an iterator.
  abbrev pub iterating : Stage C V → ℕ
  iterating (advances k out) = 1
  iterating (visits k p out) = 1
  iterating (ended out) = 1
  iterating closes = 1
  iterating broken = 1
  iterating _ = 0

  -- No guard of a value of the first `k` buckets is left, and the iterator has returned their items.
  abbrev pub Settled : ℕ → (ℕ → Shared C V) → Type 0
  Settled k bs = (l : ℕ) → l < k → (is_free (bs l).held ≡ true) ⊎ ((bs l).head ≡ [])

  abbrev pub Done : ℕ → (ℕ → Shared C V) → List (Item C V) → Type 0
  Done k bs out = Settled k bs × (given out ≡ contents_to k bs)

  -- The iterator stands at the first item of a bucket, or at a later one, with `rest` behind it.
  abbrev pub AtItem :
      ℕ → Address → C → List (Item C Address) → (ℕ → Shared C V) → List (Item C V) → Type 0
  AtItem k p c rest bs out =
      (Done k bs out × ((bs k).head ≡ (c, p) ∷ rest))
      ⊎ (Settled (suc k) bs
          × (is_free (bs k).held ≡ true)
          × (given out ++ contents (bs k).heap ((c, p) ∷ rest) ≡ contents_to (suc k) bs))

  abbrev pub Places : ℕ → (ℕ → Shared C V) → Stage C V → Type 0
  Places size bs (advances k out) = (k ≤ size) × Done k bs out
  Places size bs (visits k p out) =
      (k < size)
      × (c : C) × (rest : List (Item C Address)) × (item_at p (bs k).head ≡ some (c, rest))
      × AtItem k p c rest bs out
  Places size bs (ended out) = Done size bs out
  Places size bs broken = ⊥
  Places size bs _ = Unit

  pub Places-outside :
      (size : ℕ) (bs : ℕ → Shared C V) (x : Stage C V) → iterating x ≡ 0 → Places size bs x
  Places-outside size bs outside e = tt
  Places-outside size bs (joins k o) e = tt
  Places-outside size bs (starts k o) e = tt
  Places-outside size bs (inside k) e = tt
  Places-outside size bs adds e = tt
  Places-outside size bs leaves e = tt
  Places-outside size bs empties e = tt
  Places-outside size bs opens e = tt
  Places-outside size bs (advances k out) e = absurd (omega arith)
  Places-outside size bs (visits k p out) e = absurd (omega arith)
  Places-outside size bs (ended out) e = absurd (omega arith)
  Places-outside size bs closes e = absurd (omega arith)
  Places-outside size bs broken e = absurd (omega arith)

  visit_counts :
      (k : ℕ) (out : List (Item C V)) (o : Option (C × List (Item C Address))) (v : Option V)
      → (calling (visit k out o v) ≡ 0)
        × (iterating (visit k out o v) ≡ 1)
        × (storing (visit k out o v) ≡ 0)
  visit_counts k out none v = (refl, refl, refl)
  visit_counts k out (some item) none = (refl, refl, refl)
  visit_counts k out (some (c, [])) (some v) = (refl, refl, refl)
  visit_counts k out (some (c, (d, q) ∷ rest)) (some v) = (refl, refl, refl)

  advance_counts :
      (k : ℕ) (head : List (Item C Address)) (out : List (Item C V))
      → (calling (advance k head out) ≡ 0)
        × (iterating (advance k head out) ≡ 1)
        × (storing (advance k head out) ≡ 0)
  advance_counts k [] out = (refl, refl, refl)
  advance_counts k ((c, p) ∷ rest) out = (refl, refl, refl)

  -- The count of a stage that an iterator goes on to.
  goes_on :
      (calls iters st : ℕ) (h : Lock) (x : Stage C V)
      → (calling x ≡ 0) × (iterating x ≡ 1) × (storing x ≡ 0)
      → Counted (calls + 0) (iters + 1) (st + 0) h
      → Counted (calls + calling x) (iters + iterating x) (st + storing x) h
  goes_on calls iters st h x (c, i, s) e =
      Stands-eq e (omega (arith, c)) (omega (arith, i)) (omega (arith, s))

  pub turn_counts :
      (size : ℕ) (bs : ℕ → Shared C V) (calls iters st : ℕ) (h : Lock) (x : Stage C V)
      → Calm x h
      → Counted (calls + calling x) (iters + iterating x) (st + storing x) h
      → Counted
          (calls + calling (turn size bs x h).0)
          (iters + iterating (turn size bs x h).0)
          (st + storing (turn size bs x h).0)
          (turn size bs x h).1
  unfolding turn
  turn_counts size bs calls iters st h outside calm e = e
  turn_counts size bs calls iters st h (joins k o) calm e = elim (Bool-cases (is_exclusive h)) [
    | inl f ↦ rw f e
    | inr f ↦ rw f (Stands-eq (joined_lem h f calm e) (omega arith) (omega arith) (omega arith))
  ]
  turn_counts size bs calls iters st h (starts k o) calm e = e
  turn_counts size bs calls iters st h (inside k) calm e = e
  turn_counts size bs calls iters st h adds calm e = e
  turn_counts size bs calls iters st h leaves calm e =
      let (member, stands) = left_lem h e in
      rw member (elim (Bool-cases (is_last h)) [
        | inl f ↦
            let one = rw f at stands in
            rw f (Stands-eq one (omega arith) (omega arith) (omega arith))
        | inr f ↦
            let none_left = rw f at stands in
            rw f (Stands-eq none_left (omega arith) (omega arith) (omega arith))
      ])
  turn_counts size bs calls iters st h empties calm e =
      Stands-eq (stored_lem h e) (omega arith) (omega arith) (omega arith)
  turn_counts size bs calls iters st h opens calm e = elim (Bool-cases (is_free h)) [
    | inl f ↦ rw f (Stands-eq (taken_lem h f e) (omega arith) (omega arith) (omega arith))
    | inr f ↦ rw f e
  ]
  turn_counts size bs calls iters st h (advances k out) calm e = elim (Bool-cases (ltb k size)) [
    | inl f ↦
        rw f (
          goes_on calls iters st h (advance k (bs k).head out) (advance_counts k (bs k).head out) e)
    | inr f ↦ rw f e
  ]
  turn_counts size bs calls iters st h (visits k p out) calm e =
      elim (Bool-cases (is_free (bs k).held)) [
        | inl f ↦ rw f (
            goes_on calls iters st h (visit k out (item_at p (bs k).head) ((bs k).heap p))
              (visit_counts k out (item_at p (bs k).head) ((bs k).heap p)) e)
        | inr f ↦ rw f e
      ]
  turn_counts size bs calls iters st h (ended out) calm e = e
  turn_counts size bs calls iters st h closes calm e =
      let (owned, _, _, stands) = given_lem h e in
      rw owned (Stands-eq stands (omega arith) (omega arith) (omega arith))
  turn_counts size bs calls iters st h broken calm e = e
