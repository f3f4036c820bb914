-- ===== src/AtomicHashMap/Visits/Turns.antt =====
-- A turn of a thread keeps where an iterator of src/collections/atomic_hashmap.rs stands.
use acar.Prelude.{
  ℕ, suc, ◌+◌, ◌<◌, ◌≤◌, ◌≡◌, refl, true, Option, some, List, [], ◌∷◌, ◌++◌, ltb, is_some, arith,
  Bool-cases, Option-cases, inl, inr, ap, sym, ◌∙◌, append_assoc, append-nil,
}
use mathlib.Core.Path.{subst}
use acar.Utils.{Address}
use acar.AtomicHashMap.Chain.{Key, Item}
use acar.AtomicHashMap.Log.{count}
use acar.AtomicHashMap.Threads.{Shared}
use acar.AtomicHashMap.Locks.{left_lem, given_lem, is_last, is_free, is_exclusive, Lock}
use acar.AtomicHashMap.Visits.{
  Stage, outside, joins, starts, inside, adds, leaves, empties, opens, advances, visits, ended,
  closes, broken, turn, visit, advance, item_at,
}
use acar.AtomicHashMap.Visits.Chains.{
  given, given-append, contents, contents_to, item_at-count, item_at-next,
}
use acar.AtomicHashMap.Visits.Places.{
  Counted, calling, iterating, storing, Settled, Done, AtItem, Places,
}
use acar.AtomicHashMap.Visits.Kept.{settle}

module _ {C V : Type 0} where
  advance-Places :
      (size k : ℕ) (bs : ℕ → Shared C V) (head : List (Item C Address)) (out : List (Item C V))
      → k < size
      → (bs k).head ≡ head
      → Done k bs out
      → Places size bs (advance k head out)
  unfolding item_at
  advance-Places size k bs [] out lt e (settled, f) = (
    omega arith,
    (
      settle k bs settled (inr e),
      f
          ∙ sym (append-nil (contents_to k bs))
          ∙ ap (λ l. contents_to k bs ++ contents (bs k).heap l) (sym e),
    ),
  )
  advance-Places size k bs ((c, p) ∷ rest) out lt e done =
      let self : item_at p ((c, p) ∷ rest) ≡ some (c, rest) = ground arith in
      (lt, c, rest, ap (item_at p) e ∙ self, inl (done, e))

module _ (K : Key) {V : Type 0} where
  open K use {Carrier}

  -- Where the values of the bucket are not locked, the two cases are one.
  at_item :
      (k : ℕ) (bs : ℕ → Shared Carrier V) (p : Address) (out : List (Item Carrier V)) (c : Carrier)
      (rest : List (Item Carrier Address))
      → is_free (bs k).held ≡ true
      → AtItem k p c rest bs out
      → Settled (suc k) bs
        × (given out ++ contents (bs k).heap ((c, p) ∷ rest) ≡ contents_to (suc k) bs)
  at_item k bs p out c rest free (inl ((settled, e), f)) =
      (settle k bs settled (inl free), rw (e, f) refl)
  at_item k bs p out c rest free (inr (settled, _, e)) = (settled, e)

  -- The value of the item is added to what has been returned.
  returned_one :
      (h : Address → Option V) (p : Address) (out : List (Item Carrier V)) (c : Carrier)
      (rest : List (Item Carrier Address)) (v : V)
      → h p ≡ some v
      → given (out ++ (c, v) ∷ []) ++ contents h rest ≡ given out ++ contents h ((c, p) ∷ rest)
  returned_one h p out c rest v e =
      ap (λ l. l ++ contents h rest) (given-append out ((c, v) ∷ []))
      ∙ append_assoc (given out) ((c, some v) ∷ []) (contents h rest)
      ∙ ap (λ o. given out ++ (c, o) ∷ contents h rest) (sym e)

  visit-Places :
      (size k : ℕ) (bs : ℕ → Shared Carrier V) (p : Address) (out : List (Item Carrier V))
      (c : Carrier) (rest : List (Item Carrier Address)) (v : V)
      → k < size
      → item_at p (bs k).head ≡ some (c, rest)
      → ((q : Address) → count K q (bs k).head ≤ 1)
      → (bs k).heap p ≡ some v
      → is_free (bs k).held ≡ true
      → Settled (suc k) bs
      → given out ++ contents (bs k).heap ((c, p) ∷ rest) ≡ contents_to (suc k) bs
      → Places size bs (visit k out (some (c, rest)) (some v))
  visit-Places size k bs p out c [] v lt at once here free settled e = (
    omega arith,
    (
      settled,
      sym (append-nil (given (out ++ (c, v) ∷ [])))
          ∙ returned_one (bs k).heap p out c [] v here
          ∙ e,
    ),
  )
  visit-Places size k bs p out c ((d, q) ∷ rest) v lt at once here free settled e = (
    lt,
    d,
    rest,
    item_at-next K p q (bs k).head at (once q),
    inr (settled, free, returned_one (bs k).heap p out c ((d, q) ∷ rest) v here ∙ e),
  )

  -- The items of the buckets are allocated, and each stands once in its chain.
  pub record Stored (bs : ℕ → Shared Carrier V) : Type 0 where
    pub alive : (k : ℕ) (p : Address) → 0 < count K p (bs k).head → is_some ((bs k).heap p) ≡ true
    pub once : (k : ℕ) (p : Address) → count K p (bs k).head ≤ 1

  pub allocated_value :
      (bs : ℕ → Shared Carrier V) (k : ℕ) (p : Address) {c : Carrier}
      {rest : List (Item Carrier Address)}
      → Stored bs
      → item_at p (bs k).head ≡ some (c, rest)
      → (v : V) × ((bs k).heap p ≡ some v)
  allocated_value bs k p stored at = elim (Option-cases ((bs k).heap p)) [
    | inl e ↦
        let there = stored.alive k p (item_at-count K p (bs k).head at) in
        absurd (let f = rw e at there in ground arith)
    | inr (v, e) ↦ (v, e)
  ]

  pub turn-Places :
      (size : ℕ) (bs : ℕ → Shared Carrier V) (calls iters st : ℕ) (h : Lock) (x : Stage Carrier V)
      → Counted (calls + calling x) (iters + iterating x) (st + storing x) h
      → Stored bs
      → Places size bs x
      → Places size bs (turn size bs x h).0
  unfolding turn
  turn-Places size bs calls iters st h outside stands stored e = tt
  turn-Places size bs calls iters st h (joins k o) stands stored e =
      elim (Bool-cases (is_exclusive h)) [ inl f ↦ rw f tt | inr f ↦ rw f tt ]
  turn-Places size bs calls iters st h (starts k o) stands stored e = tt
  turn-Places size bs calls iters st h (inside k) stands stored e = tt
  turn-Places size bs calls iters st h adds stands stored e = tt
  turn-Places size bs calls iters st h leaves stands stored e =
      rw (left_lem h stands).0 (elim (Bool-cases (is_last h)) [ inl f ↦ rw f tt | inr f ↦ rw f tt ])
  turn-Places size bs calls iters st h empties stands stored e = tt
  turn-Places size bs calls iters st h opens stands stored e = elim (Bool-cases (is_free h)) [
    | inl f ↦ rw f (omega arith, ((λ l lt. absurd (omega arith)), refl))
    | inr f ↦ rw f tt
  ]
  turn-Places size bs calls iters st h (advances k out) stands stored e =
      elim (Bool-cases (ltb k size)) [
        | inl f ↦ rw f (advance-Places size k bs (bs k).head out (ground arith) refl e.1)
        | inr f ↦
            let last : k ≡ size = ground (arith, e.0) in rw f (subst (λ n. Done n bs out) last e.1)
      ]
  turn-Places size bs calls iters st h (visits k p out) stands stored (lt, c, rest, at, e) =
      elim (Bool-cases (is_free (bs k).held)) [
        | inl f ↦
            let (v, here) = allocated_value bs k p stored at in
            let (settled, there) = at_item k bs p out c rest f e in
            rw (f, at, here)
              (visit-Places size k bs p out c rest v lt at (stored.once k) here f settled there)
        | inr f ↦ rw f (lt, c, rest, at, e)
      ]
  turn-Places size bs calls iters st h (ended out) stands stored e = e
  turn-Places size bs calls iters st h closes stands stored e = rw (given_lem h stands).0 tt
  turn-Places size bs calls iters st h broken stands stored e = e
