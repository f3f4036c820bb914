-- ===== src/AtomicHashMap/Visits/Kept.antt =====
-- What the drop of a guard leaves of where an iterator of src/collections/atomic_hashmap.rs stands.
use acar.Prelude.{
  ℕ, suc, ◌≡◌, refl, true, List, [], ◌∷◌, ◌++◌, ◌==◌, ◌⊎◌, arith, Bool-cases, inl, inr, ap, sym,
  ◌∙◌,
}
use acar.Utils.{Address}
use acar.AtomicHashMap.Chain.{Item}
use acar.AtomicHashMap.Threads.{Shared}
use acar.AtomicHashMap.Locks.{is_free}
use acar.AtomicHashMap.Visits.{
  Stage, outside, joins, starts, inside, adds, leaves, empties, opens, advances, visits, ended,
  closes, broken, item_at,
}
use acar.AtomicHashMap.Visits.Chains.{given, contents, contents_to, contents_to-same}
use acar.AtomicHashMap.Visits.Places.{Settled, Done, AtItem, Places}

module _ {C V : Type 0} where
  -- Bucket `k` is settled as well.
  pub settle :
      (k : ℕ) (bs : ℕ → Shared C V)
      → Settled k bs
      → (is_free (bs k).held ≡ true) ⊎ ((bs k).head ≡ [])
      → Settled (suc k) bs
  settle k bs before here l lt = elim (Bool-cases (l == k)) [
    | inl e ↦ let same : l ≡ k = ground arith in rw same here
    | inr e ↦ before l (ground arith)
  ]

  -- What the drops of guards leave: the chains, and buckets with no guard.
  pub record Kept (bs cs : ℕ → Shared C V) : Type 0 where
    pub chain : (l : ℕ) → (cs l).head ≡ (bs l).head
    pub unlocked : (l : ℕ) → is_free (bs l).held ≡ true → cs l ≡ bs l

  module _ {bs cs : ℕ → Shared C V} (kept : Kept bs cs) where
    Settled-kept : (k : ℕ) → Settled k bs → Settled k cs
    Settled-kept k settled l lt = elim (settled l lt) [
      | inl e ↦ inl (ap (λ s. is_free s.held) (kept.unlocked l e) ∙ e)
      | inr e ↦ inr (kept.chain l ∙ e)
    ]

    contents-kept :
        (l : ℕ)
        → (is_free (bs l).held ≡ true) ⊎ ((bs l).head ≡ [])
        → contents (cs l).heap (cs l).head ≡ contents (bs l).heap (bs l).head
    contents-kept l (inl e) = ap (λ s. contents s.heap s.head) (kept.unlocked l e)
    contents-kept l (inr e) = rw (kept.chain l, e) refl

    contents_to-kept : (k : ℕ) → Settled k bs → contents_to k cs ≡ contents_to k bs
    contents_to-kept k settled = contents_to-same k bs cs (λ l lt. contents-kept l (settled l lt))

    Done-kept : (k : ℕ) (out : List (Item C V)) → Done k bs out → Done k cs out
    Done-kept k out (settled, e) = (Settled-kept k settled, e ∙ sym (contents_to-kept k settled))

    AtItem-kept :
        (k : ℕ) (p : Address) (c : C) (rest : List (Item C Address)) (out : List (Item C V))
        → AtItem k p c rest bs out
        → AtItem k p c rest cs out
    AtItem-kept k p c rest out (inl (done, e)) = inl (Done-kept k out done, kept.chain k ∙ e)
    AtItem-kept k p c rest out (inr (settled, free, e)) = inr (
      Settled-kept (suc k) settled,
      ap (λ s. is_free s.held) (kept.unlocked k free) ∙ free,
      ap (λ s. given out ++ contents s.heap ((c, p) ∷ rest)) (kept.unlocked k free)
          ∙ e
          ∙ sym (contents_to-kept (suc k) settled),
    )

    pub Places-kept : (size : ℕ) (x : Stage C V) → Places size bs x → Places size cs x
    Places-kept size outside e = tt
    Places-kept size (joins k o) e = tt
    Places-kept size (starts k o) e = tt
    Places-kept size (inside k) e = tt
    Places-kept size adds e = tt
    Places-kept size leaves e = tt
    Places-kept size empties e = tt
    Places-kept size opens e = tt
    Places-kept size (advances k out) (le, done) = (le, Done-kept k out done)
    Places-kept size (visits k p out) (lt, c, rest, at, e) =
        (lt, c, rest, ap (item_at p) (kept.chain k) ∙ at, AtItem-kept k p c rest out e)
    Places-kept size (ended out) done = Done-kept size out done
    Places-kept size closes e = tt
    Places-kept size broken e = e
