-- ===== src/AtomicHashMap/World/Agrees.antt =====
-- What the chain of a bucket of src/collections/atomic_hashmap.rs and a write to it say of the log.
use acar.Prelude.{
  ℕ, ◌<◌, ◌≤◌, ◌≡◌, refl, true, Option, none, some, ◌∷◌, ◌==◌, if◌then◌else◌, is_some, arith,
  Bool-cases, inl, inr, ◌∙◌, ap,
}
use acar.Utils.{Address}
use acar.AtomicHashMap.Chain.{Key, lookup}
use acar.AtomicHashMap.Log.{
  count, latest, value_of, lookup-count, value_of-store_other, value_of-store,
}
use acar.AtomicHashMap.Threads.{Shared, store}
use acar.AtomicHashMap.World.{World}

module _ (K : Key) {V : Type 0} {s : Shared K.Carrier V} {lk rd ow st : ℕ} {n : Address → ℕ}
    (w : World K s lk rd ow st n) where
  open K use {Carrier}

  -- An item of the chain is allocated, and stands there once.
  pub in_chain : (p : Address) → 0 < count K p s.head → is_some (s.heap p) ≡ true
  in_chain p pos = ground (arith, w.placed p)

  once : (p : Address) → count K p s.head ≤ 1
  once p = ground (arith, w.placed p)

  -- A write at the address of a key, and at one that is in no chain.
  pub stored_agrees :
      (key q : Carrier) (p : Address) (value : V)
      → lookup K key s.head ≡ some p
      → value_of K q s.head (store s.heap p (some value)) ≡ latest K q ((key, some value) ∷ s.log)
  unfolding latest
  stored_agrees key q p value at =
      value_of-store K key q s.head s.heap p value at (once p)
      ∙ ap (λ o. if K.eq key q then some value else o) (w.agrees q)

  pub outside_agrees :
      (q : Carrier) (p : Address) (c : Option V)
      → count K p s.head ≡ 0
      → value_of K q s.head (store s.heap p c) ≡ latest K q s.log
  outside_agrees q p c out =
      value_of-store_other K q s.head s.heap p c
        (λ there. let here = lookup-count K q s.head p there in omega arith)
      ∙ w.agrees q

  -- A new item.
  pub added_agrees :
      (key q : Carrier) (p : Address) (value : V)
      → s.heap p ≡ none
      → value_of K q ((key, p) ∷ s.head) (store s.heap p (some value))
        ≡ latest K q ((key, some value) ∷ s.log)
  unfolding latest lookup
  added_agrees key q p value fresh = elim (Bool-cases (K.eq key q)) [
    | inl e ↦ let self : (p == p) ≡ true = ground arith in rw (e, self) refl
    | inr e ↦ rw e (outside_agrees q p (some value) (ground (arith, w.placed p, fresh)))
  ]
