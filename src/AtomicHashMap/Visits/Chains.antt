-- ===== src/AtomicHashMap/Visits/Chains.antt =====
-- The items of a chain of src/collections/atomic_hashmap.rs in the order in which an iterator visits
-- them.
use acar.Prelude.{
  ℕ, zero, suc, ◌<◌, ◌≤◌, ◌≡◌, refl, true, false, Option, some, List, [], ◌∷◌, ◌++◌, ◌==◌, total,
  arith, Bool-cases, inl, inr, ap, sym, ◌∙◌,
}
use mathlib.Core.Option.{some-injective}
use acar.Utils.{Address}
use acar.AtomicHashMap.Chain.{Key, Item, Distinct, lookup, lookup-eq}
use acar.AtomicHashMap.Log.{count, key_at-some, latest, value_of, value_at}
use acar.AtomicHashMap.Threads.{key_at, Shared}
use acar.AtomicHashMap.Visits.{item_at}

module _ {C V : Type 0} where
  -- Items as what their keys have.
  abbrev pub given : List (Item C V) → List (C × Option V)
  given [] = []
  given ((c, v) ∷ items) = (c, some v) ∷ given items

  pub given-append : (xs ys : List (Item C V)) → given (xs ++ ys) ≡ given xs ++ given ys
  given-append [] ys = refl
  given-append ((c, v) ∷ xs) ys = ap (λ r. (c, some v) ∷ r) (given-append xs ys)

  -- What the keys of a chain have.
  abbrev pub contents : (Address → Option V) → List (Item C Address) → List (C × Option V)
  contents h [] = []
  contents h ((c, p) ∷ items) = (c, h p) ∷ contents h items

  -- What the keys of the first buckets have.
  abbrev pub contents_to : ℕ → (ℕ → Shared C V) → List (C × Option V)
  contents_to zero bs = []
  contents_to (suc k) bs = contents_to k bs ++ contents (bs k).heap (bs k).head

  pub contents_to-same :
      (k : ℕ) (bs cs : ℕ → Shared C V)
      → ((l : ℕ) → l < k → contents (cs l).heap (cs l).head ≡ contents (bs l).heap (bs l).head)
      → contents_to k cs ≡ contents_to k bs
  contents_to-same zero bs cs same = refl
  contents_to-same (suc k) bs cs same =
      rw (contents_to-same k bs cs (λ l lt. same l (omega arith)), same k (omega arith)) refl

module _ (K : Key) where
  open K use {Carrier}

  pub item_at-count :
      (p : Address) (items : List (Item Carrier Address)) {c : Carrier}
      {rest : List (Item Carrier Address)}
      → item_at p items ≡ some (c, rest)
      → 0 < count K p items
  unfolding item_at total
  item_at-count p [] e = absurd (ground arith)
  item_at-count p ((k, q) ∷ items) e = elim (Bool-cases (p == q)) [
    | inl h ↦ rw h (omega arith)
    | inr h ↦ let later = item_at-count p items (rw h at e) in rw h (omega (arith, later))
  ]

  pub item_at-key :
      (p : Address) (items : List (Item Carrier Address)) {c : Carrier}
      {rest : List (Item Carrier Address)}
      → item_at p items ≡ some (c, rest)
      → key_at p items ≡ some c
  unfolding item_at key_at
  item_at-key p [] e = absurd (ground arith)
  item_at-key p ((k, q) ∷ items) e = elim (Bool-cases (p == q)) [
    | inl h ↦ rw h (ap {B = Option Carrier} (λ r. some r.0) (some-injective _ _ (rw h at e)))
    | inr h ↦ rw h (item_at-key p items (rw h at e))
  ]

  pub item_at-lookup :
      (p : Address) (items : List (Item Carrier Address)) {c : Carrier}
      {rest : List (Item Carrier Address)}
      → item_at p items ≡ some (c, rest)
      → Distinct K items
      → lookup K c items ≡ some p
  item_at-lookup p items {c} e d = key_at-some K p c items (item_at-key p items e) d

  -- The chain that follows an item begins with an item of the chain.
  pub item_at-next :
      (p q : Address) (items : List (Item Carrier Address)) {c d : Carrier}
      {rest : List (Item Carrier Address)}
      → item_at p items ≡ some (c, (d, q) ∷ rest)
      → count K q items ≤ 1
      → item_at q items ≡ some (d, rest)
  unfolding item_at total
  item_at-next p q [] e once = absurd (ground arith)
  item_at-next p q ((k, a) ∷ items) {c} {d} {rest} e once = elim (Bool-cases (p == a)) [
    | inl h ↦
        let tail : items ≡ (d, q) ∷ rest =
          ap {B = List (Item Carrier Address)} (λ r. r.1) (some-injective _ _ (rw h at e)) in
        let self : (q == q) ≡ true = ground arith in
        let here : 0 < count K q items = rw (tail, self) (omega arith) in
        let apart : (q == a) ≡ false = ground arith in rw (apart, tail) (ground arith)
    | inr h ↦
        let later = item_at-next p q items (rw h at e) (omega arith) in
        let here = item_at-count q items later in
        let apart : (q == a) ≡ false = ground arith in rw apart later
  ]

module _ (K : Key) {V : Type 0} where
  open K use {Carrier, eq}

  -- The keys of a chain, each with the value that the latest write to it gave it.
  abbrev pub logged :
      List (Carrier × Option V) → List (Item Carrier Address) → List (Carrier × Option V)
  logged log [] = []
  logged log ((c, p) ∷ items) = (c, latest K c log) ∷ logged log items

  abbrev pub logged_to : ℕ → (ℕ → Shared Carrier V) → List (Carrier × Option V)
  logged_to zero bs = []
  logged_to (suc k) bs = logged_to k bs ++ logged (bs k).log (bs k).head

  contents-logged :
      (h : Address → Option V) (log : List (Carrier × Option V))
      (items : List (Item Carrier Address))
      → Distinct K items
      → ((q : Carrier) (p : Address) → lookup K q items ≡ some p → h p ≡ latest K q log)
      → contents h items ≡ logged log items
  unfolding lookup
  contents-logged h log [] d all = refl
  contents-logged h log ((c, p) ∷ items) d all =
      let own : eq c c ≡ true = K.eq-refl c in
      let here = all c p (rw own refl) in
      let later = contents-logged h log items d.1 λ q a e. all q a (elim (Bool-cases (eq c q)) [
        | inl f ↦ absurd (let g = sym e ∙ sym (lookup-eq K c q items f) ∙ d.0 in ground arith)
        | inr f ↦ rw f e
      ]) in
      rw (here, later) refl

  pub contents_to-logged :
      (size : ℕ) (bs : ℕ → Shared Carrier V)
      → ((k : ℕ) → Distinct K (bs k).head)
      → ((k : ℕ) (q : Carrier) → value_of K q (bs k).head (bs k).heap ≡ latest K q (bs k).log)
      → contents_to size bs ≡ logged_to size bs
  contents_to-logged zero bs d agrees = refl
  contents_to-logged (suc k) bs d agrees =
      let here =
        contents-logged (bs k).heap (bs k).log (bs k).head (d k)
          λ q p e. sym (ap (value_at K (bs k).heap) e) ∙ agrees k q in
      rw (contents_to-logged k bs d agrees, here) refl
