-- ===== src/AtomicHashMap/Chain.antt =====
-- The chain of items of a bucket of src/collections/atomic_hashmap.rs, and the loops over it.
pub mod Unlinking
use mathlib.Core.Path.{subst}
use mathlib.Core.Option.{some-injective}
use acar.Prelude.{
  ap, sym, ℕ, suc, ◌+◌, ◌≡◌, total, refl, Bool, true, false, Option, none, some, List, [], ◌∷◌,
  if◌then◌else◌, length, arith, Bool-cases, Option-cases, inl, inr, ◌∙◌,
}

-- What the map relies on of a key: `Eq` is an equivalence, and equal keys have equal hashes.
pub record Key : Type 1 where
  pub Carrier : Type 0
  pub eq : Carrier → Carrier → Bool
  pub hash : Carrier → ℕ
  pub eq-refl : (a : Carrier) → eq a a ≡ true
  pub eq-sym : (a b : Carrier) → eq a b ≡ true → eq b a ≡ true
  pub eq-trans : (a b c : Carrier) → eq a b ≡ true → eq b c ≡ true → eq a c ≡ true
  pub hash-eq : (a b : Carrier) → eq a b ≡ true → hash a ≡ hash b

abbrev pub Item : Type 0 → Type 0 → Type 0
Item C V = C × V

module _ (K : Key) where
  open K use {Carrier, eq}

  pub eq_at : (a b q : Carrier) → eq a b ≡ true → eq q a ≡ eq q b
  eq_at a b q e = elim (Bool-cases (eq q a)) [
    | inl t ↦ ground (arith, K.eq-trans q a b)
    | inr f ↦ elim (Bool-cases (eq q b)) [
      | inl t ↦ ground (arith, K.eq-trans q b a, K.eq-sym a b)
      | inr g ↦ ground arith
    ]
  ]

  pub eq_comm : (a b : Carrier) → eq a b ≡ eq b a
  eq_comm a b = elim (Bool-cases (eq a b)) [
    | inl t ↦ ground (arith, K.eq-sym a b)
    | inr f ↦ elim (Bool-cases (eq b a)) [
      | inl t ↦ ground (arith, K.eq-sym b a)
      | inr g ↦ ground arith
    ]
  ]

  pub eq_left : (a b q : Carrier) → eq a b ≡ true → eq a q ≡ eq b q
  eq_left a b q e = eq_comm a q ∙ eq_at a b q e ∙ eq_comm q b

module _ (K : Key) {V : Type 0} where
  open K use {Carrier, eq}

  -- The loop of `get` and `get_mut`: the value of the first item with the key.
  unfoldable pub lookup : Carrier → List (Item Carrier V) → Option V
  lookup key [] = none
  lookup key ((k, v) ∷ items) = if eq k key then some v else lookup key items

  -- The loop of `insert`: the value that was there, and the chain with the new one in its item.
  unfoldable pub update : Carrier → V → List (Item Carrier V) → Option (V × List (Item Carrier V))
  update key value [] = none
  update key value ((k, v) ∷ items) =
      let rest = update key value items in
      if eq k key
      then some (v, (k, value) ∷ items)
      else elim rest [ none ↦ none | some (old, r) ↦ some (old, (k, v) ∷ r) ]

  -- The loop of `remove`: the value of the item, and the chain without the item.
  unfoldable pub unlink : Carrier → List (Item Carrier V) → Option (V × List (Item Carrier V))
  unlink key [] = none
  unlink key ((k, v) ∷ items) =
      let rest = unlink key items in
      if eq k key
      then some (v, items)
      else elim rest [ none ↦ none | some (old, r) ↦ some (old, (k, v) ∷ r) ]

  -- No two items have the same key.
  abbrev pub Distinct : List (Item Carrier V) → Type 0
  Distinct [] = Unit
  Distinct ((k, v) ∷ items) = (lookup k items ≡ none) × Distinct items

  pub lookup-eq :
      (a b : Carrier) (items : List (Item Carrier V))
      → eq a b ≡ true
      → lookup a items ≡ lookup b items
  unfolding lookup
  lookup-eq a b [] e = refl
  lookup-eq a b ((k, v) ∷ items) e = rw (eq_at K a b k e, lookup-eq a b items e) refl

  -- What `lookup` finds of a chain that does not have the key.
  pub absent-lookup :
      (key q : Carrier) (xs : List (Item Carrier V))
      → lookup key xs ≡ none
      → lookup q xs ≡ (if eq key q then none else lookup q xs)
  absent-lookup key q xs e = elim (Bool-cases (eq key q)) [
    | inl h ↦ rw h (sym (lookup-eq key q xs h) ∙ e)
    | inr h ↦ rw h refl
  ]

  -- The weight of the values of a chain.
  abbrev pub weight_of : (V → ℕ) → List (Item Carrier V) → ℕ
  weight_of w items = total (λ item. w item.1) items

  -- What `update` says of the chain.
  pub record Updated (key : Carrier) (value old : V) (xs ys : List (Item Carrier V)) : Type 0 where
    pub found : lookup key xs ≡ some old
    pub same_length : length ys ≡ length xs
    pub reads : (q : Carrier) → lookup q ys ≡ (if eq key q then some value else lookup q xs)
    pub distinct : Distinct xs → Distinct ys
    pub weight : (w : V → ℕ) → weight_of w ys + w old ≡ weight_of w xs + w value

  pub update-none :
      (key : Carrier) (value : V) (xs : List (Item Carrier V))
      → update key value xs ≡ none
      → lookup key xs ≡ none
  unfolding update lookup
  update-none key value [] e = refl
  update-none key value ((k, v) ∷ xs) e = elim (Bool-cases (eq k key)) [
    | inl t ↦ absurd (let f = rw t at e in ground arith)
    | inr t ↦ elim (Option-cases (update key value xs)) [
      | inl u ↦ rw t (update-none key value xs u)
      | inr (r, u) ↦ absurd (let f = rw (t, u) at e in ground arith)
    ]
  ]

  Updated-head :
      {key : Carrier} {value old : V} (k : Carrier) (v : V) (xs ys : List (Item Carrier V))
      → eq k key ≡ true
      → ◌≡◌ {A = V × List (Item Carrier V)} (v, (k, value) ∷ xs) (old, ys)
      → Updated key value old ((k, v) ∷ xs) ys
  unfolding lookup total
  Updated-head {key} {value} k v xs ys t e =
      subst (λ p. Updated key value p.0 ((k, v) ∷ xs) p.1) e
        (record {
          found = rw t refl;
          same_length = refl;
          reads = λ q. let same = eq_left K k key q t in ground arith;
          distinct = λ d. d;
          weight = λ w. omega arith;
        })

  Updated-tail :
      {key : Carrier} {value old w : V} (k : Carrier) (v : V) (xs r ys : List (Item Carrier V))
      → eq k key ≡ false
      → Updated key value w xs r
      → ◌≡◌ {A = V × List (Item Carrier V)} (w, (k, v) ∷ r) (old, ys)
      → Updated key value old ((k, v) ∷ xs) ys
  unfolding lookup total
  Updated-tail {key} {value} {w} k v xs r ys t u e =
      subst (λ p. Updated key value p.0 ((k, v) ∷ xs) p.1) e
        (record {
          found = rw t u.found;
          same_length = ap suc u.same_length;
          reads = λ q. elim (Bool-cases (eq key q)) [
            | inl h ↦ let other = sym (eq_at K key q k h) ∙ t in rw (other, u.reads q, h) refl
            | inr h ↦ let same = rw h at (u.reads q) in rw (same, h) refl
          ];
          distinct = λ d. (u.reads k ∙ rw (eq_comm K key k, t) d.0, u.distinct d.1);
          weight = λ f. omega (arith, u.weight f);
        })

  pub update-Updated :
      (key : Carrier) (value old : V) (xs ys : List (Item Carrier V))
      → update key value xs ≡ some (old, ys)
      → Updated key value old xs ys
  unfolding update lookup
  update-Updated key value old [] ys e = absurd (ground arith)
  update-Updated key value old ((k, v) ∷ xs) ys e = elim (Bool-cases (eq k key)) [
    | inl t ↦ let f = rw t at e in Updated-head k v xs ys t (some-injective _ _ f)
    | inr t ↦ elim (Option-cases (update key value xs)) [
      | inl u ↦ absurd (let f = rw (t, u) at e in ground arith)
      | inr ((w, r), u) ↦
          let f = rw (t, u) at e in
          Updated-tail k v xs r ys t (update-Updated key value w xs r u) (some-injective _ _ f)
    ]
  ]
