-- ===== src/AtomicHashMap/Chain/Unlinking.antt =====
-- What `remove` of src/collections/atomic_hashmap.rs makes of the chain of a bucket.
use mathlib.Core.Path.{subst}
use mathlib.Core.Option.{some-injective}
use acar.Prelude.{
  ap, sym, ℕ, suc, ◌+◌, ◌≡◌, total, refl, true, false, none, some, List, [], ◌∷◌, if◌then◌else◌,
  length, arith, Bool-cases, Option-cases, inl, inr, ◌∙◌,
}
use acar.AtomicHashMap.Chain.{
  Key, Item, eq_at, eq_left, eq_comm, lookup, unlink, Distinct, lookup-eq, weight_of,
}

module _ (K : Key) {V : Type 0} where
  open K use {Carrier, eq}

  -- What `unlink` says of a chain with no two equal keys.
  pub record Removed (key : Carrier) (old : V) (xs ys : List (Item Carrier V)) : Type 0 where
    pub found : lookup K key xs ≡ some old
    pub shorter : suc (length ys) ≡ length xs
    pub reads : (q : Carrier) → lookup K q ys ≡ (if eq key q then none else lookup K q xs)
    pub distinct : Distinct K ys
    pub weight : (w : V → ℕ) → weight_of K w ys + w old ≡ weight_of K w xs

  pub unlink-none :
      (key : Carrier) (xs : List (Item Carrier V)) → unlink K key xs ≡ none → lookup K key xs ≡ none
  unfolding unlink lookup
  unlink-none key [] e = refl
  unlink-none key ((k, v) ∷ xs) e = elim (Bool-cases (eq k key)) [
    | inl t ↦ absurd (let f = rw t at e in ground arith)
    | inr t ↦ elim (Option-cases (unlink K key xs)) [
      | inl u ↦ rw t (unlink-none key xs u)
      | inr (r, u) ↦ absurd (let f = rw (t, u) at e in ground arith)
    ]
  ]

  Removed-head :
      {key : Carrier} {old : V} (k : Carrier) (v : V) (xs ys : List (Item Carrier V))
      → eq k key ≡ true
      → Distinct K ((k, v) ∷ xs)
      → ◌≡◌ {A = V × List (Item Carrier V)} (v, xs) (old, ys)
      → Removed key old ((k, v) ∷ xs) ys
  unfolding lookup total
  Removed-head {key} k v xs ys t d e =
      subst (λ p. Removed key p.0 ((k, v) ∷ xs) p.1) e
        (record {
          found = rw t refl;
          shorter = refl;
          reads = λ q. elim (Bool-cases (eq key q)) [
            | inl h ↦
                let same = eq_left K k key q t ∙ h in rw h (sym (lookup-eq K k q xs same) ∙ d.0)
            | inr h ↦ let same = eq_left K k key q t ∙ h in rw (h, same) refl
          ];
          distinct = d.1;
          weight = λ w. omega arith;
        })

  Removed-tail :
      {key : Carrier} {old w : V} (k : Carrier) (v : V) (xs r ys : List (Item Carrier V))
      → eq k key ≡ false
      → lookup K k xs ≡ none
      → Removed key w xs r
      → ◌≡◌ {A = V × List (Item Carrier V)} (w, (k, v) ∷ r) (old, ys)
      → Removed key old ((k, v) ∷ xs) ys
  unfolding lookup total
  Removed-tail {key} {w} k v xs r ys t d u e =
      subst (λ p. Removed key p.0 ((k, v) ∷ xs) p.1) e
        (record {
          found = rw t u.found;
          shorter = ap suc u.shorter;
          reads = λ q. elim (Bool-cases (eq key q)) [
            | inl h ↦ let other = sym (eq_at K key q k h) ∙ t in rw (other, u.reads q, h) refl
            | inr h ↦ let same = rw h at (u.reads q) in rw (same, h) refl
          ];
          distinct = (u.reads k ∙ rw (eq_comm K key k, t) d, u.distinct);
          weight = λ f. omega (arith, u.weight f);
        })

  pub unlink-Removed :
      (key : Carrier) (old : V) (xs ys : List (Item Carrier V))
      → Distinct K xs
      → unlink K key xs ≡ some (old, ys)
      → Removed key old xs ys
  unfolding unlink lookup
  unlink-Removed key old [] ys d e = absurd (ground arith)
  unlink-Removed key old ((k, v) ∷ xs) ys d e = elim (Bool-cases (eq k key)) [
    | inl t ↦ let f = rw t at e in Removed-head k v xs ys t d (some-injective _ _ f)
    | inr t ↦ elim (Option-cases (unlink K key xs)) [
      | inl u ↦ absurd (let f = rw (t, u) at e in ground arith)
      | inr ((w, r), u) ↦
          let f = rw (t, u) at e in
          Removed-tail k v xs r ys t d.0 (unlink-Removed key w xs r d.1 u) (some-injective _ _ f)
    ]
  ]
