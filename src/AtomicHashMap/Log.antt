-- ===== src/AtomicHashMap/Log.antt =====
-- The value of a key in a bucket of src/collections/atomic_hashmap.rs whose items stand in memory, and the
-- value that a record of past writes gives it.
use acar.Prelude.{
  ℕ, ◌<◌, ◌≤◌, ◌≡◌, ◌≢◌, refl, true, Option, none, some, List, [], ◌∷◌, ◌==◌, if◌then◌else◌, total,
  arith, Bool-cases, Option-cases, inl, inr, sym, ◌∙◌, ap,
}
use mathlib.Core.Option.{some-injective}
use acar.Utils.{Address}
use acar.AtomicHashMap.Chain.{Key, Item, lookup, weight_of, Distinct, lookup-eq}
use acar.AtomicHashMap.Threads.{key_at, store}

-- 1 for an item at the address.
abbrev pub is_at : Address → Address → ℕ
is_at a p = if a == p then 1 else 0

module _ (K : Key) where
  open K use {Carrier, eq}

  -- How often the chain has the item at an address.
  abbrev pub count : Address → List (Item Carrier Address) → ℕ
  count a items = weight_of K (is_at a) items

  pub lookup-count :
      (key : Carrier) (items : List (Item Carrier Address)) (p : Address)
      → lookup K key items ≡ some p
      → 0 < count p items
  unfolding lookup total
  lookup-count key [] p e = absurd (ground arith)
  lookup-count key ((k, q) ∷ rest) p e = elim (Bool-cases (eq k key)) [
    | inl h ↦ let f = rw h at e in let same = some-injective _ _ f in ground arith
    | inr h ↦ let f = rw h at e in omega (arith, lookup-count key rest p f)
  ]

  -- Keys that find the same item are equal.
  pub same_key :
      (key q : Carrier) (items : List (Item Carrier Address)) (p : Address)
      → lookup K key items ≡ some p
      → lookup K q items ≡ some p
      → count p items ≤ 1
      → eq key q ≡ true
  unfolding lookup total
  same_key key q [] p e f once = absurd (ground arith)
  same_key key q ((k, a) ∷ rest) p e f once = elim (Bool-cases (eq k key)) [
    | inl h ↦ elim (Bool-cases (eq k q)) [
      | inl g ↦ K.eq-trans key k q (K.eq-sym k key h) g
      | inr g ↦
          let here = some-injective _ _ (rw h at e) in
          let later = lookup-count q rest p (rw g at f) in absurd (ground arith)
    ]
    | inr h ↦ elim (Bool-cases (eq k q)) [
      | inl g ↦
          let here = some-injective _ _ (rw g at f) in
          let later = lookup-count key rest p (rw h at e) in absurd (ground arith)
      | inr g ↦ same_key key q rest p (rw h at e) (rw g at f) (omega arith)
    ]
  ]

  pub key_at-none :
      (p : Address) (items : List (Item Carrier Address))
      → key_at p items ≡ none
      → count p items ≡ 0
  unfolding key_at total
  key_at-none p [] e = refl
  key_at-none p ((k, q) ∷ rest) e = elim (Bool-cases (p == q)) [
    | inl h ↦ absurd (let f = rw h at e in ground arith)
    | inr h ↦ let f = rw h at e in rw h (omega (arith, key_at-none p rest f))
  ]

  pub key_at-some :
      (p : Address) (k : Carrier) (items : List (Item Carrier Address))
      → key_at p items ≡ some k
      → Distinct K items
      → lookup K k items ≡ some p
  unfolding key_at lookup
  key_at-some p k [] e d = absurd (ground arith)
  key_at-some p k ((c, q) ∷ rest) e d = elim (Bool-cases (p == q)) [
    | inl h ↦
        let same : c ≡ k = some-injective _ _ (rw h at e) in
        let own : eq c k ≡ true = rw (← same) (K.eq-refl c) in
        let at : q ≡ p = ground arith in rw own (ap (λ a. some a) at)
    | inr h ↦
        let found = key_at-some p k rest (rw h at e) d.1 in
        elim (Bool-cases (eq c k)) [
          | inl g ↦ absurd (let f = sym found ∙ sym (lookup-eq K c k rest g) ∙ d.0 in ground arith)
          | inr g ↦ rw g found
        ]
  ]

module _ (K : Key) {V : Type 0} where
  open K use {Carrier, eq}

  -- The value that the latest entry for the key gives it.
  unfoldable pub latest : Carrier → List (Carrier × Option V) → Option V
  latest q [] = none
  latest q ((key, o) ∷ log) = if eq key q then o else latest q log

  abbrev pub value_at : (Address → Option V) → Option Address → Option V
  value_at h none = none
  value_at h (some p) = h p

  -- The value of a key: the one at the address that the chain has for it.
  abbrev pub value_of : Carrier → List (Item Carrier Address) → (Address → Option V) → Option V
  value_of q items h = value_at h (lookup K q items)

  -- A write at an address that the chain does not have for the key.
  pub value_of-store_other :
      (q : Carrier) (items : List (Item Carrier Address)) (h : Address → Option V) (p : Address)
      (c : Option V)
      → lookup K q items ≢ some p
      → value_of q items (store h p c) ≡ value_of q items h
  value_of-store_other q items h p c other = elim (Option-cases (lookup K q items)) [
    | inl e ↦ rw e refl
    | inr (a, e) ↦ elim (Bool-cases (a == p)) [
      | inl same ↦ absurd (let at : a ≡ p = ground arith in other (e ∙ ap (λ b. some b) at))
      | inr apart ↦ rw (e, apart) refl
    ]
  ]

  -- A write at the address that the chain has for a key gives that key the value.
  pub value_of-store :
      (key q : Carrier) (items : List (Item Carrier Address)) (h : Address → Option V) (p : Address)
      (value : V)
      → lookup K key items ≡ some p
      → count K p items ≤ 1
      → value_of q items (store h p (some value))
        ≡ (if eq key q then some value else value_of q items h)
  value_of-store key q items h p value at once = elim (Bool-cases (eq key q)) [
    | inl e ↦
        let same : lookup K q items ≡ some p = sym (lookup-eq K key q items e) ∙ at in
        let self : (p == p) ≡ true = ground arith in rw (e, same, self) refl
    | inr e ↦ rw e (
        value_of-store_other q items h p (some value)
          λ there. let equal = same_key K key q items p at there once in cc)
  ]
