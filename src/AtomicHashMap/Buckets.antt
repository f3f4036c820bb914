-- ===== src/AtomicHashMap/Buckets.antt =====
-- What the calls of src/collections/atomic_hashmap.rs do in one bucket.
use acar.Prelude.{
  ℕ, suc, ◌+◌, ◌≡◌, refl, Bool, true, Option, none, some, List, ◌∷◌, if◌then◌else◌, length, is_some,
  total, arith, Option-cases, inl, inr, sym, not,
}
use acar.Locking.{Locking, Held, nobody}
use acar.Outcome.{Returns, returns}
use acar.AtomicHashMap.Chain.{
  Key, weight_of, lookup, update, unlink, Distinct, update-none, update-Updated, absent-lookup,
}
use acar.AtomicHashMap.Chain.Unlinking.{unlink-none, unlink-Removed}
use acar.AtomicHashMap.{
  Bucket, lock_bucket, release, ref_locking, load_head, insert_at, get_at, unlink_at, store_head,
  destroy, insert_in, get_in, unlink_in, reclaim_in,
}

-- The values destroyed, once an old value has been replaced.
abbrev pub dropped {ℓ} : {V : Type ℓ} → Option V → List V → List V
dropped none vs = vs
dropped (some v) vs = v ∷ vs

abbrev pub in_option {ℓ} : {V : Type ℓ} → (V → ℕ) → Option V → ℕ
in_option w none = 0
in_option w (some v) = w v

module _ (K : Key) (L : Locking) {V : Type 0} where
  open L use {Lock}
  open K use {Carrier}

  -- The weight of the values that a bucket has or has destroyed.
  abbrev pub kept : (V → ℕ) → Bucket Carrier Lock V → ℕ
  kept w b = weight_of K w b.head + total w b.destroyed

  -- Nobody updates the bucket, its values are held as given, and no two items have the same key.
  pub record Good (r : ℕ) (h : Held) (b : Bucket Carrier Lock V) : Type 0 where
    pub free : b.available ≡ true
    pub held : L.Is r h b.ref_locked
    pub distinct : Distinct K b.head

  pub record Inserted (key : Carrier) (value : V) (b : Bucket Carrier Lock V) (added : Bool)
      (c : Bucket Carrier Lock V) : Type 0 where
    pub good : Good 0 nobody c
    pub size : length c.head ≡ (if added then suc (length b.head) else length b.head)
    pub reads :
        (q : Carrier) → lookup K q c.head ≡ (if K.eq key q then some value else lookup K q b.head)
    pub destroyed : c.destroyed ≡ dropped (lookup K key b.head) b.destroyed
    pub is_new : added ≡ not (is_some (lookup K key b.head))
    pub weight : (w : V → ℕ) → kept w c ≡ kept w b + w value

  pub insert_in-Inserted :
      (key : Carrier) (value : V) (b : Bucket Carrier Lock V)
      → Good 0 nobody b
      → Returns (Inserted key value b) (insert_in K L key value b)
  unfolding insert_in insert_at lock_bucket load_head store_head destroy release ref_locking lookup
      total
  insert_in-Inserted key value b g = elim (Option-cases (update K key value b.head)) [
    | inl e ↦
        let missing = update-none K key value b.head e in
        rw (g.free, load_head, insert_at, e)
          (returns (record {
            good = record { free = refl; held = g.held; distinct = (missing, g.distinct) };
            size = refl;
            reads = λ q. refl;
            destroyed = rw missing refl;
            is_new = rw missing refl;
            weight = λ w. omega arith;
          }))
    | inr ((old, rest), e) ↦
        let (l, took, mine) = L.takes b.ref_locked g.held in
        let (k, gave, back) = L.gives l mine in
        let u = update-Updated K key value old b.head rest e in
        rw (g.free, load_head, insert_at, e, took, ref_locking, gave)
          (returns (record {
            good = record { free = refl; held = back; distinct = u.distinct g.distinct };
            size = u.same_length;
            reads = u.reads;
            destroyed = rw u.found refl;
            is_new = rw u.found refl;
            weight = λ w. omega (arith, u.weight w);
          }))
  ]

  -- The bucket once a value has been looked up: a handle of its lock is held as `take` left it.
  pub record Got (key : Carrier) (h : Held) (b : Bucket Carrier Lock V) (o : Option V)
      (c : Bucket Carrier Lock V) : Type 0 where
    pub found : o ≡ lookup K key b.head
    pub good : Good (if is_some o then 1 else 0) (if is_some o then h else nobody) c
    pub same : c.head ≡ b.head
    pub gone : c.destroyed ≡ b.destroyed

  pub get_in-Got :
      (take : Lock → Option Lock) (key : Carrier) (h : Held) (b : Bucket Carrier Lock V)
      → Good 0 nobody b
      → ((l : Lock) × (take b.ref_locked ≡ some l) × L.Is 0 h l)
      → Returns (Got key h b) (get_in K L take key b)
  unfolding get_in get_at lock_bucket load_head release ref_locking
  get_in-Got take key h b g (l, took, mine) = elim (Option-cases (lookup K key b.head)) [
    | inl e ↦
        rw (g.free, load_head, get_at, e)
          (returns (record {
            found = sym e;
            good = record { free = refl; held = g.held; distinct = g.distinct };
            same = refl;
            gone = refl;
          }))
    | inr (v, e) ↦
        rw (g.free, load_head, get_at, e, took, ref_locking)
          (returns (record {
            found = sym e;
            good = record {
              free = refl;
              held = L.clone-Is l h mine (omega arith);
              distinct = g.distinct;
            };
            same = refl;
            gone = refl;
          }))
  ]

  -- The bucket once an item is out of the chain; it is still locked if one was.
  pub record Taken (key : Carrier) (b : Bucket Carrier Lock V) (o : Option V)
      (c : Bucket Carrier Lock V) : Type 0 where
    pub found : o ≡ lookup K key b.head
    pub free : c.available ≡ not (is_some o)
    pub held : L.Is 0 nobody c.ref_locked
    pub distinct : Distinct K c.head
    pub size : length c.head + (if is_some o then 1 else 0) ≡ length b.head
    pub reads : (q : Carrier) → lookup K q c.head ≡ (if K.eq key q then none else lookup K q b.head)
    pub destroyed : c.destroyed ≡ b.destroyed
    pub weight : (w : V → ℕ) → kept w c + in_option w o ≡ kept w b

  pub unlink_in-Taken :
      (key : Carrier) (b : Bucket Carrier Lock V)
      → Good 0 nobody b
      → Returns (Taken key b) (unlink_in K L key b)
  unfolding unlink_in unlink_at lock_bucket load_head store_head release
  unlink_in-Taken key b g = elim (Option-cases (unlink K key b.head)) [
    | inl e ↦
        let missing = unlink-none K key b.head e in
        rw (g.free, load_head, unlink_at, e)
          (returns (record {
            found = sym missing;
            free = refl;
            held = g.held;
            distinct = g.distinct;
            size = omega arith;
            reads = λ q. absent-lookup K key q b.head missing;
            destroyed = refl;
            weight = λ w. omega arith;
          }))
    | inr ((old, rest), e) ↦
        let u = unlink-Removed K key old b.head rest g.distinct e in
        rw (g.free, load_head, unlink_at, e)
          (returns (record {
            found = sym u.found;
            free = refl;
            held = g.held;
            distinct = u.distinct;
            size = omega (arith, u.shorter);
            reads = u.reads;
            destroyed = refl;
            weight = λ w. omega (arith, u.weight w);
          }))
  ]

  pub reclaim_in-Good :
      (b : Bucket Carrier Lock V)
      → L.Is 0 nobody b.ref_locked
      → Distinct K b.head
      → Returns
          (λ _ c. Good 0 nobody c × (c.head ≡ b.head) × (c.destroyed ≡ b.destroyed))
          (reclaim_in K L b)
  unfolding reclaim_in release ref_locking
  reclaim_in-Good b held d =
      let (l, took, mine) = L.takes b.ref_locked held in
      let (k, gave, back) = L.gives l mine in
      rw (took, ref_locking, gave)
        (returns (record { free = refl; held = back; distinct = d }, refl, refl))
