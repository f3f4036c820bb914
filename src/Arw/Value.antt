-- ===== src/Arw/Value.antt =====
-- The value of an allocation of src/arw: guards, `fill`, `is_unique` and `try_unwrap`.
use acar.Prelude.{
  ℕ, ◌+◌, ◌^◌, ◌<◌, ◌≡◌, ◌≢◌, refl, true, false, if◌then◌else◌, ◌&&◌, none, some, List, ◌∷◌, ◌==◌,
  arith, Bool-cases, inl, inr,
}
use acar.Locking.{Locking, Held, nobody}
use acar.Outcome.{pure, ◌>>=◌, ◌>>◌, Returns, returns, mono}
use acar.Arw.{
  ArwInner, inner, locking, set_strong, set_weak, drop_lock, drop_handle, drop_val, read_data,
  write_data, dealloc, drop_weak, is_unique, try_unwrap, fill, as_ref, as_mut, drop_ref, drop_mut,
}
use acar.Arw.Counts.{Counts}

module _ (L : Locking) {T : Type 0} where
  -- The lock is there, held as given and with the given number of handles besides the allocation's,
  -- and so is the value.
  pub record Live (r : ℕ) (h : Held) (x : T) (a : ArwInner L.Lock T) : Type 0 where
    pub lock : L.Lock
    pub at : a.lock ≡ some lock
    pub held : L.Is r h lock
    pub val : a.val ≡ some x
    pub allocated : a.allocated ≡ true

  -- `fill` of a value that nobody has locked replaces it, destroys the old value, and leaves the lock
  -- free and the counts alone.
  pub fill-Live :
      {r : ℕ} (x y : T) (a : ArwInner L.Lock T)
      → Live r nobody x a
      → Returns
          (λ _ b.
            Live r nobody y b
            × (b.destroyed ≡ x ∷ a.destroyed)
            × (b.strong ≡ a.strong)
            × (b.weak ≡ a.weak))
          (fill L y a)
  unfolding fill inner locking drop_val write_data
  fill-Live x y a v =
      let (k, took, mine) = L.takes v.lock v.held in
      let (l, gave, free) = L.gives k mine in
      rw (v.allocated, v.at, took, v.val, gave, locking)
        (returns (
          record { lock = l; at = refl; held = free; val = refl; allocated = refl },
          refl,
          refl,
          refl,
        ))

  -- A write through the guard of `as_mut` is what the next `as_ref` reads, and after both guards are
  -- gone the lock is free again, with as many handles as before.
  pub as_mut-as_ref :
      {r : ℕ} (x y : T) (a : ArwInner L.Lock T)
      → Live r nobody x a
      → r + 2 < 2 ^ 64
      → Returns
          (λ (old, read) b. (old ≡ x) × (read ≡ y) × Live r nobody y b)
          ((do old ← as_mut L; drop_mut L y; read ← as_ref L; drop_ref L; pure (old, read)) a)
  unfolding as_mut drop_mut as_ref drop_ref drop_handle inner locking read_data write_data
  as_mut-as_ref x y a v room =
      let (k, took, mine) = L.takes (L.clone v.lock) (L.clone-Is v.lock nobody v.held room) in
      let (l, gave, free) = L.gives k mine in
      let (l', ended, back) = L.drop-Is l nobody free in
      let (m, opened, ours) = L.opens (L.clone l') (L.clone-Is l' nobody back room) in
      let (n, closed, free') = L.closes m ours in
      let (n', ended', back') = L.drop-Is n nobody free' in
      rw
        (
          v.allocated, v.at, took, v.val, gave, locking, drop_handle, ended, opened, closed,
          drop_handle, ended',
        )
        (returns
          (refl, refl, record { lock = n'; at = refl; held = back'; val = refl; allocated = refl }))

  -- The part of `try_unwrap` after the exchange of the strong count.
  take_out :
      (x : T) (l : L.Lock) (w : ℕ) (d : List T)
      → Returns
          (λ o b. (o ≡ some x) × (b.strong ≡ 0) × (b.val ≡ none) × (b.destroyed ≡ x ∷ d))
          ((do elem ← read_data L; drop_val L; drop_lock L; drop_weak L; pure (some elem))
            (record {
              lock = some l;
              strong = 0;
              weak = w;
              val = some x;
              allocated = true;
              destroyed = d;
            }))
  unfolding inner set_weak read_data drop_val drop_lock drop_weak dealloc
  take_out x l w d = elim (Bool-cases (w == 1)) [
    | inl last ↦ rw last (returns (refl, refl, refl, refl))
    | inr watched ↦ rw watched (returns (refl, refl, refl, refl))
  ]

  try_unwrap_shared :
      {r : ℕ} (x : T) (a : ArwInner L.Lock T)
      → Live r nobody x a
      → a.strong ≢ 1
      → Returns
          (λ o b.
            (o ≡ none)
            × Live r nobody x b
            × (b.strong ≡ a.strong)
            × (b.weak ≡ a.weak)
            × (b.destroyed ≡ a.destroyed))
          (try_unwrap L a)
  unfolding try_unwrap inner locking
  try_unwrap_shared x a v ne =
      let (k, took, mine) = L.takes v.lock v.held in
      let (l, gave, free) = L.gives k mine in
      let more : (a.strong == 1) ≡ false = ground arith in
      rw (v.allocated, v.at, took, more, gave, locking)
        (returns (
          refl,
          record { lock = l; at = refl; held = free; val = v.val; allocated = refl },
          refl,
          refl,
          refl,
        ))

  try_unwrap_unique :
      {r : ℕ} (x : T) (a : ArwInner L.Lock T)
      → Live r nobody x a
      → a.strong ≡ 1
      → Returns
          (λ o b. (o ≡ some x) × (b.strong ≡ 0) × (b.val ≡ none) × (b.destroyed ≡ x ∷ a.destroyed))
          (try_unwrap L a)
  unfolding try_unwrap inner locking set_strong
  try_unwrap_unique x a v one =
      let (k, took, mine) = L.takes v.lock v.held in
      let alone : (a.strong == 1) ≡ true = ground arith in
      rw (v.allocated, v.at, took, alone, v.val) (take_out x k a.weak a.destroyed)

  -- `try_unwrap` of a value that nobody has locked. Of the only strong handle, it returns the value and
  -- ends the strong count, but the destructor of that same value has been run as well. Of any other,
  -- it gives the handle back and leaves the value, the strong count and what is destroyed as they were.
  pub try_unwrap_lem :
      {r : ℕ} (x : T) (a : ArwInner L.Lock T)
      → Live r nobody x a
      → Returns
          (λ o b.
            let sole = a.strong == 1 in
            (o ≡ (if sole then some x else none))
            × (b.strong ≡ (if sole then 0 else a.strong))
            × (b.val ≡ (if sole then none else some x))
            × (b.destroyed ≡ (if sole then x ∷ a.destroyed else a.destroyed)))
          (try_unwrap L a)
  try_unwrap_lem x a v = elim (Bool-cases (a.strong == 1)) [
    | inl sole ↦ rw sole (mono (try_unwrap_unique x a v (ground arith)) λ _ _ h. h)
    | inr shared ↦ rw shared (
        mono (try_unwrap_shared x a v (ground arith))
          λ _ _ (none_there, live, same, _, kept). (none_there, same, live.val, kept))
  ]

  -- `is_unique` says whether there is exactly one strong handle and no weak one, and leaves the
  -- counts as they were.
  pub is_unique_lem :
      (x : T) (a : ArwInner L.Lock T) (s w : ℕ)
      → Counts x a s w
      → 0 < s
      → Returns (λ o b. (o ≡ ((s == 1) && (w == 0))) × (b ≡ a)) (is_unique L a)
  unfolding is_unique inner set_weak
  is_unique_lem x a s w c p =
      let there : a.allocated ≡ true = ground (arith, c.allocated) in
      elim (Bool-cases (a.weak == 1)) [
        | inl alone ↦ rw (there, alone) (returns (ground (arith, c.strong, c.weak), ground arith))
        | inr watched ↦ rw (there, watched) (returns (ground (arith, c.strong, c.weak), refl))
      ]
