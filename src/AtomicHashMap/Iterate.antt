-- ===== src/AtomicHashMap/Iterate.antt =====
-- Iterators of src/collections/atomic_hashmap.rs, and the lock that they hold.
pub mod Items
use acar.Prelude.{
  ℕ, zero, suc, ◌+◌, Bool, true, false, Option, none, some, List, [], ◌∷◌, if◌then◌else◌, length,
  get_elem?, leb,
}
use acar.Locking.{Locking}
use acar.Outcome.{ok, waits, pure, ◌>>=◌, ◌>>◌}
use acar.AtomicHashMap.Chain.{Key, Item}
use acar.AtomicHashMap.{Bucket, Call, locking}

-- `current` is the rest of the chain from the item on that comes next.
pub record Iter (C V : Type 0) : Type 0 where
  pub bucket_idx : ℕ
  pub current : List (Item C V)

abbrev pub no_items : {C V : Type 0} → List (Item C V) → Bool
no_items [] = true
no_items (i ∷ items) = false

module _ (K : Key) (L : Locking) {V : Type 0} where
  abbrev pub head_at : List (Bucket K.Carrier L.Lock V) → ℕ → List (Item K.Carrier V)
  head_at bs i = elim (get_elem? bs i) [ none ↦ [] | some b ↦ b.head ]

  -- The loop goes over each bucket at most once; the fuel is the number of buckets.
  unfoldable pub advance_bucket :
      ℕ → List (Bucket K.Carrier L.Lock V) → Iter K.Carrier V → Iter K.Carrier V
  advance_bucket zero bs it = it
  advance_bucket (suc n) bs it =
      let here = head_at bs it.bucket_idx in
      let later = advance_bucket n bs (record { bucket_idx = it.bucket_idx + 1; current = [] }) in
      if leb (length bs) it.bucket_idx
      then it
      else (if no_items it.current
          then (if no_items here then later else record it { current = here })
          else it)

  -- `Iter::new`
  unfoldable pub first_item : Call K L V (Iter K.Carrier V)
  first_item m =
      ok (advance_bucket (length m.buckets) m.buckets (record { bucket_idx = 0; current = [] })) m

  -- `iter`, up to its guard: the map is locked against every call.
  unfoldable pub iter : Call K L V (Iter K.Carrier V)
  iter = do locking K L L.lock_exclusive; first_item

  -- A bucket whose values are locked is waited for; with no other thread to unlock it, without end.
  abbrev pub step_on :
      List (Bucket K.Carrier L.Lock V)
      → ℕ
      → List (Item K.Carrier V)
      → Option (Item K.Carrier V) × Iter K.Carrier V
  step_on bs i [] = (none, record { bucket_idx = i; current = [] })
  step_on bs i (item ∷ []) =
      (some item, advance_bucket (length bs) bs (record { bucket_idx = i + 1; current = [] }))
  step_on bs i (item ∷ c ∷ rest) = (some item, record { bucket_idx = i; current = c ∷ rest })

  unfoldable pub next : Iter K.Carrier V → Call K L V (Option (Item K.Carrier V) × Iter K.Carrier V)
  next it m = elim (get_elem? m.buckets it.bucket_idx) [
    | none ↦ ok (none, it) m
    | some b ↦
        if no_items it.current
        then ok (none, it) m
        else (if L.is_locked_exclusive b.ref_locked
            then waits
            else ok (step_on m.buckets it.bucket_idx it.current) m)
  ]

  -- A `for` loop over an iterator, with fuel for its rounds.
  unfoldable pub collect : ℕ → Iter K.Carrier V → Call K L V (List (Item K.Carrier V))
  collect zero it = λ m. waits
  collect (suc n) it = do
    (o, later) ← next it
    elim o as (λ o. Call K L V (List (Item K.Carrier V))) [
      | none ↦ pure []
      | some item ↦ do rest ← collect n later; pure (item ∷ rest)
    ]

  unfoldable pub drop_iter : Call K L V (Unit {0})
  drop_iter = locking K L L.unlock_exclusive
