-- ===== src/AtomicHashMap/Iterate/Items.antt =====
-- Which items an iterator of src/collections/atomic_hashmap.rs returns.
use acar.Prelude.{
  ℕ, zero, suc, ◌+◌, ◌<◌, ◌≤◌, ◌≡◌, refl, true, none, some, List, [], ◌∷◌, ◌++◌, length, get_elem?,
  leb, arith, Bool-cases, inl, inr, ◌∙◌, ap, sym, total, get_elem?-some, length-append,
}
use acar.Locking.{Locking}
use acar.Outcome.{ok, pure, ◌>>=◌, ◌>>◌, Returns, returns}
use acar.AtomicHashMap.Chain.{Key, Item}
use acar.AtomicHashMap.{Bucket, AtomicInner, locking}
use acar.AtomicHashMap.Contents.{size, AllGood, Tidy}
use acar.AtomicHashMap.Iterate.{
  Iter, no_items, head_at, advance_bucket, first_item, iter, next, collect, drop_iter,
}

-- The buckets from the index on.
abbrev suffix {ℓ} : {A : Type ℓ} → ℕ → List A → List A
suffix i [] = []
suffix zero (b ∷ bs) = b ∷ bs
suffix (suc i) (b ∷ bs) = suffix i bs

suffix-past {ℓ} : {A : Type ℓ} (i : ℕ) (bs : List A) → length bs ≤ i → suffix i bs ≡ []
suffix-past i [] h = refl
suffix-past zero (b ∷ bs) h = absurd (omega arith)
suffix-past (suc i) (b ∷ bs) h = suffix-past i bs (omega arith)

get_elem?-past {ℓ} : {A : Type ℓ} (i : ℕ) (bs : List A) → length bs ≤ i → get_elem? bs i ≡ none
get_elem?-past i [] h = refl
get_elem?-past zero (b ∷ bs) h = absurd (omega arith)
get_elem?-past (suc i) (b ∷ bs) h = get_elem?-past i bs (omega arith)

suffix-zero {ℓ} : {A : Type ℓ} (bs : List A) → suffix 0 bs ≡ bs
suffix-zero [] = refl
suffix-zero (b ∷ bs) = refl

module _ (K : Key) (L : Locking) {V : Type 0} where
  open K use {Carrier}
  open L use {Lock}

  -- The items of all chains, bucket after bucket.
  abbrev pub all_items : List (Bucket Carrier Lock V) → List (Item Carrier V)
  all_items [] = []
  all_items (b ∷ bs) = b.head ++ all_items bs

  length-all_items :
      (bs : List (Bucket Carrier Lock V)) → length (all_items bs) ≡ total (size K L) bs
  unfolding total
  length-all_items [] = refl
  length-all_items (b ∷ bs) =
      omega (arith, length-append b.head (all_items bs), length-all_items bs)

  suffix-suc :
      (i : ℕ) (bs : List (Bucket Carrier Lock V))
      → i < length bs
      → all_items (suffix i bs) ≡ head_at K L bs i ++ all_items (suffix (suc i) bs)
  suffix-suc i [] h = absurd (omega arith)
  suffix-suc zero (b ∷ []) h = refl
  suffix-suc zero (b ∷ c ∷ bs) h = refl
  suffix-suc (suc i) (b ∷ bs) h = suffix-suc i bs (omega arith)

  no_items-nil : (l : List (Item Carrier V)) → no_items l ≡ true → l ≡ []
  no_items-nil [] e = refl
  no_items-nil (i ∷ l) e = absurd (cc e)

  -- What an iterator has still to return.
  abbrev left : List (Bucket Carrier Lock V) → Iter Carrier V → List (Item Carrier V)
  left bs it = it.current ++ all_items (suffix (suc it.bucket_idx) bs)

  -- An iterator stands at an item, or past the last bucket.
  abbrev Placed : List (Bucket Carrier Lock V) → Iter Carrier V → Type 0
  Placed bs it = no_items it.current ≡ leb (length bs) it.bucket_idx

  advance_bucket-left :
      (n i : ℕ) (bs : List (Bucket Carrier Lock V))
      → length bs ≤ i + n
      → let it = advance_bucket K L n bs (record { bucket_idx = i; current = [] }) in
        (left bs it ≡ all_items (suffix i bs)) × Placed bs it
  unfolding advance_bucket
  advance_bucket-left zero i bs h =
      let end : true ≡ leb (length bs) i = ground arith in
      (rw (suffix-past i bs (omega arith), suffix-past (suc i) bs (omega arith)) refl, end)
  advance_bucket-left (suc n) i bs h = elim (Bool-cases (leb (length bs) i)) [
    | inl e ↦
        let past : length bs ≤ i = ground arith in
        rw e (rw (suffix-past i bs past, suffix-past (suc i) bs (omega (arith, past))) refl, sym e)
    | inr e ↦
        let inside : i < length bs = ground arith in
        elim (Bool-cases (no_items (head_at K L bs i))) [
          | inl r ↦
              let (rest, placed) = advance_bucket-left n (suc i) bs (omega (arith, h)) in
              let here = suffix-suc i bs inside in
              let one : i + 1 ≡ suc i = omega arith in
              rw (e, r, one) (rest ∙ sym (rw (no_items-nil _ r) at here), placed)
          | inr r ↦ rw (e, r) (sym (suffix-suc i bs inside), r ∙ sym e)
        ]
  ]

  -- What a call of `next` returns: nothing when nothing is left, and the next item otherwise.
  data Next (m : AtomicInner Carrier Lock V) (it : Iter Carrier V) : Type 0 where
    at_end : left m.buckets it ≡ [] → next K L it m ≡ ok (none, it) m → Next m it
    at_item :
        (item : Item Carrier V) (later : Iter Carrier V)
        → left m.buckets it ≡ item ∷ left m.buckets later
        → Placed m.buckets later
        → next K L it m ≡ ok (some item, later) m
        → Next m it

  next_lem :
      (m : AtomicInner Carrier Lock V) (i : ℕ) (current : List (Item Carrier V))
      → AllGood K L m.buckets
      → Placed m.buckets (record { bucket_idx = i; current = current })
      → Next m (record { bucket_idx = i; current = current })
  unfolding next
  next_lem m i [] good placed =
      let past : length m.buckets ≤ i = ground arith in
      at_end (rw (suffix-past (suc i) m.buckets (omega (arith, past))) refl)
        (rw (next, get_elem?-past i m.buckets past) refl)
  next_lem m i (item ∷ []) good placed =
      let inside : i < length m.buckets = ground arith in
      let (b, at) = get_elem?-some m.buckets i inside in
      let later =
        advance_bucket K L (length m.buckets) m.buckets
          (record { bucket_idx = i + 1; current = [] }) in
      let (rest, there) = advance_bucket-left (length m.buckets) (i + 1) m.buckets (omega arith) in
      let one : i + 1 ≡ suc i = omega arith in
      let all : left m.buckets later ≡ all_items (suffix (suc i) m.buckets) =
        rest ∙ ap (λ j. all_items (suffix j m.buckets)) one in
      at_item item later (ap (λ l. item ∷ l) (sym all)) there
        (rw (next, at, L.sees_nobody b.ref_locked (good i b at).held) refl)
  next_lem m i (item ∷ c ∷ rest) good placed =
      let inside : i < length m.buckets = ground arith in
      let (b, at) = get_elem?-some m.buckets i inside in
      at_item item (record { bucket_idx = i; current = c ∷ rest }) refl placed
        (rw (next, at, L.sees_nobody b.ref_locked (good i b at).held) refl)

  collect-left :
      (n : ℕ) (m : AtomicInner Carrier Lock V) (it : Iter Carrier V)
      → AllGood K L m.buckets
      → Placed m.buckets it
      → length (left m.buckets it) < n
      → collect K L n it m ≡ ok (left m.buckets it) m
  unfolding collect
  collect-left zero m it good placed h = absurd (omega arith)
  collect-left (suc n) m it good placed h = elim (next_lem m it.bucket_idx it.current good placed) [
    | at_end e r ↦ rw (r, e) refl
    | at_item item later e p r ↦
        rw (r, collect-left n m later good p (omega (arith, ap length e)), e) refl
  ]

  -- `iter`, a `for` loop over it and the drop of the iterator return the items of all chains, each
  -- once, and leave every bucket as it was; the map is as tidy as before. `len + 1` rounds are enough.
  pub collect-iter :
      (m : AtomicInner Carrier Lock V)
      → Tidy K L m
      → Returns
          (λ items t.
            (items ≡ all_items m.buckets)
            × Tidy K L t
            × (t.buckets ≡ m.buckets)
            × (length items ≡ t.len))
          ((do it ← iter K L; items ← collect K L (suc m.len) it; drop_iter K L; pure items) m)
  unfolding iter first_item drop_iter locking
  collect-iter m t =
      let (l, took, mine) = L.takes m.lock t.lock in
      let (k, gave, free) = L.gives l mine in
      let (rest, placed) = advance_bucket-left (length m.buckets) 0 m.buckets (omega arith) in
      let whole = rest ∙ ap all_items (suffix-zero m.buckets) in
      let count = length-all_items m.buckets in
      let seen =
        collect-left (suc m.len) (record m { lock = l }) _ t.good placed
          (omega (arith, ap length whole, count, t.len)) in
      rw (took, locking, seen, gave, whole)
        (returns (
          refl,
          record { lock = free; buckets = t.buckets; good = t.good; len = t.len },
          refl,
          count ∙ sym t.len,
        ))
