-- ===== src/AtomicHashMap/Calls.antt =====
-- The calls of src/collections/atomic_hashmap.rs and the value of every key.
use native.Mathlib.Nat.{mod-lt}
use acar.Prelude.{
  ℕ, ◌+◌, ◌^◌, ◌<◌, ◌≡◌, refl, false, Option, none, some, if◌then◌else◌, length, ◌==◌, is_some,
  arith, Bool-cases, Option-cases, inl, inr, ◌∙◌, ap, sym, get_elem?, set, total-set, get_elem?-set,
  get_elem?-some, length-set, set-set, le-total, total, wrapping_dec,
}
use acar.Locking.{Locking, nobody}
use acar.Outcome.{Returns, returns, mono}
use acar.AtomicHashMap.Chain.{Key, weight_of, lookup}
use acar.AtomicHashMap.{
  Bucket, AtomicInner, insert_in, unlink_in, reclaim_in, locking, set_len, find_bucket, insert,
  remove, count_out,
}
use acar.AtomicHashMap.Buckets.{
  Good, kept, in_option, insert_in-Inserted, unlink_in-Taken, reclaim_in-Good,
}
use acar.AtomicHashMap.Contents.{size, home, find, Tidy, Good-set, find-set, in_bucket-bind}

module _ (K : Key) (L : Locking) {V : Type 0} where
  open L use {Lock}
  open K use {Carrier}

  -- The index of a key is that of a bucket.
  pub bucket_of :
      (m : AtomicInner Carrier Lock V) (key : Carrier)
      → Tidy K L m
      → (b : Bucket Carrier Lock V) × (get_elem? m.buckets (home K L m.buckets key) ≡ some b)
  bucket_of m key t =
      get_elem?-some m.buckets (home K L m.buckets key) (mod-lt (K.hash key) t.buckets)

  -- A map is tidy again once a good bucket has been written, the lock is free and `len` has followed.
  pub Tidy-write :
      (m : AtomicInner Carrier Lock V) (i : ℕ) {b : Bucket Carrier Lock V}
      → Tidy K L m
      → (c : Bucket Carrier Lock V) → get_elem? m.buckets i ≡ some b
      → Good K L 0 nobody c
      → (l : Lock) → L.Is 0 nobody l
      → (n : ℕ) → n + size K L b ≡ m.len + size K L c
      → Tidy K L (record m { buckets = set m.buckets i c; lock = l; len = n })
  Tidy-write m i t c at g l free n e =
      let sum = total-set (size K L) m.buckets i c at in
      let same = length-set m.buckets i c in
      record {
        lock = free;
        buckets = omega (arith, same, t.buckets);
        good = Good-set K L m.buckets i c t.good g;
        len = omega (arith, sum, t.len, e);
      }

  -- The weight of the values that the map has or has destroyed.
  abbrev pub kept_all : (V → ℕ) → AtomicInner Carrier Lock V → ℕ
  kept_all w m = total (kept K L w) m.buckets

  -- What `insert` leaves.
  pub record Stored (key : Carrier) (value : V) (m t : AtomicInner Carrier Lock V) : Type 0 where
    pub tidy : Tidy K L t
    pub reads :
        (q : Carrier)
        → find K L t.buckets q ≡ (if K.eq key q then some value else find K L m.buckets q)
    pub count : t.len ≡ (if is_some (find K L m.buckets key) then m.len else m.len + 1)
    pub refs : t.ref_count ≡ m.ref_count
    pub weight : (w : V → ℕ) → kept_all w t ≡ kept_all w m + w value

  pub insert-Stored :
      (key : Carrier) (value : V) (m : AtomicInner Carrier Lock V)
      → Tidy K L m
      → m.len + 1 < 2 ^ 64
      → Returns (λ _ t. Stored key value m t) (insert K L key value m)
  unfolding insert find_bucket locking set_len
  insert-Stored key value m t room =
      let (b, at) = bucket_of m key t in
      let (l, opened, mine) = L.opens m.lock t.lock in
      let (k, closed, free) = L.closes l mine in
      let several : (length m.buckets == 0) ≡ false = ground (arith, t.buckets) in
      rw (several, opened, locking)
        (in_bucket-bind K L (record m { lock = l }) (home K L m.buckets key)
          (insert_in K L key value) _ at (insert_in-Inserted K L key value b (t.good _ b at))
          λ added c ins.
            let here : find K L m.buckets key ≡ lookup K key b.head = rw (find, at) refl in
            let stored : (q : Carrier)
                → find K L (set m.buckets (home K L m.buckets key) c) q
                  ≡ (if K.eq key q then some value else find K L m.buckets q) =
              λ q. find-set K L m.buckets key q (some value) b c at (ins.reads q) in
            elim (Bool-cases added) [
              | inl e ↦
                  rw (e, locking, closed)
                    (returns (record {
                      tidy =
                          Tidy-write m _ t c at ins.good k free _
                            (omega (arith, rw e at ins.size, room));
                      reads = stored;
                      count = rw here (ground (arith, ins.is_new));
                      refs = refl;
                      weight =
                          λ w. omega (arith, total-set (kept K L w) m.buckets _ c at, ins.weight w);
                    }))
              | inr e ↦
                  rw (e, locking, closed)
                    (returns (record {
                      tidy =
                          Tidy-write m _ t c at ins.good k free _
                            (omega (arith, rw e at ins.size, room));
                      reads = stored;
                      count = rw here (ground (arith, ins.is_new));
                      refs = refl;
                      weight =
                          λ w. omega (arith, total-set (kept K L w) m.buckets _ c at, ins.weight w);
                    }))
            ])

  -- `insert` gives the key its value, changes no other key, and counts the key if it was not there;
  -- the map is as tidy as before.
  pub insert-find :
      (key : Carrier) (value : V) (m : AtomicInner Carrier Lock V)
      → Tidy K L m
      → m.len + 1 < 2 ^ 64
      → Returns
          (λ _ t.
            Tidy K L t
            × ((q : Carrier)
                → find K L t.buckets q ≡ (if K.eq key q then some value else find K L m.buckets q))
            × (t.len ≡ (if is_some (find K L m.buckets key) then m.len else m.len + 1)))
          (insert K L key value m)
  insert-find key value m t room =
      mono (insert-Stored key value m t room) λ _ u s. (s.tidy, s.reads, s.count)

  -- What `remove` leaves.
  pub record Dropped (key : Carrier) (m : AtomicInner Carrier Lock V) (o : Option V)
      (t : AtomicInner Carrier Lock V) : Type 0 where
    pub found : o ≡ find K L m.buckets key
    pub tidy : Tidy K L t
    pub reads :
        (q : Carrier) → find K L t.buckets q ≡ (if K.eq key q then none else find K L m.buckets q)
    pub count : t.len + (if is_some o then 1 else 0) ≡ m.len
    pub refs : t.ref_count ≡ m.ref_count
    pub weight : (w : V → ℕ) → kept_all w t + in_option w o ≡ kept_all w m

  pub remove-Dropped :
      (key : Carrier) (m : AtomicInner Carrier Lock V)
      → Tidy K L m
      → m.len < 2 ^ 64
      → Returns (Dropped key m) (remove K L key m)
  unfolding remove find_bucket locking set_len count_out
  remove-Dropped key m t room =
      let (b, at) = bucket_of m key t in
      let (l, opened, mine) = L.opens m.lock t.lock in
      let (k, closed, free) = L.closes l mine in
      let several : (length m.buckets == 0) ≡ false = ground (arith, t.buckets) in
      let here : find K L m.buckets key ≡ lookup K key b.head = rw (find, at) refl in
      rw (several, opened, locking)
        (in_bucket-bind K L (record m { lock = l }) (home K L m.buckets key) (unlink_in K L key) _
          at (unlink_in-Taken K L key b (t.good _ b at))
          λ o c taken. elim (Option-cases o) [
            | inl e ↦
                rw (e, count_out, locking, closed)
                  (returns (record {
                    found = sym e ∙ taken.found ∙ sym here;
                    tidy =
                        Tidy-write m _ t c at
                          (record {
                            free = taken.free ∙ rw e refl;
                            held = taken.held;
                            distinct = taken.distinct;
                          })
                          k free _ (omega (arith, rw e at taken.size));
                    reads = λ q. find-set K L m.buckets key q none b c at (taken.reads q);
                    count = omega arith;
                    refs = refl;
                    weight = λ w.
                        omega (
                          arith,
                          total-set (kept K L w) m.buckets _ c at,
                          rw e at (taken.weight w),
                        );
                  }))
            | inr (v, e) ↦
                rw (e, count_out)
                  (in_bucket-bind K L
                    (record m {
                      buckets = set m.buckets (home K L m.buckets key) c;
                      lock = l;
                      len = wrapping_dec m.len;
                    })
                    (home K L m.buckets key) (reclaim_in K L) _ (get_elem?-set m.buckets _ c at)
                    (reclaim_in-Good K L c taken.held taken.distinct)
                    λ u d (good, head, gone).
                      let some_item = le-total (size K L) m.buckets _ at in
                      let one_less = rw e at taken.size in
                      rw (locking, closed, set-set m.buckets (home K L m.buckets key) c d)
                        (returns (record {
                          found = sym e ∙ taken.found ∙ sym here;
                          tidy =
                              Tidy-write m _ t d at good k free _
                                (omega (arith, ap length head, one_less, some_item, t.len, room));
                          reads = λ q.
                              find-set K L m.buckets key q none b d at
                                (ap (lookup K q) head ∙ taken.reads q);
                          count = omega (arith, one_less, some_item, t.len, room);
                          refs = refl;
                          weight = λ w. omega (
                            arith,
                            total-set (kept K L w) m.buckets _ d at,
                            rw e at (taken.weight w),
                            ap (weight_of K w) head,
                            ap (total w) gone,
                          );
                        })))
          ])

  -- `remove` returns the value of the key, takes the key out, changes no other key, and counts it
  -- out if it was there; the map is as tidy as before.
  pub remove-find :
      (key : Carrier) (m : AtomicInner Carrier Lock V)
      → Tidy K L m
      → m.len < 2 ^ 64
      → Returns
          (λ o t.
            (o ≡ find K L m.buckets key)
            × Tidy K L t
            × ((q : Carrier)
                → find K L t.buckets q ≡ (if K.eq key q then none else find K L m.buckets q))
            × (t.len + (if is_some o then 1 else 0) ≡ m.len))
          (remove K L key m)
  remove-find key m t room =
      mono (remove-Dropped key m t room) λ o u d. (d.found, d.tidy, d.reads, d.count)
