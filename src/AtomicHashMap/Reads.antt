-- ===== src/AtomicHashMap/Reads.antt =====
-- What a guard of src/collections/atomic_hashmap.rs holds, and reads through it.
use acar.Prelude.{
  ℕ, ◌+◌, ◌≡◌, ◌≢◌, refl, false, Option, some, List, length, ◌==◌, arith, Bool-cases, Option-cases,
  inl, inr, ◌∙◌, ap, sym, get_elem?, set, get_elem?-set, get_elem?-set_other, length-set, set-set,
  total, total-set,
}
use acar.Locking.{Locking, Held, nobody, group, exclusively}
use acar.Outcome.{pure, ◌>>=◌, ◌>>◌, Returns, returns, bind, mono}
use acar.AtomicHashMap.Chain.{Key, weight_of, lookup}
use acar.AtomicHashMap.{
  Bucket, AtomicInner, get_in, locking, find_bucket, get, get_mut, drop_ref, end_ref, ref_locking,
}
use acar.AtomicHashMap.Buckets.{Good, kept, Got, get_in-Got}
use acar.AtomicHashMap.Contents.{home, find, Tidy, in_bucket-bind}
use acar.AtomicHashMap.Calls.{bucket_of, kept_all, Tidy-write}

module _ (K : Key) (L : Locking) {V : Type 0} where
  open L use {Lock}
  open K use {Carrier}

  -- What a look-up leaves: the bucket of the key with a handle of its lock held, and the rest.
  pub record Guarded (key : Carrier) (h : Held) (m : AtomicInner Carrier Lock V) (o : Option V)
      (t : AtomicInner Carrier Lock V) : Type 0 where
    pub old : Bucket Carrier Lock V
    pub at : get_elem? m.buckets (home K L m.buckets key) ≡ some old
    pub now : Bucket Carrier Lock V
    pub got : Got K L key h old o now
    pub lock : Lock
    pub free : L.Is 0 nobody lock
    pub state : t ≡ record m { buckets = set m.buckets (home K L m.buckets key) now; lock = lock }

  get-Guarded :
      (key : Carrier) (m : AtomicInner Carrier Lock V)
      → Tidy K L m
      → Returns (Guarded key (group 0) m) (get K L key m)
  unfolding get find_bucket locking
  get-Guarded key m t =
      let (b, at) = bucket_of K L m key t in
      let (l, opened, mine) = L.opens m.lock t.lock in
      let (k, closed, free) = L.closes l mine in
      let several : (length m.buckets == 0) ≡ false = ground (arith, t.buckets) in
      rw (several, opened, locking)
        (in_bucket-bind K L (record m { lock = l }) (home K L m.buckets key)
          (get_in K L L.lock_group key) _ at
          (get_in-Got K L L.lock_group key (group 0) b (t.good _ b at)
            (L.opens b.ref_locked (t.good _ b at).held))
          λ o c got.
            rw (locking, closed)
              (returns (record {
                old = b;
                at = at;
                now = c;
                got = got;
                lock = k;
                free = free;
                state = refl;
              })))

  pub get_mut-Guarded :
      (key : Carrier) (m : AtomicInner Carrier Lock V)
      → Tidy K L m
      → Returns (Guarded key exclusively m) (get_mut K L key m)
  unfolding get_mut find_bucket locking
  get_mut-Guarded key m t =
      let (b, at) = bucket_of K L m key t in
      let (l, opened, mine) = L.opens m.lock t.lock in
      let (k, closed, free) = L.closes l mine in
      let several : (length m.buckets == 0) ≡ false = ground (arith, t.buckets) in
      rw (several, opened, locking)
        (in_bucket-bind K L (record m { lock = l }) (home K L m.buckets key)
          (get_in K L L.lock_exclusive key) _ at
          (get_in-Got K L L.lock_exclusive key exclusively b (t.good _ b at)
            (L.takes b.ref_locked (t.good _ b at).held))
          λ o c got.
            rw (locking, closed)
              (returns (record {
                old = b;
                at = at;
                now = c;
                got = got;
                lock = k;
                free = free;
                state = refl;
              })))

  -- A bucket with the same chain as before changes no key.
  pub find-same :
      (bs : List (Bucket Carrier Lock V)) (i : ℕ) (q : Carrier) (b c : Bucket Carrier Lock V)
      → get_elem? bs i ≡ some b
      → c.head ≡ b.head
      → find K L (set bs i c) q ≡ find K L bs q
  find-same bs i q b c e r = elim (Bool-cases (i == home K L bs q)) [
    | inl t ↦
        let same : home K L bs q ≡ i = ground arith in
        rw (find, length-set bs i c, same, get_elem?-set bs i c e, e) (ap (lookup K q) r)
    | inr t ↦
        let other : i ≢ home K L bs q = ground arith in
        rw (find, length-set bs i c, get_elem?-set_other bs i (home K L bs q) c other) refl
  ]

  end_ref-Good :
      (c : Bucket Carrier Lock V)
      → Good K L 1 (group 0) c
      → Returns
          (λ _ d. Good K L 0 nobody d × (d.head ≡ c.head) × (d.destroyed ≡ c.destroyed))
          (end_ref K L c)
  unfolding end_ref ref_locking
  end_ref-Good c g =
      let (k, left, alone) = L.closes c.ref_locked g.held in
      let (l, ended, back) = L.drop-Is k nobody alone in
      rw (left, ref_locking, ended)
        (returns (record { free = g.free; held = back; distinct = g.distinct }, refl, refl))

  -- What a look-up leaves once its guard is dropped.
  pub record Looked (key : Carrier) (m : AtomicInner Carrier Lock V) (o : Option V)
      (t : AtomicInner Carrier Lock V) : Type 0 where
    pub found : o ≡ find K L m.buckets key
    pub tidy : Tidy K L t
    pub reads : (q : Carrier) → find K L t.buckets q ≡ find K L m.buckets q
    pub count : t.len ≡ m.len
    pub refs : t.ref_count ≡ m.ref_count
    pub weight : (w : V → ℕ) → kept_all K L w t ≡ kept_all K L w m

  pub get-Looked :
      (key : Carrier) (m : AtomicInner Carrier Lock V)
      → Tidy K L m
      → Returns (Looked key m) ((do o ← get K L key; drop_ref K L key o; pure o) m)
  unfolding drop_ref find_bucket
  get-Looked key m t = bind (get-Guarded key m t) λ o s g.
      let here : find K L m.buckets key ≡ lookup K key g.old.head = rw (find, g.at) refl in
      let several : (length (set m.buckets (home K L m.buckets key) g.now) == 0) ≡ false =
        ground (arith, t.buckets, length-set m.buckets (home K L m.buckets key) g.now) in
      elim (Option-cases o) [
        | inl e ↦
            rw (e, g.state, drop_ref)
              (returns (record {
                found = sym e ∙ g.got.found ∙ sym here;
                tidy =
                    Tidy-write K L m _ t g.now g.at (rw e at g.got.good) g.lock g.free _
                      (ap (λ n. m.len + n) (ap length (sym g.got.same)));
                reads = λ q. find-same m.buckets _ q g.old g.now g.at g.got.same;
                count = refl;
                refs = refl;
                weight = λ w. omega (
                  arith,
                  total-set (kept K L w) m.buckets _ g.now g.at,
                  ap (weight_of K w) g.got.same,
                  ap (total w) g.got.gone,
                );
              }))
        | inr (v, e) ↦
            rw (e, g.state, drop_ref, several, length-set m.buckets (home K L m.buckets key) g.now)
              (in_bucket-bind K L
                (record m { buckets = set m.buckets (home K L m.buckets key) g.now; lock = g.lock })
                (home K L m.buckets key) (end_ref K L) _ (get_elem?-set m.buckets _ g.now g.at)
                (end_ref-Good g.now (rw e at g.got.good))
                λ u d (good, head, gone). rw (set-set m.buckets (home K L m.buckets key) g.now d) (
                  returns (record {
                    found = sym e ∙ g.got.found ∙ sym here;
                    tidy =
                        Tidy-write K L m _ t d g.at good g.lock g.free _
                          (ap (λ n. m.len + n) (ap length (sym (head ∙ g.got.same))));
                    reads = λ q. find-same m.buckets _ q g.old d g.at (head ∙ g.got.same);
                    count = refl;
                    refs = refl;
                    weight = λ w. omega (
                      arith,
                      total-set (kept K L w) m.buckets _ d g.at,
                      ap (weight_of K w) (head ∙ g.got.same),
                      ap (total w) (gone ∙ g.got.gone),
                    );
                  })))
      ]

  -- Reading a key and dropping the guard, if there is one, returns the value of the key and leaves
  -- every key and `len` alone; the map is as tidy as before.
  pub get-find :
      (key : Carrier) (m : AtomicInner Carrier Lock V)
      → Tidy K L m
      → Returns
          (λ o t.
            (o ≡ find K L m.buckets key)
            × Tidy K L t
            × ((q : Carrier) → find K L t.buckets q ≡ find K L m.buckets q)
            × (t.len ≡ m.len))
          ((do o ← get K L key; drop_ref K L key o; pure o) m)
  get-find key m t = mono (get-Looked key m t) λ o u l. (l.found, l.tidy, l.reads, l.count)
