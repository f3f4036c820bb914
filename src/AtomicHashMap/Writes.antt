-- ===== src/AtomicHashMap/Writes.antt =====
-- Writes of src/collections/atomic_hashmap.rs through a guard.
use acar.Prelude.{
  ◌+◌, ◌≡◌, refl, false, ◌&&◌, some, length, if◌then◌else◌, is_some, ◌==◌, arith, Option-cases, inl,
  inr, ◌∙◌, ap, sym, set, get_elem?-set, length-set, set-set,
}
use acar.Locking.{Locking, nobody, exclusively}
use acar.Outcome.{pure, ◌>>=◌, ◌>>◌, Returns, returns, bind}
use acar.AtomicHashMap.Chain.{Key, lookup, update, update-none, update-Updated}
use acar.AtomicHashMap.{
  Bucket, AtomicInner, find_bucket, get_mut, drop_mut, end_mut, write_in, load_head, store_head,
  ref_locking,
}
use acar.AtomicHashMap.Buckets.{Good}
use acar.AtomicHashMap.Contents.{home, find, Tidy, find-set, in_bucket-bind}
use acar.AtomicHashMap.Calls.{Tidy-write}
use acar.AtomicHashMap.Reads.{get_mut-Guarded, find-same}

module _ (K : Key) (L : Locking) {V : Type 0} where
  open L use {Lock}
  open K use {Carrier}

  end_mut-Good :
      (key : Carrier) (value old : V) (c : Bucket Carrier Lock V)
      → Good K L 1 exclusively c
      → lookup K key c.head ≡ some old
      → Returns
          (λ _ d.
            Good K L 0 nobody d
            × (length d.head ≡ length c.head)
            × ((q : Carrier)
                → lookup K q d.head ≡ (if K.eq key q then some value else lookup K q c.head)))
          (end_mut K L key value c)
  unfolding end_mut load_head write_in store_head ref_locking
  end_mut-Good key value old c g there = elim (Option-cases (update K key value c.head)) [
    | inl e ↦ absurd (let gone = update-none K key value c.head e in cc)
    | inr ((v, rest), e) ↦
        let u = update-Updated K key value v c.head rest e in
        let (k, left, alone) = L.gives c.ref_locked g.held in
        let (l, ended, back) = L.drop-Is k nobody alone in
        rw (load_head, e, write_in, left, ref_locking, ended)
          (returns (
            record { free = g.free; held = back; distinct = u.distinct g.distinct },
            u.same_length,
            u.reads,
          ))
  ]

  -- Writing a key through the guard of `get_mut` and dropping the guard, if there is one, changes the
  -- value of that key, where it was there, and of no other key, and leaves `len` alone; the map is as
  -- tidy as before.
  pub get_mut-find :
      (key : Carrier) (value : V) (m : AtomicInner Carrier Lock V)
      → Tidy K L m
      → Returns
          (λ o t.
            (o ≡ find K L m.buckets key)
            × Tidy K L t
            × ((q : Carrier)
                → find K L t.buckets q
                  ≡ (if is_some o && K.eq key q then some value else find K L m.buckets q))
            × (t.len ≡ m.len))
          ((do o ← get_mut K L key; drop_mut K L key value o; pure o) m)
  unfolding drop_mut find_bucket
  get_mut-find key value m t = bind (get_mut-Guarded K L key m t) λ o s g.
      let here : find K L m.buckets key ≡ lookup K key g.old.head = rw (find, g.at) refl in
      let several : (length (set m.buckets (home K L m.buckets key) g.now) == 0) ≡ false =
        ground (arith, t.buckets, length-set m.buckets (home K L m.buckets key) g.now) in
      elim (Option-cases o) [
        | inl e ↦
            rw (e, g.state, drop_mut)
              (returns (
                sym e ∙ g.got.found ∙ sym here,
                Tidy-write K L m _ t g.now g.at (rw e at g.got.good) g.lock g.free _
                    (ap (λ n. m.len + n) (ap length (sym g.got.same))),
                (λ q. find-same K L m.buckets _ q g.old g.now g.at g.got.same),
                refl,
              ))
        | inr (v, e) ↦
            let there : lookup K key g.now.head ≡ some v =
              ap (lookup K key) g.got.same ∙ sym g.got.found ∙ e in
            rw (e, g.state, drop_mut, several, length-set m.buckets (home K L m.buckets key) g.now)
              (in_bucket-bind K L
                (record m { buckets = set m.buckets (home K L m.buckets key) g.now; lock = g.lock })
                (home K L m.buckets key) (end_mut K L key value) _
                (get_elem?-set m.buckets _ g.now g.at)
                (end_mut-Good key value v g.now (rw e at g.got.good) there)
                λ u d (good, same, reads). rw (set-set m.buckets (home K L m.buckets key) g.now d) (
                  returns (
                    sym e ∙ g.got.found ∙ sym here,
                    Tidy-write K L m _ t d g.at good g.lock g.free _
                        (ap (λ n. m.len + n) (sym (same ∙ ap length g.got.same))),
                    (λ q.
                        find-set K L m.buckets key q (some value) g.old d g.at
                          (rw (sym (ap (lookup K q) g.got.same)) (reads q))),
                    refl,
                  )))
      ]
