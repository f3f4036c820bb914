-- ===== src/AtomicHashMap/Owned.antt =====
-- What becomes of the values that are given to a map of src/collections/atomic_hashmap.rs, from its
-- making to the drop of its last handle.
use acar.Prelude.{
  ℕ, zero, suc, ◌+◌, ◌<◌, ◌≤◌, ◌^◌, ◌≡◌, refl, true, false, Option, none, some, List, [], ◌∷◌, ◌==◌,
  length, get_elem?, total, total-replicate, arith, Option-cases, inl, inr, sym, ◌∙◌, ap,
}
use mathlib.Core.Option.{some-injective}
use acar.Locking.{Locking}
use acar.Outcome.{pure, ◌>>=◌, Returns, returns, bind, mono}
use acar.AtomicHashMap.Chain.{Key, Item, weight_of}
use acar.AtomicHashMap.{
  Bucket, AtomicInner, with_capacity, new_bucket, clone, drop, drop_buckets, destroy_all,
}
use acar.AtomicHashMap.Buckets.{kept, in_option}
use acar.AtomicHashMap.Contents.{Tidy, with_capacity-Tidy}
use acar.AtomicHashMap.Calls.{kept_all, insert-Stored, remove-Dropped}
use acar.AtomicHashMap.Reads.{get-Looked}
use acar.AtomicHashMap.Requests.{
  Request, inserts, gets, removes, clones, drops, after, handles, given, inserted, with_option,
  perform, run,
}

module _ (K : Key) (L : Locking) {V : Type 0} where
  open L use {Lock}
  open K use {Carrier}

  -- What a request leaves: `d` handles, and every value in one place.
  record Done (r : Request Carrier V) (d : ℕ) (m : AtomicInner Carrier Lock V) (o : Option V)
      (t : AtomicInner Carrier Lock V) : Type 0 where
    tidy : Tidy K L t
    refs : t.ref_count ≡ d
    count : t.len ≤ m.len + 1
    weight :
        (w : V → ℕ) → kept_all K L w t + in_option w o ≡ kept_all K L w m + total w (given r [])

  perform-Done :
      (r : Request Carrier V) (c d : ℕ) (m : AtomicInner Carrier Lock V)
      → Tidy K L m
      → m.ref_count ≡ c
      → m.len + 1 < 2 ^ 64
      → c + 1 < 2 ^ 64
      → after r c ≡ some d
      → Returns (Done r d m) (perform K L r m)
  unfolding perform clone drop total
  perform-Done (inserts key value) c d m t refs room few e =
      bind (insert-Stored K L key value m t room) λ _ u s. returns (record {
        tidy = s.tidy;
        refs = s.refs ∙ refs ∙ some-injective _ _ e;
        count = ground (arith, s.count);
        weight = λ w. omega (arith, s.weight w);
      })
  perform-Done (gets key) c d m t refs room few e = bind (get-Looked K L key m t) λ _ u l.
      returns (record {
        tidy = l.tidy;
        refs = l.refs ∙ refs ∙ some-injective _ _ e;
        count = omega (arith, l.count);
        weight = λ w. omega (arith, l.weight w);
      })
  perform-Done (removes key) c d m t refs room few e =
      mono (remove-Dropped K L key m t (omega arith)) λ o u l. record {
        tidy = l.tidy;
        refs = l.refs ∙ refs ∙ some-injective _ _ e;
        count = ground (arith, l.count);
        weight = λ w. omega (arith, l.weight w);
      }
  perform-Done clones c d m t refs room few e = returns (record {
    tidy = record { lock = t.lock; buckets = t.buckets; good = t.good; len = t.len };
    refs = omega (arith, some-injective _ _ e);
    count = omega arith;
    weight = λ w. omega arith;
  })
  perform-Done drops c d m t refs room few e =
      let not_last : (m.ref_count == 1) ≡ false = ground arith in
      rw not_last (
        returns (record {
          tidy = record { lock = t.lock; buckets = t.buckets; good = t.good; len = t.len };
          refs = ground arith;
          count = omega arith;
          weight = λ w. omega arith;
        }))

  total-given :
      (w : V → ℕ) (r : Request Carrier V) (vs : List V)
      → total w (given r vs) ≡ total w (given r []) + total w vs
  unfolding total
  total-given w (inserts key value) vs = omega arith
  total-given w (gets key) vs = omega arith
  total-given w (removes key) vs = omega arith
  total-given w clones vs = omega arith
  total-given w drops vs = omega arith

  total-with_option :
      (w : V → ℕ) (o : Option V) (vs : List V)
      → total w (with_option o vs) ≡ in_option w o + total w vs
  unfolding total
  total-with_option w none vs = omega arith
  total-with_option w (some v) vs = refl

  handles_mono : (r : Request Carrier V) (c d : ℕ) → after r c ≡ some d → d ≤ c + 1
  handles_mono (inserts key value) c d e = omega (arith, some-injective _ _ e)
  handles_mono (gets key) c d e = omega (arith, some-injective _ _ e)
  handles_mono (removes key) c d e = omega (arith, some-injective _ _ e)
  handles_mono clones c d e = omega (arith, some-injective _ _ e)
  handles_mono drops c d e = ground arith

  pub record Ran (rs : List (Request Carrier V)) (d : ℕ) (m : AtomicInner Carrier Lock V)
      (vs : List V) (t : AtomicInner Carrier Lock V) : Type 0 where
    pub tidy : Tidy K L t
    pub refs : t.ref_count ≡ d
    pub weight :
        (w : V → ℕ) → kept_all K L w t + total w vs ≡ kept_all K L w m + total w (inserted rs)

  pub run-Ran :
      (rs : List (Request Carrier V)) (c d : ℕ) (m : AtomicInner Carrier Lock V)
      → Tidy K L m
      → m.ref_count ≡ c
      → m.len + length rs < 2 ^ 64
      → c + length rs < 2 ^ 64
      → handles rs c ≡ some d
      → Returns (Ran rs d m) (run K L rs m)
  unfolding run handles inserted total
  run-Ran [] c d m t refs room few e =
      returns (record { tidy = t; refs = refs ∙ some-injective _ _ e; weight = λ w. omega arith })
  run-Ran (r ∷ rs) c d m t refs room few e = elim (Option-cases (after r c)) [
    | inl last ↦ absurd (let f = rw (last, handles) at e in cc)
    | inr (k, left) ↦
        bind (perform-Done r c k m t refs (omega arith) (omega arith) left) λ o s done.
          bind
            (run-Ran rs k d s done.tidy done.refs (omega (arith, done.count))
              (omega (arith, handles_mono r c k left)) (rw (left, handles) at e))
            λ vs u ran. returns (record {
              tidy = ran.tidy;
              refs = ran.refs;
              weight = λ w. omega (
                arith,
                done.weight w,
                ran.weight w,
                total-given w r (inserted rs),
                total-with_option w o vs,
              );
            })
  ]

  abbrev pub lost : (V → ℕ) → Bucket Carrier Lock V → ℕ
  lost w b = total w b.destroyed

  total-destroy_all :
      (w : V → ℕ) (items : List (Item Carrier V)) (gone : List V)
      → total w (destroy_all K L gone items) ≡ total w gone + weight_of K w items
  unfolding destroy_all total
  total-destroy_all w [] gone = omega arith
  total-destroy_all w ((k, v) ∷ items) gone = omega (arith, total-destroy_all w items (v ∷ gone))

  total-drop_buckets :
      (w : V → ℕ) (bs : List (Bucket Carrier Lock V))
      → total (lost w) (drop_buckets K L bs) ≡ total (kept K L w) bs
  unfolding drop_buckets total
  total-drop_buckets w [] = refl
  total-drop_buckets w (b ∷ bs) =
      omega (arith, total-drop_buckets w bs, total-destroy_all w b.head b.destroyed)

  drop_buckets-empty :
      (bs : List (Bucket Carrier Lock V)) (i : ℕ) (c : Bucket Carrier Lock V)
      → get_elem? (drop_buckets K L bs) i ≡ some c
      → c.head ≡ []
  unfolding drop_buckets
  drop_buckets-empty [] i c e = absurd (ground arith)
  drop_buckets-empty (b ∷ bs) zero c e = sym (ap (λ d. d.head) (some-injective _ _ e))
  drop_buckets-empty (b ∷ bs) (suc i) c e = drop_buckets-empty bs i c e

  -- Between the making of a map and the drop of its last handle, however inserts, look-ups, removals,
  -- clones and drops of handles follow each other: every call returns, the last drop empties every
  -- bucket, and each value that was given to `insert` has been destroyed exactly once or has been
  -- returned by a `remove`, whatever the values weigh.
  pub owned_once :
      (bucket_count : ℕ) (rs : List (Request Carrier V))
      → 0 < bucket_count
      → length rs + 1 < 2 ^ 64
      → handles rs 1 ≡ some 1
      → Returns
          (λ (vs, gone) t.
            (gone ≡ true)
            × ((i : ℕ) (b : Bucket Carrier Lock V) → get_elem? t.buckets i ≡ some b → b.head ≡ [])
            × ((w : V → ℕ) → total w (inserted rs) ≡ total (lost w) t.buckets + total w vs))
          ((do vs ← run K L rs; gone ← drop K L; pure (vs, gone)) (with_capacity K L bucket_count))
  unfolding drop total
  owned_once n rs pos room e =
      bind
        (run-Ran rs 1 1 (with_capacity K L n) (with_capacity-Tidy K L n pos).0 refl (omega arith)
          (omega arith) e)
        λ vs t ran.
          let last : (t.ref_count == 1) ≡ true = ground (arith, ran.refs) in
          rw last (
            returns (
              refl,
              drop_buckets-empty t.buckets,
              λ w. omega (
                arith,
                ran.weight w,
                total-drop_buckets w t.buckets,
                total-replicate (kept K L w) n (new_bucket K L) refl,
              ),
            ))
