-- ===== src/AtomicHashMap/Contents.antt =====
-- What a map of src/collections/atomic_hashmap.rs holds, and what the calls do to it.
use acar.Prelude.{
  ℕ, ◌%◌, ◌<◌, ◌≡◌, ◌≢◌, refl, Option, none, some, List, if◌then◌else◌, length, ◌==◌, arith,
  Bool-cases, Option-cases, inl, inr, ap, sym, get_elem?, set, total, get_elem?-set,
  get_elem?-set_other, replicate-all, total-replicate, length-replicate, set-all, length-set,
}
use acar.Locking.{Locking, nobody}
use acar.Outcome.{Run, and_then, Returns, returns}
use acar.AtomicHashMap.Chain.{Key, lookup}
use acar.AtomicHashMap.{
  Bucket, AtomicInner, InBucket, Call, with_capacity, new_bucket, in_bucket, put_back,
}
use acar.AtomicHashMap.Buckets.{Good}

module _ (K : Key) (L : Locking) {V : Type 0} where
  open L use {Lock}
  open K use {Carrier}

  abbrev pub size : Bucket Carrier Lock V → ℕ
  size b = length b.head

  abbrev pub home : List (Bucket Carrier Lock V) → Carrier → ℕ
  home bs q = K.hash q % length bs

  -- The value of a key: the one that the chain of its bucket has.
  abbrev pub find : List (Bucket Carrier Lock V) → Carrier → Option V
  find bs q = elim (get_elem? bs (home bs q)) [ none ↦ none | some b ↦ lookup K q b.head ]

  -- Every bucket is free and has no two items with the same key.
  abbrev pub AllGood : List (Bucket Carrier Lock V) → Type 0
  AllGood bs = (i : ℕ) (b : Bucket Carrier Lock V) → get_elem? bs i ≡ some b → Good K L 0 nobody b

  -- No call is under way, no guard and no iterator is there, and `len` counts the items.
  pub record Tidy (m : AtomicInner Carrier Lock V) : Type 0 where
    pub lock : L.Is 0 nobody m.lock
    pub buckets : 0 < length m.buckets
    pub good : AllGood m.buckets
    pub len : m.len ≡ total size m.buckets

  -- A map with at least one bucket is tidy when it is new, and has no key.
  pub with_capacity-Tidy :
      (bucket_count : ℕ)
      → 0 < bucket_count
      → Tidy (with_capacity K L bucket_count)
        × ((q : Carrier) → find (with_capacity K L bucket_count).buckets q ≡ none)
  unfolding lookup
  with_capacity-Tidy n pos = (
    record {
      lock = L.fresh_Is;
      buckets = omega (arith, length-replicate n (new_bucket K L {V = V}), pos);
      good =
          replicate-all (Good K L 0 nobody) n (new_bucket K L)
            (record { free = refl; held = L.fresh_Is; distinct = tt });
      len = sym (total-replicate size n (new_bucket K L) refl);
    },
    λ q.
        elim (Option-cases (
          get_elem? (with_capacity K L {V = V} n).buckets (home (with_capacity K L n).buckets q))) [
            | inl e ↦ rw (find, e) refl
            | inr (b, e) ↦
                rw (find, e)
                  (replicate-all (λ c. lookup K q c.head ≡ none) n (new_bucket K L) refl
                    (home (with_capacity K L n).buckets q) b e)
          ],
  )

  pub Good-set :
      (bs : List (Bucket Carrier Lock V)) (i : ℕ) (c : Bucket Carrier Lock V)
      → AllGood bs
      → Good K L 0 nobody c
      → AllGood (set bs i c)
  Good-set bs i c = set-all (Good K L 0 nobody) bs i c

  pub find-set :
      (bs : List (Bucket Carrier Lock V)) (key q : Carrier) (new : Option V)
      (b c : Bucket Carrier Lock V)
      → get_elem? bs (home bs key) ≡ some b
      → lookup K q c.head ≡ (if K.eq key q then new else lookup K q b.head)
      → find (set bs (home bs key) c) q ≡ (if K.eq key q then new else find bs q)
  find-set bs key q new b c e r = elim (Bool-cases (home bs key == home bs q)) [
    | inl t ↦
        let same : home bs q ≡ home bs key = ground arith in
        rw (find, length-set bs (home bs key) c, same, get_elem?-set bs (home bs key) c e, e) r
    | inr t ↦
        let other : home bs key ≢ home bs q = ground arith in
        elim (Bool-cases (K.eq key q)) [
          | inl h ↦ absurd (other (ap (λ n. n % length bs) (K.hash-eq key q h)))
          | inr h ↦
              rw
                (
                  find,
                  length-set bs (home bs key) c,
                  get_elem?-set_other bs (home bs key) (home bs q) c other,
                  h,
                )
                refl
        ]
  ]

  put_back-bind :
      {B C : Type 0} {P : B → Bucket Carrier Lock V → Type 0}
      {Q : C → AtomicInner Carrier Lock V → Type 0} (m : AtomicInner Carrier Lock V) (i : ℕ)
      (k : B → Call K L V C) {x : Run (Bucket Carrier Lock V) B}
      → Returns P x
      → ((r : B) (c : Bucket Carrier Lock V)
          → P r c
          → Returns Q (k r (record m { buckets = set m.buckets i c })))
      → Returns Q (and_then (put_back K L m i x) k)
  put_back-bind m i k (returns p) next = next _ _ p

  pub in_bucket-bind :
      {B C : Type 0} {P : B → Bucket Carrier Lock V → Type 0}
      {Q : C → AtomicInner Carrier Lock V → Type 0} (m : AtomicInner Carrier Lock V) (i : ℕ)
      {b : Bucket Carrier Lock V} (f : InBucket K L V B) (k : B → Call K L V C)
      → get_elem? m.buckets i ≡ some b
      → Returns P (f b)
      → ((r : B) (c : Bucket Carrier Lock V)
          → P r c
          → Returns Q (k r (record m { buckets = set m.buckets i c })))
      → Returns Q (and_then (in_bucket K L i f m) k)
  unfolding in_bucket
  in_bucket-bind m i f k e r next = rw (in_bucket, e, and_then) (put_back-bind m i k r next)
