-- ===== src/Examples/Maps.antt =====
-- Runs of src/collections/atomic_hashmap.rs at concrete inputs, over the mutex.
use mathlib.Core.Path.{subst}
use mathlib.Core.Option.{some-injective}
use acar.Prelude.{
  ℕ, zero, suc, ◌+◌, ◌≡◌, refl, true, none, some, List, [], ◌∷◌, ◌==◌, if◌then◌else◌, is_some, ◌&&◌,
  total, arith, length, get_elem?,
}
use acar.Locking.{nobody}
use acar.Mutex.{InnerMutex}
use acar.Mutex.Lone.{mutex_locking}
use acar.Outcome.{Returns, pure, ◌>>=◌, ◌>>◌}
use acar.AtomicHashMap.{
  get, drop_ref, get_mut, drop_mut, drop, Bucket, AtomicInner, insert, remove, with_capacity,
}
use acar.AtomicHashMap.Chain.{Key, Item, lookup, Distinct}
use acar.AtomicHashMap.Contents.{Tidy, AllGood, find}
use acar.AtomicHashMap.Buckets.{Good}
use acar.AtomicHashMap.Writes.{get_mut-find}
use acar.AtomicHashMap.Reads.{get-find}
use acar.AtomicHashMap.Iterate.{iter, collect, drop_iter}
use acar.AtomicHashMap.Iterate.Items.{collect-iter}
use acar.AtomicHashMap.Calls.{insert-find, remove-find}
use acar.AtomicHashMap.Requests.{
  Request, inserts, gets, removes, clones, drops, handles, inserted, run,
}
use acar.AtomicHashMap.Owned.{lost, owned_once}

pub equal_refl : (a : ℕ) → (a == a) ≡ true
equal_refl a = ground arith

pub equal_sym : (a b : ℕ) → (a == b) ≡ true → (b == a) ≡ true
equal_sym a b e = ground arith

pub equal_trans : (a b c : ℕ) → (a == b) ≡ true → (b == c) ≡ true → (a == c) ≡ true
equal_trans a b c e f = ground arith

pub equal_hash : (a b : ℕ) → (a == b) ≡ true → a ≡ b
equal_hash a b e = ground arith

-- Numbers as keys, each its own hash.
abbrev pub number_key : Key
number_key = record {
  Carrier = ℕ;
  eq = λ a b. a == b;
  hash = λ a. a;
  eq-refl = equal_refl;
  eq-sym = equal_sym;
  eq-trans = equal_trans;
  hash-eq = equal_hash;
}

abbrev bucket_with : List (Item ℕ ℕ) → Bucket ℕ InnerMutex ℕ
bucket_with items = record {
  head = items;
  ref_locked = mutex_locking.fresh;
  available = true;
  destroyed = [];
}

-- Two buckets, without items; and with the keys 4 and 6 in the first one.
abbrev small : AtomicInner ℕ InnerMutex ℕ
small = with_capacity number_key mutex_locking 2

abbrev filled : AtomicInner ℕ InnerMutex ℕ
filled = record small {
  buckets = bucket_with ((6, 60) ∷ (4, 40) ∷ []) ∷ bucket_with [] ∷ [];
  len = 2;
}

bucket_with-Good :
    (items : List (Item ℕ ℕ))
    → Distinct number_key items
    → Good number_key mutex_locking 0 nobody (bucket_with items)
bucket_with-Good items d = record { free = refl; held = mutex_locking.fresh_Is; distinct = d }

filled-AllGood : AllGood number_key mutex_locking filled.buckets
unfolding lookup
filled-AllGood zero b e =
    subst (Good number_key mutex_locking 0 nobody) (some-injective _ _ e)
      (bucket_with-Good _ (refl, (refl, tt)))
filled-AllGood (suc zero) b e =
    subst (Good number_key mutex_locking 0 nobody) (some-injective _ _ e) (bucket_with-Good _ tt)
filled-AllGood (suc (suc i)) b e = absurd (ground arith)

filled-Tidy : Tidy number_key mutex_locking filled
unfolding total
filled-Tidy = record {
  lock = mutex_locking.fresh_Is;
  buckets = omega arith;
  good = filled-AllGood;
  len = refl;
}

insert-find_example :
    Returns
      (λ _ t.
        Tidy number_key mutex_locking t
        × ((q : ℕ)
            → find number_key mutex_locking t.buckets q
              ≡ (if 4 == q then some 44 else find number_key mutex_locking filled.buckets q))
        × (t.len ≡ 2))
      (insert number_key mutex_locking 4 44 filled)
unfolding lookup
insert-find_example = insert-find number_key mutex_locking 4 44 filled filled-Tidy (omega arith)

remove-find_example :
    Returns
      (λ o t.
        (o ≡ some 40)
        × Tidy number_key mutex_locking t
        × ((q : ℕ)
            → find number_key mutex_locking t.buckets q
              ≡ (if 4 == q then none else find number_key mutex_locking filled.buckets q))
        × (t.len + (if is_some o then 1 else 0) ≡ 2))
      (remove number_key mutex_locking 4 filled)
unfolding lookup
remove-find_example = remove-find number_key mutex_locking 4 filled filled-Tidy (omega arith)

get-find_example :
    Returns
      (λ o t.
        (o ≡ some 40)
        × Tidy number_key mutex_locking t
        × ((q : ℕ)
            → find number_key mutex_locking t.buckets q
              ≡ find number_key mutex_locking filled.buckets q)
        × (t.len ≡ 2))
      ((do o ← get number_key mutex_locking 4; drop_ref number_key mutex_locking 4 o; pure o)
        filled)
unfolding lookup
get-find_example = get-find number_key mutex_locking 4 filled filled-Tidy

get_mut-find_example :
    Returns
      (λ o t.
        (o ≡ some 40)
        × Tidy number_key mutex_locking t
        × ((q : ℕ)
            → find number_key mutex_locking t.buckets q ≡ (
                if is_some o && (4 == q)
                then some 44
                else find number_key mutex_locking filled.buckets q))
        × (t.len ≡ 2))
      ((do o ← get_mut number_key mutex_locking 4; drop_mut number_key mutex_locking 4 44 o; pure o)
        filled)
unfolding lookup
get_mut-find_example = get_mut-find number_key mutex_locking 4 44 filled filled-Tidy

collect-iter_example :
    Returns
      (λ items t.
        (items ≡ (6, 60) ∷ (4, 40) ∷ [])
        × Tidy number_key mutex_locking t
        × (t.buckets ≡ filled.buckets)
        × (length items ≡ t.len))
      ((do
        it ← iter number_key mutex_locking
        items ← collect number_key mutex_locking 3 it
        drop_iter number_key mutex_locking
        pure items)
        filled)
collect-iter_example = collect-iter number_key mutex_locking filled filled-Tidy

-- A value replaced, one removed and one left, with two handles for a while.
abbrev forty : ℕ
forty = 40

abbrev three_values : List (Request ℕ ℕ)
three_values =
    inserts 4 forty ∷ clones ∷ inserts 4 44 ∷ gets 4 ∷ inserts 6 60 ∷ drops ∷ removes 6 ∷ []

owned_once_example :
    Returns
      (λ (vs, gone) t.
        (gone ≡ true)
        × ((i : ℕ) (b : Bucket ℕ InnerMutex ℕ) → get_elem? t.buckets i ≡ some b → b.head ≡ [])
        × ((w : ℕ → ℕ)
            → total w (inserted three_values)
              ≡ total (lost number_key mutex_locking w) t.buckets + total w vs))
      ((do
        vs ← run number_key mutex_locking three_values
        gone ← drop number_key mutex_locking
        pure (vs, gone))
        small)
unfolding handles
owned_once_example =
    owned_once number_key mutex_locking 2 three_values (omega arith) (omega arith) refl
