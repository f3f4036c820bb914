-- ===== src/AtomicHashMap/World.antt =====
-- What a bucket of src/collections/atomic_hashmap.rs and the guards of its values are between two steps,
-- and that every step keeps it.
pub mod Agrees
pub mod Searches
pub mod Steps
use acar.Prelude.{
  ℕ, zero, suc, ◌+◌, ◌-◌, ◌<◌, ◌≡◌, ◌≢◌, ◌⊎◌, refl, Bool, true, false, Option, none, some, List, [],
  ◌∷◌, ◌==◌, if◌then◌else◌, is_some, total, arith, Bool-cases, Option-cases, inl, inr, sym, ◌∙◌, ap,
}
use mathlib.Core.Option.{some-injective}
use acar.Utils.{Address}
use acar.AtomicHashMap.Locks.{Stands, Stands-eq, is_free, is_exclusive, joined, left}
use acar.AtomicHashMap.Chain.{Key, Distinct}
use acar.AtomicHashMap.Log.{count, latest, value_of}
use acar.AtomicHashMap.Threads.{
  Shared, Op, inserts, gets, gets_mut, removes, Pc, idle, locks, searches, reads, writes, awaits,
  frees, faulted, step, store, insert_at, get_at, get_mut_at, remove_at, search,
}
use acar.AtomicHashMap.System.{locking, reading, owning, settling, removed, Holds, Fits}

abbrev pub bit : Bool → ℕ
bit b = if b then 1 else 0

module _ (K : Key) {V : Type 0} where
  open K use {Carrier}

  -- How `state` and `ref_locked` stand with `lk` threads that have locked the bucket, `rd` shared
  -- guards, `ow` owners of `ref_locked` and `st` threads that are to store DIRTY in it; and where each
  -- allocated item is: once in the chain, or with the one thread that has removed it. No two items of the
  -- chain have the same key, and each key has the value that the log gives it.
  pub record World (s : Shared Carrier V) (lk rd ow st : ℕ) (n : Address → ℕ) : Type 0 where
    pub lock : lk ≡ (if s.available then 0 else 1)
    pub held : Stands s.held rd ow st
    pub placed : (a : Address) → count K a s.head + n a ≡ bit (is_some (s.heap a))
    pub distinct : Distinct K s.head
    pub agrees : (q : Carrier) → value_of K q s.head s.heap ≡ latest K q s.log

  pub World-eq :
      {s : Shared Carrier V} {lk lk' rd rd' ow ow' st st' : ℕ} {n n' : Address → ℕ}
      → World s lk rd ow st n
      → lk ≡ lk'
      → rd ≡ rd'
      → ow ≡ ow'
      → st ≡ st'
      → ((a : Address) → n a ≡ n' a)
      → World s lk' rd' ow' st' n'
  World-eq w e f g z h = record {
    lock = omega (arith, w.lock);
    held = Stands-eq w.held f g z;
    placed = λ a. omega (arith, w.placed a, h a);
    distinct = w.distinct;
    agrees = w.agrees;
  }

  module _ (s : Shared Carrier V) (lk rd ow st : ℕ) (n : Address → ℕ) where
    abbrev pub Before : Pc Carrier V → Type 0
    Before p =
        World s (lk + locking p) (rd + reading p) (ow + owning p) (st + settling p)
          (λ a. n a + removed a p)
        × Holds s.heap p

    -- What a step leaves; as long as another thread has a guard, every item is as it was.
    pub record After (r : Pc Carrier V × Shared Carrier V) : Type 0 where
      pub world :
          World r.1
            (lk + locking r.0)
            (rd + reading r.0)
            (ow + owning r.0)
            (st + settling r.0)
            (λ a. n a + removed a r.0)
      pub own : Holds r.1.heap r.0
      pub same : (a : Address) → 0 < rd + ow → is_some (s.heap a) ≡ true → r.1.heap a ≡ s.heap a

    pub either :
        (b : Bool) {r t : Pc Carrier V × Shared Carrier V}
        → (b ≡ true → After r)
        → (b ≡ false → After t)
        → After (if b then r else t)
    either true first second = first refl
    either false first second = second refl

    pub stays : (p : Pc Carrier V) → Before p → After (p, s)
    stays p (w, own) = record { world = w; own = own; same = λ a _ e. refl }
