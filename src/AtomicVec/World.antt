-- ===== src/AtomicVec/World.antt =====
-- What a vector of src/collections/atomic_vec.rs and the items of its threads are between two steps,
-- and that every step keeps it.
pub mod Linking
pub mod Taking
use acar.Prelude.{
  ℕ, ◌+◌, ◌<◌, ◌^◌, ◌≡◌, ◌≢◌, ◌⊎◌, refl, Bool, true, false, Option, none, some, List, [], ◌∷◌, ◌++◌,
  ◌==◌, if◌then◌else◌, is_some, arith, Bool-cases, Option-cases, inl, inr, sym, ◌∙◌, ap,
}
use acar.AtomicVec.Heap.{Ptr, null, Heap, item, AtomicInner, Run}
use acar.AtomicVec.Rep.{Cells, has, arrived, Alone, Waiting, Rep, Returns, returns}
use acar.AtomicVec.Push.{locked-Rep}
use acar.AtomicVec.Threads.{
  Shared, Pc, step, after_run, Taken, idle, pu_busy, pu_leave, pu_lock, pu_link, rl_swap, rl_link,
  rl_open, released_to, po_lock, po_unlink, po_reclaim,
}
use acar.AtomicVec.System.{holds, uncounted, owns, Holds}

abbrev pub bit : Bool → ℕ
bit b = if b then 1 else 0

module _ {A : Type 0} where
  abbrev pub values : Cells A → List A
  values [] = []
  values ((p, x) ∷ xs) = x ∷ values xs

  -- The list and the waiting item that the vector stands for, with `h` threads holding the lock, `out`
  -- unlinked items that are still counted, and `n a` items of threads at the address `a`. Every
  -- item in the heap is in exactly one place, and the values linked in are those unlinked and
  -- those of the list, in order.
  pub record World (s : Shared A) (h out : ℕ) (n : Ptr → ℕ) : Type 0 where
    pub items : Cells A
    pub waiting : Option (Ptr × A)
    pub rep : Rep s.vec items waiting s.vec.available out
    pub lock : h ≡ (if s.vec.available then 0 else 1)
    pub owned :
        (a : Ptr)
        → bit (has a items) + bit (has a (arrived [] waiting)) + n a ≡ bit (is_some (s.vec.heap a))
    pub no_null : s.vec.heap null ≡ none
    pub history : s.linked ≡ s.taken ++ values items

  -- An item that a thread has to itself is in no list.
  pub apart_lem :
      {s : Shared A} {h out : ℕ} {n : Ptr → ℕ} (w : World s h out n) (a : Ptr)
      → 0 < n a
      → (has a w.items ≡ false) × (has a (arrived [] w.waiting) ≡ false) × (n a ≡ 1) × (a ≢ null)
  apart_lem {s} w a pos = (
    ground (arith, w.owned a),
    ground (arith, w.owned a),
    ground (arith, w.owned a),
    λ e. ground (arith, w.owned a, w.no_null, ap s.vec.heap e),
  )

  pub World-eq :
      {s : Shared A} {h h' out out' : ℕ} {n n' : Ptr → ℕ}
      → World s h out n
      → h ≡ h'
      → out ≡ out'
      → ((a : Ptr) → n a ≡ n' a)
      → World s h' out' n'
  World-eq w e f g = record {
    items = w.items;
    waiting = w.waiting;
    rep = rw (← f) w.rep;
    lock = rw (← e) w.lock;
    owned = λ a. omega (arith, w.owned a, g a);
    no_null = w.no_null;
    history = w.history;
  }

  -- The lock is taken.
  pub took :
      {s : Shared A} {h out : ℕ} {n : Ptr → ℕ}
      → World s h out n
      → s.vec.available ≡ true
      → World (record s { vec = record s.vec { available = false } }) (h + 1) out n
  took {s} w free = record {
    items = w.items;
    waiting = w.waiting;
    rep = locked-Rep w.rep false;
    lock = let e = rw free at w.lock in omega arith;
    owned = w.owned;
    no_null = w.no_null;
    history = w.history;
  }

  pub waits_at :
      (v : AtomicInner A) (xs : Cells A) (w : Option (Ptr × A))
      → Waiting v xs w
      → ((v.t_tail == null) ≡ true) × (w ≡ none)
        ⊎ ((v.t_tail == null) ≡ false) × ((x : A) × (w ≡ some (v.t_tail, x)))
  waits_at v xs none (e, _) = inl (ground arith, refl)
  waits_at v xs (some (p, x)) (e, alone) =
      inr (ground (arith, alone.ne_null), (x, ap (λ q. some (q, x)) (sym e)))

  module _ (s : Shared A) (h out : ℕ) (n : Ptr → ℕ) where
    -- The thread stands at the point, and there is room for one more item.
    abbrev pub Before : Pc A → Type 0
    Before p =
        World s (h + holds p) (out + uncounted p) (λ a. n a + owns a p)
        × Holds s.vec.heap p
        × (s.vec.len + 1 < 2 ^ 64)

    -- What a step leaves, the items of the other threads as they were.
    pub record After (r : Pc A × Shared A) : Type 0 where
      pub world : World r.1 (h + holds r.0) (out + uncounted r.0) (λ a. n a + owns a r.0)
      pub own : Holds r.1.vec.heap r.0
      pub same : (a : Ptr) → 0 < n a → r.1.vec.heap a ≡ s.vec.heap a

    pub either :
        (b : Bool) {r t : Pc A × Shared A}
        → (b ≡ true → After r)
        → (b ≡ false → After t)
        → After (if b then r else t)
    either true first second = first refl
    either false first second = second refl

    pub ran :
        {B : Type 0} {r : Run A B} (k : B → AtomicInner A → Pc A × Shared A)
        {P : B → AtomicInner A → Type 0}
        → Returns P r
        → ((b : B) (v : AtomicInner A) → P b v → After (k b v))
        → After (after_run r s k)
    ran k (returns p) next = next _ _ p

    pub pu_busy_keeps : (p : Ptr) (x : A) → Before (pu_busy p x) → After (step (pu_busy p x) s)
    unfolding step
    pu_busy_keeps p x (w, own, room) =
        either s.vec.available (λ _. record { world = w; own = own; same = λ a _. refl })
          (λ _. record { world = w; own = own; same = λ a _. refl })

    pub pu_leave_keeps : (p : Ptr) (x : A) → Before (pu_leave p x) → After (step (pu_leave p x) s)
    unfolding step
    pu_leave_keeps p x (w, own, room) =
        either (s.vec.t_tail == null)
          (λ e. elim (waits_at s.vec w.items w.waiting w.rep.waiting) [
            | inr (f, _) ↦ absurd (ground arith)
            | inl (_, free) ↦
                let (apart, _, _, ne) = apart_lem w p (ground arith) in
                record {
                  world = record {
                    items = w.items;
                    waiting = some (p, x);
                    rep = record {
                      head = w.rep.head;
                      tail = w.rep.tail;
                      linked = w.rep.linked;
                      waiting = (refl, record { ne_null = ne; holds = own; apart = apart });
                      len = w.rep.len;
                      lock = refl;
                    };
                    lock = w.lock;
                    owned = λ a. let o = rw free at (w.owned a) in ground (arith, o);
                    no_null = w.no_null;
                    history = w.history;
                  };
                  own = tt;
                  same = λ a _. refl;
                }
          ])
          (λ _. record { world = w; own = own; same = λ a _. refl })

    pub pu_lock_keeps : (p : Ptr) (x : A) → Before (pu_lock p x) → After (step (pu_lock p x) s)
    unfolding step
    pu_lock_keeps p x (w, own, room) =
        either s.vec.available
          (λ e. record {
            world = World-eq (took w e) (omega arith) refl (λ a. refl);
            own = own;
            same = λ a _. refl;
          })
          (λ _. record { world = w; own = own; same = λ a _. refl })

    pub po_lock_keeps : Before po_lock → After (step po_lock s)
    unfolding step
    po_lock_keeps (w, own, room) =
        either s.vec.available
          (λ e. record {
            world = World-eq (took w e) (omega arith) refl (λ a. refl);
            own = tt;
            same = λ a _. refl;
          })
          (λ _. record { world = w; own = own; same = λ a _. refl })
