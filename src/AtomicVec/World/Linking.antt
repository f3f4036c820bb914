-- ===== src/AtomicVec/World/Linking.antt =====
-- Steps that link an item of a thread in, and the steps of `release` (src/collections/atomic_vec.rs).
use acar.Prelude.{
  ℕ, ◌+◌, ◌<◌, ◌^◌, ◌≡◌, refl, Bool, true, false, Option, none, some, [], ◌∷◌, ◌++◌, ◌==◌,
  if◌then◌else◌, is_some, arith, inl, inr, sym, ◌∙◌, ap, append_assoc,
}
use acar.AtomicVec.Heap.{Ptr, null, Heap, Item, item, write, AtomicInner}
use acar.AtomicVec.Rep.{
  Cells, has, Alone, Linked, Rep, Returns, mono, joined, joined-outside, has-append,
}
use acar.AtomicVec.{update_tail}
use acar.AtomicVec.Tail.{linked_in, update_tail-Rep}
use acar.AtomicVec.Push.{locked-Rep}
use acar.AtomicVec.Threads.{Shared, step, Taken, pu_link, rl_swap, rl_link, rl_open, value_at}
use acar.AtomicVec.System.{owns_taken, counted_in, HoldsTaken}
use acar.AtomicVec.World.{World, Before, After, either, ran, apart_lem, waits_at, World-eq, values}

abbrev pub at_one : Ptr → Ptr → ℕ
at_one p a = if a == p then 1 else 0

module _ {A : Type 0} where
  joined-is_some :
      (h : Heap A) (xs : Cells A) (b a : Ptr)
      → Linked h xs
      → is_some (joined h xs b a) ≡ is_some (h a)
  unfolding joined write
  joined-is_some h [] b a l = refl
  joined-is_some h ((p, x) ∷ []) b a (ne, e, fresh, l) = ground arith
  joined-is_some h (c ∷ d ∷ r) b a (ne, e, fresh, l) = joined-is_some h (d ∷ r) b a l

  values-append : (xs ys : Cells A) → values (xs ++ ys) ≡ values xs ++ values ys
  values-append [] ys = refl
  values-append ((p, x) ∷ xs) ys = ap (λ l. x ∷ l) (values-append xs ys)

  Rep-own :
      {v : AtomicInner A} {xs : Cells A} {w : Option (Ptr × A)} {free : Bool} {out : ℕ}
      → Rep v xs w free out
      → Rep v xs w v.available out
  Rep-own r = record {
    head = r.head;
    tail = r.tail;
    linked = r.linked;
    waiting = r.waiting;
    len = r.len;
    lock = refl;
  }

  pub value_at-some :
      (h : Heap A) (p : Ptr) {c : Item A} → h p ≡ some c → value_at h p ≡ c.value ∷ []
  value_at-some h p e = rw (value_at, e) refl

  null_apart :
      {s : Shared A} {h out : ℕ} {n : Ptr → ℕ} (w : World s h out n) → has null w.items ≡ false
  null_apart {s} w = ground (arith, w.owned null, w.no_null)

  -- Linking an item of a thread in moves it to the end of the list.
  link_in :
      {s : Shared A} {h out : ℕ} {n : Ptr → ℕ} (p : Ptr) (x : A)
      → World s h out (λ a. n a + at_one p a)
      → s.vec.heap p ≡ some (item x null)
      → s.vec.len + 1 < 2 ^ 64
      → Returns
          (λ _ v.
            World (record s { vec = v; linked = s.linked ++ value_at s.vec.heap p }) h out n
            × ((a : Ptr) → 0 < n a → v.heap a ≡ s.vec.heap a))
          (update_tail p s.vec)
  unfolding linked_in
  link_in {s} {n} p x w e room =
      let (apart, other, _, ne) = apart_lem w p (ground arith) in
      let alone : Alone s.vec.heap w.items p x = record {
        ne_null = ne;
        holds = e;
        apart = apart;
      } in
      mono
        (update_tail-Rep s.vec w.items w.waiting _ _ p x w.rep alone other
          (omega (arith, w.rep.len, room)))
        λ _ v (same, rep).
          let heap : (a : Ptr) → v.heap a ≡ joined s.vec.heap w.items p a =
            λ a. ap (λ u. u.heap a) same in
          (
            record {
              items = w.items ++ (p, x) ∷ [];
              waiting = w.waiting;
              rep = Rep-own rep;
              lock = rw rep.lock w.lock;
              owned = λ a.
                  rw
                    (
                      heap a,
                      joined-is_some s.vec.heap w.items p a w.rep.linked,
                      has-append a w.items ((p, x) ∷ []),
                    )
                    (ground (arith, w.owned a, apart));
              no_null =
                  heap null ∙ joined-outside s.vec.heap w.items p null (null_apart w) ∙ w.no_null;
              history =
                  ap (λ l. s.linked ++ l) (value_at-some s.vec.heap p e)
                  ∙ ap (λ l. l ++ x ∷ []) w.history
                  ∙ append_assoc s.taken (values w.items) (x ∷ [])
                  ∙ ap (λ l. s.taken ++ l) (sym (values-append w.items ((p, x) ∷ [])));
            },
            λ a pos. heap a ∙ joined-outside s.vec.heap w.items p a (apart_lem w a (omega arith)).0,
          )

  pub HoldsTaken-same :
      {h g : Heap A} (k : Taken A)
      → HoldsTaken h k
      → ((a : Ptr) → 0 < owns_taken a k → g a ≡ h a)
      → HoldsTaken g k
  HoldsTaken-same none own same = tt
  HoldsTaken-same (some (q, y)) (next, e) same = (next, same q (ground arith) ∙ e)

  -- The lock is given back.
  opened :
      {s : Shared A} (h : ℕ) {out : ℕ} {n : Ptr → ℕ}
      → World s (h + 1) out n
      → World (record s { vec = record s.vec { available = true } }) (h + 0) out n
  opened {s} h w = record {
    items = w.items;
    waiting = w.waiting;
    rep = locked-Rep w.rep true;
    lock = ground (arith, w.lock);
    owned = w.owned;
    no_null = w.no_null;
    history = w.history;
  }

  module _ (s : Shared A) (h out : ℕ) (n : Ptr → ℕ) where
    pub pu_link_keeps :
        (p : Ptr) (x : A) → Before s h out n (pu_link p x) → After s h out n (step (pu_link p x) s)
    unfolding step
    pu_link_keeps p x (w, own, room) = ran s h out n _ (link_in p x w own room) λ _ v (world, same).
        record { world = World-eq world refl refl (λ a. omega arith); own = tt; same = same }

    pub rl_link_keeps :
        (p : Ptr) (k : Taken A)
        → Before s h out n (rl_link p k)
        → After s h out n (step (rl_link p k) s)
    unfolding step
    rl_link_keeps p k (w, ((x, e), own), room) =
        let w' : World s (h + 1) (out + counted_in k) (λ a. n a + owns_taken a k + at_one p a) =
          World-eq w refl refl (λ a. omega arith) in
        ran s h out n _ (link_in p x w' e room) λ _ v (world, same). record {
          world = world;
          own = HoldsTaken-same k own (λ a pos. same a (omega arith));
          same = λ a pos. same a (omega arith);
        }

    pub rl_swap_keeps :
        (k : Taken A) → Before s h out n (rl_swap k) → After s h out n (step (rl_swap k) s)
    unfolding step
    rl_swap_keeps k (w, own, room) =
        either s h out n (s.vec.t_tail == null)
          (λ e. elim (waits_at s.vec w.items w.waiting w.rep.waiting) [
            | inr (f, _) ↦ absurd (ground arith)
            | inl (_, free) ↦ record {
              world = record {
                items = w.items;
                waiting = none;
                rep = record {
                  head = w.rep.head;
                  tail = w.rep.tail;
                  linked = w.rep.linked;
                  waiting = (refl, tt);
                  len = w.rep.len;
                  lock = refl;
                };
                lock = w.lock;
                owned = λ a. rw free at (w.owned a);
                no_null = w.no_null;
                history = w.history;
              };
              own = own;
              same = λ a _. refl;
            }
          ])
          (λ e. elim (waits_at s.vec w.items w.waiting w.rep.waiting) [
            | inl (f, _) ↦ absurd (ground arith)
            | inr (_, (x, there)) ↦
                let (_, alone) = rw there at w.rep.waiting in
                record {
                  world = record {
                    items = w.items;
                    waiting = none;
                    rep = record {
                      head = w.rep.head;
                      tail = w.rep.tail;
                      linked = w.rep.linked;
                      waiting = (refl, tt);
                      len = w.rep.len;
                      lock = refl;
                    };
                    lock = w.lock;
                    owned = λ a. let o = rw there at (w.owned a) in ground (arith, o);
                    no_null = w.no_null;
                    history = w.history;
                  };
                  own = ((x, alone.holds), own);
                  same = λ a _. refl;
                }
          ])

    pub rl_open_keeps :
        (k : Taken A) → Before s h out n (rl_open k) → After s h out n (step (rl_open k) s)
    unfolding step
    rl_open_keeps none (w, own, room) = record { world = opened h w; own = tt; same = λ a _. refl }
    rl_open_keeps (some (q, y)) (w, own, room) = record {
      world = opened h w;
      own = own;
      same = λ a _. refl;
    }
