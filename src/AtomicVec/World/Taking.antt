-- ===== src/AtomicVec/World/Taking.antt =====
-- Steps of `pop` (src/collections/atomic_vec.rs) that unlink an item and free it.
use acar.Prelude.{
  ℕ, ◌+◌, ◌<◌, ◌^◌, ◌≡◌, ◌≢◌, ◌⊎◌, refl, true, false, Option, none, some, [], ◌∷◌, ◌++◌, ◌==◌,
  arith, inl, inr, sym, ◌∙◌, ap, append_assoc, wrapping_dec,
}
use acar.AtomicVec.Heap.{Ptr, null, item, write, AtomicInner, ok}
use acar.AtomicVec.Rep.{Cells, first, has, arrived, Linked-write, Waiting, returned}
use acar.AtomicVec.{unlink, reclaim}
use acar.AtomicVec.Unlink.{unlinked, unlink-cons, unlinked-Rep, load-ok, free-ok}
use acar.AtomicVec.Threads.{Shared, step, unlinked_to, po_unlink, po_reclaim, idle}
use acar.AtomicVec.World.{World, Before, After, ran, apart_lem, World-eq, values}
use acar.AtomicVec.World.Linking.{at_one}

module _ {A : Type 0} where
  Cells-cases :
      (xs : Cells A) → (xs ≡ []) ⊎ ((p : Ptr) × (x : A) × (r : Cells A) × (xs ≡ (p, x) ∷ r))
  Cells-cases [] = inl refl
  Cells-cases ((p, x) ∷ r) = inr (p, x, r, refl)

  unlink-nil : (v : AtomicInner A) → v.head ≡ null → unlink v ≡ ok null v
  unfolding unlink
  unlink-nil v e = let empty : (v.head == null) ≡ true = ground arith in rw empty refl

  -- The first item of the list goes to the thread.
  unlink_first :
      {s : Shared A} {h out : ℕ} {n : Ptr → ℕ} (p : Ptr) (x : A) (r : Cells A) (w : World s h out n)
      → w.items ≡ (p, x) ∷ r
      → World
          (record s { vec = unlinked s.vec r; taken = s.taken ++ x ∷ [] })
          h
          (out + 1)
          (λ a. n a + at_one p a)
  unfolding unlinked
  unlink_first {s} p x r w e =
      let rep = rw e at w.rep in
      record {
        items = r;
        waiting = w.waiting;
        rep = unlinked-Rep rep;
        lock = w.lock;
        owned = λ a. let o = rw e at (w.owned a) in ground (arith, rep.linked.2, o);
        no_null = w.no_null;
        history =
            w.history
            ∙ ap (λ l. s.taken ++ values l) e
            ∙ sym (append_assoc s.taken (x ∷ []) (values r));
      }

  module _ (s : Shared A) (h out : ℕ) (n : Ptr → ℕ) where
    pub po_unlink_keeps : Before s h out n po_unlink → After s h out n (step po_unlink s)
    unfolding step unlinked
    po_unlink_keeps (w, own, room) = elim (Cells-cases w.items) [
      | inl e ↦
          let rep = rw e at w.rep in
          ran s h out n _
            (returned {P = λ q v. After s h out n (unlinked_to (s.vec.heap q) q v s)}
              (unlink-nil s.vec rep.head)
              (rw w.no_null (record { world = w; own = tt; same = λ a _. refl })))
            λ _ _ done. done
      | inr (p, x, r, e) ↦
          let rep = rw e at w.rep in
          ran s h out n _
            (returned {P = λ q v. After s h out n (unlinked_to (s.vec.heap q) q v s)}
              (unlink-cons s.vec p x r rep.head rep.tail rep.linked)
              (rw rep.linked.1 (record {
                world = World-eq (unlink_first p x r w e) refl (omega arith) (λ a. omega arith);
                own = (first r, rep.linked.1);
                same = λ a _. refl;
              })))
            λ _ _ done. done
    ]

  Waiting-free :
      (v : AtomicInner A) (xs : Cells A) (w : Option (Ptr × A)) (q : Ptr) (n : ℕ)
      → Waiting v xs w
      → has q (arrived [] w) ≡ false
      → Waiting (record v { heap = write v.heap q none; len = n }) xs w
  unfolding write
  Waiting-free v xs none q n h out = h
  Waiting-free v xs (some (p, y)) q n (at, alone) out = (
    at,
    record { ne_null = alone.ne_null; holds = ground (arith, alone.holds); apart = alone.apart },
  )

  -- The item of a thread is freed.
  freed :
      {s : Shared A} {h out : ℕ} {n : Ptr → ℕ} (q : Ptr)
      → World s h (out + 1) (λ a. n a + at_one q a)
      → s.vec.len < 2 ^ 64
      → World
          (record s {
            vec = record s.vec { heap = write s.vec.heap q none; len = wrapping_dec s.vec.len };
          })
          h
          out
          n
  unfolding write
  freed {s} q w room =
      let (apart, other, _, ne) = apart_lem w q (ground arith) in
      record {
        items = w.items;
        waiting = w.waiting;
        rep = record {
          head = w.rep.head;
          tail = w.rep.tail;
          linked = Linked-write s.vec.heap q none w.items w.rep.linked apart;
          waiting =
              Waiting-free s.vec w.items w.waiting q (wrapping_dec s.vec.len) w.rep.waiting other;
          len = omega (arith, w.rep.len);
          lock = refl;
        };
        lock = w.lock;
        owned = λ a. ground (arith, w.owned a, apart, other);
        no_null = ground (arith, w.no_null);
        history = w.history;
      }

  -- `reclaim` of an item that a thread has to itself returns its value.
  pub reclaim-own :
      (v : AtomicInner A) (q : Ptr) (y : A) (next : Ptr)
      → q ≢ null
      → v.heap q ≡ some (item y next)
      → reclaim q v
        ≡ ok (some y) (record v { heap = write v.heap q none; len = wrapping_dec v.len })
  unfolding reclaim
  reclaim-own v q y next ne e =
      let some_item : (q == null) ≡ false = ground arith in
      rw (some_item, load-ok v q e, free-ok v q e) refl

  module _ (s : Shared A) (h out : ℕ) (n : Ptr → ℕ) where
    pub po_reclaim_keeps :
        (q : Ptr) (y : A)
        → Before s h out n (po_reclaim q y)
        → After s h out n (step (po_reclaim q y) s)
    unfolding step write
    po_reclaim_keeps q y (w, (next, e), room) =
        ran s h out n _
          (returned {P = λ _ v. After s h out n (idle, record s { vec = v })}
            (reclaim-own s.vec q y next (apart_lem w q (ground arith)).3 e)
            (record {
              world = World-eq (freed q w (omega arith)) refl (omega arith) (λ a. omega arith);
              own = tt;
              same = λ a pos. ground (arith, apart_lem w a (omega arith));
            }))
          λ _ _ done. done
