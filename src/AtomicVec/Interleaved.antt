-- ===== src/AtomicVec/Interleaved.antt =====
-- The invariant of a vector of src/collections/atomic_vec.rs, whatever its threads do and in whatever
-- order.
use acar.Prelude.{
  ℕ, ◌+◌, ◌-◌, ◌<◌, ◌^◌, ◌≡◌, ◌≢◌, refl, none, some, List, [], ◌==◌, get_elem?, set, replicate,
  total, arith, Bool-cases, inl, inr, moved, get_elem?-set, get_elem?-set_other, total-replicate,
  replicate-all, pair-le-total, sym, ◌∙◌,
}
use mathlib.Core.Path.{subst}
use mathlib.Core.Option.{some-injective}
use acar.AtomicVec.Heap.{Ptr, null, Heap, write}
use acar.AtomicVec.Rep.{new-Rep}
use acar.AtomicVec.Threads.{
  Shared, Pc, step, idle, pu_busy, pu_leave, pu_lock, pu_link, rl_swap, rl_link, rl_open, po_lock,
  po_unlink, po_reclaim, faulted,
}
use acar.AtomicVec.System.{
  System, Reach, start, access, push, pop, allocate, init, holds, uncounted, owns, Holds,
}
use acar.AtomicVec.World.{
  World, World-eq, Before, After, pu_busy_keeps, pu_leave_keeps, pu_lock_keeps, po_lock_keeps,
}
use acar.AtomicVec.World.Linking.{
  pu_link_keeps, rl_swap_keeps, rl_link_keeps, rl_open_keeps, HoldsTaken-same, at_one,
}
use acar.AtomicVec.World.Taking.{po_unlink_keeps, po_reclaim_keeps}
use acar.AtomicVec.Push.{allocated, allocated-Rep}

module _ {A : Type 0} where
  step_keeps :
      (s : Shared A) (h out : ℕ) (n : Ptr → ℕ) (p : Pc A)
      → Before s h out n p
      → After s h out n (step p s)
  unfolding step
  step_keeps s h out n idle (w, own, room) = record { world = w; own = own; same = λ a _. refl }
  step_keeps s h out n (pu_busy p x) b = pu_busy_keeps s h out n p x b
  step_keeps s h out n (pu_leave p x) b = pu_leave_keeps s h out n p x b
  step_keeps s h out n (pu_lock p x) b = pu_lock_keeps s h out n p x b
  step_keeps s h out n (pu_link p x) b = pu_link_keeps s h out n p x b
  step_keeps s h out n (rl_swap k) b = rl_swap_keeps s h out n k b
  step_keeps s h out n (rl_link p k) b = rl_link_keeps s h out n p k b
  step_keeps s h out n (rl_open k) b = rl_open_keeps s h out n k b
  step_keeps s h out n po_lock b = po_lock_keeps s h out n b
  step_keeps s h out n po_unlink b = po_unlink_keeps s h out n b
  step_keeps s h out n (po_reclaim q y) b = po_reclaim_keeps s h out n q y b
  step_keeps s h out n faulted (w, own, room) = elim own [ ]

  -- What a thread's own items hold changes only where they do.
  Holds-same :
      {h g : Heap A} (p : Pc A) → Holds h p → ((a : Ptr) → 0 < owns a p → g a ≡ h a) → Holds g p
  Holds-same idle own same = tt
  Holds-same (pu_busy p x) own same = same p (ground arith) ∙ own
  Holds-same (pu_leave p x) own same = same p (ground arith) ∙ own
  Holds-same (pu_lock p x) own same = same p (ground arith) ∙ own
  Holds-same (pu_link p x) own same = same p (ground arith) ∙ own
  Holds-same (rl_swap k) own same = HoldsTaken-same k own same
  Holds-same (rl_link p k) ((x, e), own) same =
      ((x, same p (ground arith) ∙ e), HoldsTaken-same k own (λ a pos. same a (omega arith)))
  Holds-same (rl_open k) own same = HoldsTaken-same k own same
  Holds-same po_lock own same = tt
  Holds-same po_unlink own same = tt
  Holds-same (po_reclaim q y) (next, e) same = (next, same q (ground arith) ∙ e)
  Holds-same faulted own same = own

  pub record Inv (s : Shared A) (ts : List (Pc A)) : Type 0 where
    pub world : World s (total holds ts) (total uncounted ts) (λ a. total (owns a) ts)
    pub own : (i : ℕ) (p : Pc A) → get_elem? ts i ≡ some p → Holds s.vec.heap p

  -- Thread `i` moves from `p` to `q` and the vector becomes that of `t`; the others stay.
  module _ {s : Shared A} {ts : List (Pc A)} (inv : Inv s ts) (i : ℕ) {p : Pc A}
      (at : get_elem? ts i ≡ some p) where
    rest : (Pc A → ℕ) → ℕ
    rest w = total w ts - w p

    now :
        World s
          (rest holds + holds p)
          (rest uncounted + uncounted p)
          (λ a. rest (owns a) + owns a p)
    unfolding rest
    now =
        World-eq inv.world (moved holds ts i p at).before (moved uncounted ts i p at).before
          (λ a. (moved (owns a) ts i p at).before)

    move-Inv :
        (t : Shared A) (q : Pc A)
        → World t
            (rest holds + holds q)
            (rest uncounted + uncounted q)
            (λ a. rest (owns a) + owns a q)
        → Holds t.vec.heap q
        → ((a : Ptr) → 0 < rest (owns a) → t.vec.heap a ≡ s.vec.heap a)
        → Inv t (set ts i q)
    unfolding rest
    move-Inv t q w own same = record {
      world =
          World-eq w (sym (moved holds ts i q at).after) (sym (moved uncounted ts i q at).after)
            (λ a. sym (moved (owns a) ts i q at).after);
      own = λ j r there. elim (Bool-cases (i == j)) [
        | inl e ↦
            let same_i : j ≡ i = ground arith in
            let there_i : get_elem? (set ts i q) i ≡ some r = rw same_i at there in
            subst (Holds t.vec.heap) (some-injective q r (sym (get_elem?-set ts i q at) ∙ there_i))
              own
        | inr e ↦
            let ne : i ≢ j = ground arith in
            let before = sym (get_elem?-set_other ts i j q ne) ∙ there in
            Holds-same r (inv.own j r before)
              (λ a pos. same a (omega (arith, pos, pair-le-total (owns a) ts i j ne at before)))
      ];
    }

    access-Inv : s.vec.len + 1 < 2 ^ 64 → Inv (step p s).1 (set ts i (step p s).0)
    unfolding rest
    access-Inv room =
        let after =
          step_keeps s (rest holds) (rest uncounted) (λ a. rest (owns a)) p
            (now, inv.own i p at, room) in
        move-Inv (step p s).1 (step p s).0 after.world after.own after.same

  allocated_world :
      {s : Shared A} {h out : ℕ} {n : Ptr → ℕ} (p : Ptr) (x : A)
      → World s h out n
      → p ≢ null
      → s.vec.heap p ≡ none
      → World (allocate p x s) h out (λ a. n a + at_one p a)
  unfolding write allocated
  allocated_world {s} p x w ne fresh = record {
    items = w.items;
    waiting = w.waiting;
    rep = allocated-Rep w.rep p x fresh;
    lock = w.lock;
    owned = λ a. ground (arith, w.owned a, w.owned p, fresh);
    no_null = ground (arith, w.no_null);
    history = w.history;
  }

  push-Inv :
      {s : Shared A} {ts : List (Pc A)} (inv : Inv s ts) (i : ℕ) (p : Ptr) (x : A)
      → get_elem? ts i ≡ some idle
      → p ≢ null
      → s.vec.heap p ≡ none
      → Inv (allocate p x s) (set ts i (pu_busy p x))
  unfolding rest write
  push-Inv {s} {ts} inv i p x at ne fresh =
      move-Inv inv i at (allocate p x s) (pu_busy p x)
        (World-eq (allocated_world p x (now inv i at) ne fresh) refl refl (λ a. omega arith))
        (ground arith) (λ a pos. let o = (now inv i at).owned a in ground (arith, o, fresh))

  pop-Inv :
      {s : Shared A} {ts : List (Pc A)} (inv : Inv s ts) (i : ℕ)
      → get_elem? ts i ≡ some idle
      → Inv s (set ts i po_lock)
  unfolding rest
  pop-Inv {s} inv i at = move-Inv inv i at s po_lock (now inv i at) tt (λ a _. refl)

  init-World : (n : ℕ) → World (init {A = A} n).shared 0 0 (λ a. 0)
  init-World n = record {
    items = [];
    waiting = none;
    rep = new-Rep;
    lock = refl;
    owned = λ a. refl;
    no_null = refl;
    history = refl;
  }

  total-idle : (w : Pc A → ℕ) (n : ℕ) → w idle ≡ 0 → 0 ≡ total w (replicate n idle)
  total-idle w n h = sym (total-replicate w n idle h)

  init-Inv : (n : ℕ) → Inv (init n).shared (init n).threads
  init-Inv n = record {
    world =
        World-eq (init-World n) (total-idle holds n refl) (total-idle uncounted n refl)
          (λ a. total-idle (owns a) n refl);
    own = λ i p e. replicate-all (Holds (λ a. none)) n idle tt i p e;
  }

  pub Reach-Inv : {n : ℕ} {s : System A} → Reach n s → Inv s.shared s.threads
  Reach-Inv {n} start = init-Inv n
  Reach-Inv (access i r at room) = access-Inv (Reach-Inv r) i at room
  Reach-Inv (push i p x r at ne fresh) = push-Inv (Reach-Inv r) i p x at ne fresh
  Reach-Inv (pop i r at) = pop-Inv (Reach-Inv r) i at
