-- ===== src/AtomicHashMap/World/Steps.antt =====
-- Steps of threads in calls on one bucket of src/collections/atomic_hashmap.rs, and what they keep.
use acar.Prelude.{
  ℕ, ◌+◌, ◌≡◌, if◌then◌else◌, Bool-cases, refl, none, some, is_some, arith, Option-cases, inl, inr,
}
use acar.Utils.{Address}
use acar.AtomicHashMap.Chain.{Key}
use acar.AtomicHashMap.Log.{key_at-none, key_at-some}
use acar.AtomicHashMap.Threads.{
  Shared, Op, Pc, idle, locks, searches, reads, settles, settle, writes, awaits, frees, faulted,
  step, end_ref, end_mut, free, key_at,
}
use acar.AtomicHashMap.Locks.{
  Stands, Stands-eq, left, is_last, is_free, free_lem, taken_lem, left_lem, stored_lem, given_lem,
}
use acar.AtomicHashMap.System.{Fits, locking, reading, owning, settling, removed, Holds}
use acar.AtomicHashMap.World.{Before, After, either, stays}
use acar.AtomicHashMap.World.Agrees.{stored_agrees, outside_agrees}
use acar.AtomicHashMap.World.Searches.{search_keeps}

module _ (K : Key) {V : Type 0} (s : Shared K.Carrier V) (lk rd ow st : ℕ) (n : Address → ℕ) where
  open K use {Carrier}

  lock_keeps :
      (v : V) (o : Op Carrier V)
      → Before K s lk rd ow st n (locks o)
      → After K s lk rd ow st n (step K v (locks o) s)
  unfolding step
  lock_keeps v o (w, own) =
      either K s lk rd ow st n s.available
        (λ e. record {
          world = record {
            lock = ground (arith, w.lock);
            held = Stands-eq w.held (omega arith) (omega arith) (omega arith);
            placed = λ a. omega (arith, w.placed a);
            distinct = w.distinct;
            agrees = w.agrees;
          };
          own = tt;
          same = λ a _ e. refl;
        })
        (λ _. stays K s lk rd ow st n (locks o) (w, own))

  end_ref_keeps :
      (p : Address) → Before K s lk rd ow st n (reads p) → After K s lk rd ow st n (end_ref K p s)
  end_ref_keeps p (w, own) =
      let before : Stands s.held (rd + 1) ow st =
        Stands-eq w.held refl (omega arith) (omega arith) in
      let (member, stands) = left_lem s.held before in
      let end : (q : Pc Carrier V)
          → locking q ≡ 0
          → reading q ≡ 0
          → owning q ≡ 0
          → settling q ≡ (if is_last s.held then 1 else 0)
          → ((a : Address) → removed a q ≡ 0)
          → Holds s.heap q
          → After K s lk rd ow st n (q, record s { held = left s.held }) =
        λ q e f g h k holds. record {
          world = record {
            lock = ground (arith, w.lock, e);
            held = Stands-eq stands (omega (arith, f)) (omega (arith, g)) (omega (arith, h));
            placed = λ a. omega (arith, w.placed a, k a);
            distinct = w.distinct;
            agrees = w.agrees;
          };
          own = holds;
          same = λ a _ e. refl;
        } in
      either K s lk rd ow st n (is_some (s.heap p))
        (λ e. rw member (elim (Bool-cases (is_last s.held)) [
          | inl last ↦ rw last (end settles refl refl refl (rw last refl) (λ a. refl) tt)
          | inr more ↦ rw more (end idle refl refl refl (rw more refl) (λ a. refl) tt)
        ]))
        (λ e. absurd (ground arith))

  settle_keeps : Before K s lk rd ow st n settles → After K s lk rd ow st n (settle K s)
  settle_keeps (w, own) =
      let before : Stands s.held rd ow (st + 1) =
        Stands-eq w.held (omega arith) (omega arith) refl in
      record {
        world = record {
          lock = ground (arith, w.lock);
          held = Stands-eq (stored_lem s.held before) (omega arith) (omega arith) (omega arith);
          placed = λ a. omega (arith, w.placed a);
          distinct = w.distinct;
          agrees = w.agrees;
        };
        own = tt;
        same = λ a _ e. refl;
      }

  end_mut_keeps :
      (v : V) (p : Address)
      → Before K s lk rd ow st n (writes p)
      → After K s lk rd ow st n (end_mut K v p s)
  end_mut_keeps v p (w, own) =
      let (owned, alone, one, stands) = given_lem s.held w.held in
      either K s lk rd ow st n (is_some (s.heap p))
        (λ e. elim (Option-cases (key_at p s.head)) [
          | inl out ↦
              rw (out, owned)
                (record {
                  world = record {
                    lock = ground (arith, w.lock);
                    held = Stands-eq stands (omega arith) (omega arith) (omega arith);
                    placed = λ a. ground (arith, w.placed a);
                    distinct = w.distinct;
                    agrees = λ q. outside_agrees K w q p (some v) (key_at-none K p s.head out);
                  };
                  own = tt;
                  same = λ a pos e. absurd (omega (arith, pos, alone, one));
                })
          | inr (k, in_it) ↦
              rw (in_it, owned)
                (record {
                  world = record {
                    lock = ground (arith, w.lock);
                    held = Stands-eq stands (omega arith) (omega arith) (omega arith);
                    placed = λ a. ground (arith, w.placed a);
                    distinct = w.distinct;
                    agrees =
                        λ q. stored_agrees K w k q p v (key_at-some K p k s.head in_it w.distinct);
                  };
                  own = tt;
                  same = λ a pos e. absurd (omega (arith, pos, alone, one));
                })
        ])
        (λ e. absurd (ground arith))

  await_keeps :
      (v : V) (p : Address)
      → Before K s lk rd ow st n (awaits p)
      → After K s lk rd ow st n (step K v (awaits p) s)
  unfolding step
  await_keeps v p (w, own) =
      either K s lk rd ow st n (is_free s.held)
        (λ e.
          let (alone, unowned, settled) = free_lem s.held e w.held in
          record {
            world = record {
              lock = ground (arith, w.lock);
              held =
                  Stands-eq (taken_lem s.held e w.held) (omega arith) (omega arith) (omega arith);
              placed = λ a. omega (arith, w.placed a);
              distinct = w.distinct;
              agrees = w.agrees;
            };
            own = tt;
            same = λ a _ e. refl;
          })
        (λ _. stays K s lk rd ow st n (awaits p) (w, own))

  -- No guard is open while an item is freed.
  free_keeps :
      (p : Address) → Before K s lk rd ow st n (frees p) → After K s lk rd ow st n (free K p s)
  free_keeps p (w, own) =
      let (owned, alone, one, stands) = given_lem s.held w.held in
      either K s lk rd ow st n (is_some (s.heap p))
        (λ e. rw owned (record {
          world = record {
            lock = ground (arith, w.lock);
            held = Stands-eq stands (omega arith) (omega arith) (omega arith);
            placed = λ a. ground (arith, w.placed a);
            distinct = w.distinct;
            agrees = λ q. outside_agrees K w q p none (ground (arith, w.placed p));
          };
          own = tt;
          same = λ a pos e. absurd (omega (arith, pos, alone, one));
        }))
        (λ e. absurd (ground (arith, w.placed p)))

  pub step_keeps :
      (v : V) (p : Pc Carrier V)
      → Before K s lk rd ow st n p
      → Fits K p s
      → After K s lk rd ow st n (step K v p s)
  unfolding step
  step_keeps v idle b fits = stays K s lk rd ow st n idle b
  step_keeps v (locks o) b fits = lock_keeps v o b
  step_keeps v (searches o) b fits = search_keeps K s lk rd ow st n o b fits
  step_keeps v (reads p) b fits = end_ref_keeps p b
  step_keeps v settles b fits = settle_keeps b
  step_keeps v (writes p) b fits = end_mut_keeps v p b
  step_keeps v (awaits p) b fits = await_keeps v p b
  step_keeps v (frees p) b fits = free_keeps p b
  step_keeps v faulted b fits = elim b.1 [ ]
