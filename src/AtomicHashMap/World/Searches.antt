-- ===== src/AtomicHashMap/World/Searches.antt =====
-- What a call makes of a bucket of src/collections/atomic_hashmap.rs once it has locked it.
use acar.Prelude.{ℕ, ◌≡◌, refl, Option, none, some, List, total, arith, Bool-cases, inl, inr}
use acar.Utils.{Address}
use acar.AtomicHashMap.Chain.{Key, Item, lookup, unlink}
use acar.AtomicHashMap.Chain.Unlinking.{unlink-Removed}
use acar.AtomicHashMap.Log.{is_at, latest, lookup-count}
use acar.AtomicHashMap.Threads.{
  Shared, Op, inserts, gets, gets_mut, removes, Pc, idle, searches, release, insert_at, get_at,
  get_mut_at, remove_at, search,
}
use acar.AtomicHashMap.System.{locking, reading, owning, settling, removed, Holds, Fits}
use acar.AtomicHashMap.World.{Before, After, either, stays}
use acar.AtomicHashMap.Locks.{
  Stands-eq, emptying, free_lem, taken_lem, joined_lem, is_free, is_exclusive,
}
use acar.AtomicHashMap.World.Agrees.{in_chain, stored_agrees, added_agrees}

module _ (K : Key) {V : Type 0} (s : Shared K.Carrier V) (lk rd ow st : ℕ) (n : Address → ℕ) where
  open K use {Carrier}

  -- The bucket is given back and nothing else changes.
  released :
      (p : Pc Carrier V) (o : Op Carrier V)
      → Before K s lk rd ow st n (searches o)
      → locking p ≡ 0
      → reading p ≡ 0
      → owning p ≡ 0
      → settling p ≡ 0
      → ((a : Address) → removed a p ≡ 0)
      → Holds s.heap p
      → After K s lk rd ow st n (p, release K s)
  released p o (w, own) e f g z h holds = record {
    world = record {
      lock = ground (arith, w.lock);
      held = Stands-eq w.held (omega arith) (omega arith) (omega arith);
      placed = λ a. omega (arith, w.placed a, h a);
      distinct = w.distinct;
      agrees = w.agrees;
    };
    own = holds;
    same = λ a _ e. refl;
  }

  insert_keeps :
      (key : Carrier) (value : V) (q : Address) (o : Option Address)
      → Before K s lk rd ow st n (searches (inserts key value q))
      → s.heap q ≡ none
      → lookup K key s.head ≡ o
      → After K s lk rd ow st n (insert_at K key value q o s)
  unfolding total
  insert_keeps key value q none (w, own) fresh at = record {
    world = record {
      lock = ground (arith, w.lock);
      held = Stands-eq w.held (omega arith) (omega arith) (omega arith);
      placed = λ a. ground (arith, w.placed a, w.placed q, fresh);
      distinct = (at, w.distinct);
      agrees = λ k. added_agrees K w key k q value fresh;
    };
    own = tt;
    same = λ a _ e. ground (arith, fresh, e);
  }
  insert_keeps key value q (some p) (w, own) fresh at =
      let here = in_chain K w p (lookup-count K key s.head p at) in
      either K s lk rd ow st n (is_free s.held)
        (λ e.
          let (alone, unowned, settled) = free_lem s.held e w.held in
          record {
            world = record {
              lock = ground (arith, w.lock);
              held = Stands-eq w.held (omega arith) (omega arith) (omega arith);
              placed = λ a. ground (arith, w.placed a, here);
              distinct = w.distinct;
              agrees = λ k. stored_agrees K w key k p value at;
            };
            own = tt;
            same = λ a pos e. absurd (omega (arith, pos, alone, unowned));
          })
        (λ _. stays K s lk rd ow st n (searches (inserts key value q)) (w, own))

  get_keeps :
      (key : Carrier) (o : Option Address)
      → Before K s lk rd ow st n (searches (gets key))
      → emptying s.held ≡ 0
      → lookup K key s.head ≡ o
      → After K s lk rd ow st n (get_at K key o s)
  get_keeps key none b quiet at = released idle (gets key) b refl refl refl refl (λ a. refl) tt
  get_keeps key (some p) (w, own) quiet at =
      either K s lk rd ow st n (is_exclusive s.held)
        (λ _. stays K s lk rd ow st n (searches (gets key)) (w, own))
        (λ e. record {
          world = record {
            lock = ground (arith, w.lock);
            held =
                Stands-eq (joined_lem s.held e quiet w.held) (omega arith) (omega arith)
                  (omega arith);
            placed = λ a. omega (arith, w.placed a);
            distinct = w.distinct;
            agrees = w.agrees;
          };
          own = in_chain K w p (lookup-count K key s.head p at);
          same = λ a _ e. refl;
        })

  get_mut_keeps :
      (key : Carrier) (o : Option Address)
      → Before K s lk rd ow st n (searches (gets_mut key))
      → lookup K key s.head ≡ o
      → After K s lk rd ow st n (get_mut_at K key o s)
  get_mut_keeps key none b at = released idle (gets_mut key) b refl refl refl refl (λ a. refl) tt
  get_mut_keeps key (some p) (w, own) at =
      either K s lk rd ow st n (is_free s.held)
        (λ e.
          let (alone, unowned, settled) = free_lem s.held e w.held in
          record {
            world = record {
              lock = ground (arith, w.lock);
              held =
                  Stands-eq (taken_lem s.held e w.held) (omega arith) (omega arith) (omega arith);
              placed = λ a. omega (arith, w.placed a);
              distinct = w.distinct;
              agrees = w.agrees;
            };
            own = in_chain K w p (lookup-count K key s.head p at);
            same = λ a _ e. refl;
          })
        (λ _. stays K s lk rd ow st n (searches (gets_mut key)) (w, own))

  remove_keeps :
      (key : Carrier) (o : Option (Address × List (Item Carrier Address)))
      → Before K s lk rd ow st n (searches (removes key))
      → unlink K key s.head ≡ o
      → After K s lk rd ow st n (remove_at K key o s)
  unfolding latest
  remove_keeps key none b at = released idle (removes key) b refl refl refl refl (λ a. refl) tt
  remove_keeps key (some (p, rest)) (w, own) at =
      let u = unlink-Removed K key p s.head rest w.distinct at in
      record {
        world = record {
          lock = ground (arith, w.lock);
          held = Stands-eq w.held (omega arith) (omega arith) (omega arith);
          placed = λ a. omega (arith, w.placed a, u.weight (is_at a));
          distinct = u.distinct;
          agrees = λ q. elim (Bool-cases (K.eq key q)) [
            | inl e ↦ let gone = rw e at (u.reads q) in rw (e, gone) refl
            | inr e ↦ let kept = rw e at (u.reads q) in rw (e, kept) (w.agrees q)
          ];
        };
        own = tt;
        same = λ a _ e. refl;
      }

  pub search_keeps :
      (o : Op Carrier V)
      → Before K s lk rd ow st n (searches o)
      → Fits K (searches o) s
      → After K s lk rd ow st n (search K o s)
  search_keeps (inserts key value q) b fresh =
      insert_keeps key value q (lookup K key s.head) b fresh refl
  search_keeps (gets key) b fits = get_keeps key (lookup K key s.head) b fits refl
  search_keeps (gets_mut key) b fits = get_mut_keeps key (lookup K key s.head) b refl
  search_keeps (removes key) b fits = remove_keeps key (unlink K key s.head) b refl
