-- ===== src/AtomicVec/Push.antt =====
-- `push` of src/collections/atomic_vec.rs, with the lock free or held by another thread.
use acar.Prelude.{
  ℕ, ◌+◌, ◌<◌, ◌^◌, ◌≡◌, ◌≢◌, refl, Bool, true, false, Option, none, some, [], ◌∷◌, ◌++◌, ◌==◌,
  if◌then◌else◌, arith, length, length-append, ◌∙◌, ap,
}
use acar.AtomicVec.Heap.{Ptr, null, item, write, AtomicInner, spins}
use acar.AtomicVec.Rep.{
  Cells, has, Alone, Waiting, Rep, Returns, returns, returned, Linked-write, bind, mono,
  not-has_of_none, arrived,
}
use acar.AtomicVec.{lock, is_busy, leave, push}
use acar.AtomicVec.Tail.{update_tail-Rep, release_lem, released-Rep, linked_in-none, released-none}

module _ {ℓ} {A : Type ℓ} where
  -- The vector once the allocator has given `fresh` to a new item.
  unfoldable pub allocated : AtomicInner A → Ptr → A → AtomicInner A
  allocated v fresh x = record v { heap = write v.heap fresh (some (item x null)) }

  has-Waiting :
      (v : AtomicInner A) (xs : Cells A) (w : Option (Ptr × A)) (a : Ptr)
      → Waiting v xs w
      → v.heap a ≡ none
      → has a (arrived [] w) ≡ false
  has-Waiting v xs none a h e = refl
  has-Waiting v xs (some (p, x)) a (at, alone) e = ground (arith, alone.holds)

  Waiting-write :
      (v : AtomicInner A) (xs : Cells A) (w : Option (Ptr × A)) (fresh : Ptr) (x : A)
      → Waiting v xs w
      → v.heap fresh ≡ none
      → Waiting (allocated v fresh x) xs w
  unfolding allocated write
  Waiting-write v xs none fresh x h e = h
  Waiting-write v xs (some (p, y)) fresh x (at, alone) e = (
    at,
    record { ne_null = alone.ne_null; holds = ground (arith, alone.holds); apart = alone.apart },
  )

  module _ {v : AtomicInner A} {xs : Cells A} {w : Option (Ptr × A)} {free : Bool} {out : ℕ}
      (r : Rep v xs w free out) where
    pub allocated-Rep :
        (fresh : Ptr) (x : A) → v.heap fresh ≡ none → Rep (allocated v fresh x) xs w free out
    unfolding allocated
    allocated-Rep fresh x e = record {
      head = r.head;
      tail = r.tail;
      linked = Linked-write v.heap fresh _ xs r.linked (not-has_of_none v.heap fresh xs r.linked e);
      waiting = Waiting-write v xs w fresh x r.waiting e;
      len = r.len;
      lock = r.lock;
    }

    allocated-Alone :
        (fresh : Ptr) (x : A)
        → fresh ≢ null
        → v.heap fresh ≡ none
        → Alone (allocated v fresh x).heap xs fresh x
    unfolding allocated write
    allocated-Alone fresh x ne e = record {
      ne_null = ne;
      holds = ground arith;
      apart = not-has_of_none v.heap fresh xs r.linked e;
    }

    pub locked-Rep : (b : Bool) → Rep (record v { available = b }) xs w b out
    locked-Rep b = record {
      head = r.head;
      tail = r.tail;
      linked = r.linked;
      waiting = r.waiting;
      len = r.len;
      lock = refl;
    }

  -- The same as `push_free` below, with what stays unused.
  pub push_keeps :
      {v : AtomicInner A} {xs : Cells A} {w : Option (Ptr × A)} {out : ℕ} (fresh : Ptr) (x : A)
      → Rep v xs w true out
      → fresh ≢ null
      → v.heap fresh ≡ none
      → length xs + out + 2 < 2 ^ 64
      → Returns
          (λ _ t.
            Rep t (arrived (xs ++ (fresh, x) ∷ []) w) none true out
            × ((a : Ptr) → a ≢ fresh → v.heap a ≡ none → t.heap a ≡ none))
          (push fresh x v)
  unfolding push lock is_busy allocated write
  push_keeps {v} {xs} {w} {out} fresh x r ne unused room = rw r.lock (
      bind
        (update_tail-Rep _ xs w false out fresh x
          (locked-Rep (allocated-Rep r fresh x unused) false) (allocated-Alone r fresh x ne unused)
          (has-Waiting v xs w fresh r.waiting unused) (omega arith))
        λ _ t (e, rep). returned (release_lem t _ w false out rep) (
          released-Rep t _ w false out rep (omega (arith, length-append xs ((fresh, x) ∷ []))),
          λ a other free_a. released-none t _ w a rep.linked (
              ap (λ u. u.heap a) e
              ∙ linked_in-none _ xs fresh a (allocated-Rep r fresh x unused).linked (ground arith)),
        ))

  -- `push` on a free vector appends the value, links in the item that waited, and leaves the vector
  -- free with nothing waiting.
  pub push_free :
      {v : AtomicInner A} {xs : Cells A} {w : Option (Ptr × A)} {out : ℕ} (fresh : Ptr) (x : A)
      → Rep v xs w true out
      → fresh ≢ null
      → v.heap fresh ≡ none
      → length xs + out + 2 < 2 ^ 64
      → Returns (λ _ t. Rep t (arrived (xs ++ (fresh, x) ∷ []) w) none true out) (push fresh x v)
  push_free fresh x r ne unused room = mono (push_keeps fresh x r ne unused room) λ _ t h. h.0

  -- `push` on a vector whose lock another thread holds leaves the value in `t_tail` and returns at
  -- once, if nothing waits there; no other item is touched.
  pub push_busy :
      {v : AtomicInner A} {xs : Cells A} {out : ℕ} (fresh : Ptr) (x : A)
      → Rep v xs none false out
      → fresh ≢ null
      → v.heap fresh ≡ none
      → Returns
          (λ _ t.
            Rep t xs (some (fresh, x)) false out
            × ((a : Ptr) → t.heap a ≡ (if a == fresh then some (item x null) else v.heap a)))
          (push fresh x v)
  unfolding push lock is_busy allocated leave write
  push_busy {v} {xs} {out} fresh x r ne unused =
      let nothing : (v.t_tail == null) ≡ true = ground (arith, r.waiting) in
      rw (r.lock, nothing)
        (returns (
          record {
            head = r.head;
            tail = r.tail;
            linked = (allocated-Rep r fresh x unused).linked;
            waiting = (refl, allocated-Alone r fresh x ne unused);
            len = r.len;
            lock = refl;
          },
          λ a. refl,
        ))

  -- A second `push` while one value waits already waits for the lock.
  pub push_waits :
      {v : AtomicInner A} {xs : Cells A} {c : Ptr × A} {out : ℕ} (fresh : Ptr) (x : A)
      → Rep v xs (some c) false out
      → push fresh x v ≡ spins
  unfolding push lock is_busy allocated leave
  push_waits {v} {xs} {c} {out} fresh x r =
      let something : (v.t_tail == null) ≡ false =
        ground (arith, r.waiting.0, r.waiting.1.ne_null) in
      rw (r.lock, something)
