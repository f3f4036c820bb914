-- ===== src/AtomicVec/Pop.antt =====
-- `pop` of src/collections/atomic_vec.rs, alone and with a `push` of another thread inside it.
use acar.Prelude.{
  ℕ, ◌+◌, ◌<◌, ◌≤◌, ◌^◌, ◌≡◌, ◌≢◌, refl, Bool, true, false, Option, none, some, [], ◌∷◌, ◌++◌, ◌==◌,
  arith, length, length-append, ◌∙◌, ap,
}
use acar.AtomicVec.Heap.{Heap, Ptr, null, write, AtomicInner, ◌>>=◌, ◌>>◌}
use acar.AtomicVec.Rep.{
  Cells, Unlinked, Rep, Returns, returns, has-append, Linked-write, joined-outside, bind, mono,
  arrived,
}
use acar.AtomicVec.{lock, release, push, unlink, reclaim, pop}
use acar.AtomicVec.Tail.{linked_in, released, release_lem, released-Rep}
use acar.AtomicVec.Push.{locked-Rep, push_busy}
use acar.AtomicVec.Unlink.{unlinked, unlink-cons, unlinked-Rep, load-ok, free-ok, unlinked-Unlinked}

module _ {ℓ} {A : Type ℓ} where
  reclaim_lem :
      {v : AtomicInner A} {xs : Cells A} {held : Bool} {out : ℕ} (p : Ptr) (x : A)
      → Rep v xs none held (out + 1)
      → Unlinked v.heap xs none p x
      → length xs + out + 1 < 2 ^ 64
      → Returns (λ o t. (o ≡ some x) × Rep t xs none held out × (t.heap p ≡ none)) (reclaim p v)
  unfolding reclaim write
  reclaim_lem {v} {xs} {out} p x r u room =
      let some_item : (p == null) ≡ false = ground (arith, u.ne_null) in
      rw (some_item, load-ok v p u.holds, free-ok v p u.holds)
        (returns (
          refl,
          record {
            head = r.head;
            tail = r.tail;
            linked = Linked-write v.heap p none xs r.linked u.apart;
            waiting = r.waiting;
            len = omega (arith, r.len);
            lock = r.lock;
          },
          ground arith,
        ))

  -- Releasing the lock does not touch an unlinked item.
  released-Unlinked :
      (v : AtomicInner A) (xs : Cells A) (w : Option (Ptr × A)) (p : Ptr) (x : A)
      → Unlinked v.heap xs w p x
      → Unlinked (released v xs w).heap (arrived xs w) none p x
  unfolding released linked_in
  released-Unlinked v xs none p x u = u
  released-Unlinked v xs (some (q, y)) p x u = record {
    ne_null = u.ne_null;
    next = u.next;
    holds =
        joined-outside v.heap xs q p (ground (arith, u.apart, has-append p xs ((q, y) ∷ [])))
        ∙ u.holds;
    apart = u.apart;
  }

  length-arrived : (xs : Cells A) (w : Option (Ptr × A)) → length (arrived xs w) ≤ length xs + 1
  length-arrived xs none = omega arith
  length-arrived xs (some c) = omega (arith, length-append xs (c ∷ []))

  abbrev pub first_value : Cells A → Option A
  first_value [] = none
  first_value ((p, x) ∷ xs) = some x

  abbrev pub but_first : Cells A → Cells A
  but_first [] = []
  but_first (c ∷ xs) = xs

  abbrev pub FirstFreed : Cells A → Heap A → Type ℓ
  FirstFreed [] h = Unit
  FirstFreed ((p, x) ∷ xs) h = h p ≡ none

  pop_empty :
      {v : AtomicInner A} {w : Option (Ptr × A)} {out : ℕ}
      → Rep v [] w true out
      → out + 1 < 2 ^ 64
      → Returns (λ o t. (o ≡ none) × Rep t (arrived [] w) none true out) (pop v)
  unfolding pop lock unlink reclaim
  pop_empty {v} {w} {out} r room =
      let empty : (v.head == null) ≡ true = ground (arith, r.head) in
      rw
        (
          r.lock,
          empty,
          release_lem (record v { available = false }) [] w false out (locked-Rep r false),
        )
        (returns (refl, released-Rep _ [] w false out (locked-Rep r false) (omega arith)))

  pub pop_first :
      {v : AtomicInner A} {p : Ptr} {x : A} {xs : Cells A} {w : Option (Ptr × A)} {out : ℕ}
      → Rep v ((p, x) ∷ xs) w true out
      → length xs + out + 2 < 2 ^ 64
      → Returns
          (λ o t. (o ≡ some x) × Rep t (arrived xs w) none true out × (t.heap p ≡ none))
          (pop v)
  unfolding pop lock
  pop_first {v} {p} {x} {xs} {w} {out} r room =
      let v' : AtomicInner A = record v { available = false } in
      rw
        (
          r.lock,
          unlink-cons v' p x xs r.head r.tail r.linked,
          release_lem (unlinked v' xs) xs w false (out + 1) (unlinked-Rep (locked-Rep r false)),
        )
        (reclaim_lem p x
          (released-Rep _ xs w false (out + 1) (unlinked-Rep (locked-Rep r false)) (omega arith))
          (released-Unlinked _ xs w p x (unlinked-Unlinked (locked-Rep r false)))
          (omega (arith, length-arrived xs w)))

  -- `pop` of a free vector returns the value of the first item and frees that item, if there is one,
  -- and nothing otherwise, also where a pushed value waits in `t_tail`; the value that waited is linked
  -- in by then, and the vector is free.
  pub pop_lem :
      {v : AtomicInner A} {w : Option (Ptr × A)} {out : ℕ} (xs : Cells A)
      → Rep v xs w true out
      → length xs + out + 1 < 2 ^ 64
      → Returns
          (λ o t.
            (o ≡ first_value xs)
            × Rep t (arrived (but_first xs) w) none true out
            × FirstFreed xs t.heap)
          (pop v)
  pop_lem [] r room = mono (pop_empty r (omega arith)) λ _ _ (found, rep). (found, rep, tt)
  pop_lem ((p, x) ∷ xs) r room = pop_first r (omega arith)

  push_during :
      {v : AtomicInner A} {xs : Cells A} {p : Ptr} {x y : A} {fresh : Ptr} {out : ℕ}
      → Rep v xs none false out
      → Unlinked v.heap xs none p x
      → fresh ≢ null
      → v.heap fresh ≡ none
      → Returns
          (λ _ t. Rep t xs (some (fresh, y)) false out × Unlinked t.heap xs (some (fresh, y)) p x)
          (push fresh y v)
  push_during {v} {xs} {p} {y} {fresh} {out} r u ne unused =
      let other : p ≢ fresh = λ e. ground (arith, u.holds, ap v.heap e) in
      mono (push_busy fresh y r ne unused) λ _ t (rep, same). (
        rep,
        record {
          ne_null = u.ne_null;
          next = u.next;
          holds = ground (arith, same p, u.holds);
          apart = rw (has-append p xs ((fresh, y) ∷ [])) (ground (arith, u.apart));
        },
      )

  -- A `push` of another thread that comes while `pop` holds the lock does not wait and is not lost:
  -- `pop` returns the first value, and its release links the new item in behind the others.
  pub pop-push_during :
      {v : AtomicInner A} {p : Ptr} {x : A} {xs : Cells A} {out : ℕ} (fresh : Ptr) (y : A)
      → Rep v ((p, x) ∷ xs) none true out
      → fresh ≢ null
      → v.heap fresh ≡ none
      → length xs + out + 2 < 2 ^ 64
      → Returns
          (λ o t. (o ≡ some x) × Rep t (xs ++ (fresh, y) ∷ []) none true out × (t.heap p ≡ none))
          ((do lock; q ← unlink; push fresh y; release; reclaim q) v)
  unfolding lock unlinked
  pop-push_during {v} {p} {x} {xs} {out} fresh y r ne unused room =
      let v' : AtomicInner A = record v { available = false } in
      let held = locked-Rep r false in
      rw (r.lock, unlink-cons v' p x xs r.head r.tail r.linked)
        (bind (push_during (unlinked-Rep held) (unlinked-Unlinked held) ne unused) λ _ t (rep, u).
          rw (release_lem t xs (some (fresh, y)) false (out + 1) rep) (
            reclaim_lem p x (released-Rep t xs _ false (out + 1) rep (omega arith))
              (released-Unlinked t xs _ p x u) (omega (arith, length-append xs ((fresh, y) ∷ [])))))
