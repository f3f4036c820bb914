-- ===== src/AtomicVec/Unlink.antt =====
-- What `pop` of src/collections/atomic_vec.rs makes of the vector when it unlinks the first item.
use acar.Prelude.{
  ℕ, ◌+◌, ◌≡◌, refl, Bool, true, false, Option, none, some, [], ◌∷◌, ◌==◌, if◌then◌else◌, arith,
  ◌∙◌, ap, sym,
}
use mathlib.Core.Path.{subst}
use acar.AtomicVec.Heap.{Ptr, null, Item, item, write, AtomicInner, ok, load, free}
use acar.AtomicVec.Rep.{
  Cells, has, first, last, Linked, Unlinked, Waiting, Rep, has-append, arrived,
}
use acar.AtomicVec.{unlink}

module _ {ℓ} {A : Type ℓ} where
  has-last : (c : Ptr × A) (r : Cells A) → has (last (c ∷ r)) (c ∷ r) ≡ true
  has-last (p, x) [] = ground arith
  has-last (p, x) (d ∷ r) = ground (arith, has-last d r)

  last-ne-first :
      (p : Ptr) (x : A) (c : Ptr × A) (r : Cells A)
      → has p (c ∷ r) ≡ false
      → (last ((p, x) ∷ c ∷ r) == p) ≡ false
  last-ne-first p x c r out = ground (arith, has-last c r)

  -- The vector once `pop` has unlinked its first item.
  unfoldable pub unlinked : AtomicInner A → Cells A → AtomicInner A
  unlinked v r = record v { head = first r; tail = last r }

  tail_after :
      (t : Ptr) (p : Ptr) (x : A) (r : Cells A)
      → t ≡ last ((p, x) ∷ r)
      → has p r ≡ false
      → (if t == p then null else t) ≡ last r
  tail_after t p x [] e out = ground arith
  tail_after t p x (c ∷ r) e out = ground (arith, last-ne-first p x c r out)

  pub unlink-cons :
      (v : AtomicInner A) (p : Ptr) (x : A) (r : Cells A)
      → v.head ≡ p
      → v.tail ≡ last ((p, x) ∷ r)
      → Linked v.heap ((p, x) ∷ r)
      → unlink v ≡ ok p (unlinked v r)
  unfolding unlink load unlinked
  unlink-cons v p x r at e (ne, holds, fresh, l) =
      let some_head : (v.head == null) ≡ false = ground arith in
      let there : v.heap v.head ≡ some (item x (first r)) = ap v.heap at ∙ holds in
      let moved : (if v.tail == v.head then null else v.tail) ≡ last r =
        subst (λ h. (if v.tail == h then null else v.tail) ≡ last r) (sym at)
          (tail_after v.tail p x r e fresh) in
      rw (some_head, there, load, moved) (ap (λ h. ok h (unlinked v r)) at)

  Waiting-tail :
      (v : AtomicInner A) (c : Ptr × A) (xs : Cells A) (w : Option (Ptr × A))
      → Waiting v (c ∷ xs) w
      → Waiting (unlinked v xs) xs w
  unfolding unlinked
  Waiting-tail v c xs none h = h
  Waiting-tail v c xs (some (q, y)) (e, a) =
      (e, record { ne_null = a.ne_null; holds = a.holds; apart = ground (arith, a.apart) })

  apart_arrived :
      (v : AtomicInner A) (p : Ptr) (x : A) (xs : Cells A) (w : Option (Ptr × A))
      → Waiting v ((p, x) ∷ xs) w
      → has p xs ≡ false
      → has p (arrived xs w) ≡ false
  apart_arrived v p x xs none h out = out
  apart_arrived v p x xs (some (q, y)) (e, a) out =
      rw (has-append p xs ((q, y) ∷ [])) (ground (arith, a.apart))

  module _ {v : AtomicInner A} {p : Ptr} {x : A} {xs : Cells A} {w : Option (Ptr × A)} {free : Bool}
      {out : ℕ} (r : Rep v ((p, x) ∷ xs) w free out) where
    pub unlinked-Rep : Rep (unlinked v xs) xs w free (out + 1)
    unfolding unlinked
    unlinked-Rep = record {
      head = refl;
      tail = refl;
      linked = r.linked.3;
      waiting = Waiting-tail v (p, x) xs w r.waiting;
      len = omega (arith, r.len);
      lock = r.lock;
    }

    pub unlinked-Unlinked : Unlinked (unlinked v xs).heap xs w p x
    unfolding unlinked
    unlinked-Unlinked = record {
      ne_null = r.linked.0;
      next = first xs;
      holds = r.linked.1;
      apart = apart_arrived v p x xs w r.waiting r.linked.2;
    }

  pub load-ok : (v : AtomicInner A) (p : Ptr) {c : Item A} → v.heap p ≡ some c → load p v ≡ ok c v
  unfolding load
  load-ok v p e = rw (e, load)

  pub free-ok :
      (v : AtomicInner A) (p : Ptr) {c : Item A}
      → v.heap p ≡ some c
      → free p v ≡ ok tt (record v { heap = write v.heap p none })
  unfolding free
  free-ok v p e = rw (e, free)
