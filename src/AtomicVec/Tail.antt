-- ===== src/AtomicVec/Tail.antt =====
-- `update_tail` and `release` of src/collections/atomic_vec.rs.
use acar.Prelude.{
  ℕ, ◌+◌, ◌<◌, ◌^◌, ◌≡◌, refl, Bool, true, false, Option, none, some, [], ◌∷◌, ◌++◌, ◌==◌,
  if◌then◌else◌, wrapping_inc, arith, length, length-append, ◌∙◌, sym,
}
use mathlib.Core.Path.{subst}
use acar.AtomicVec.Heap.{Ptr, null, AtomicInner, ok, set_next, free}
use acar.AtomicVec.Rep.{
  Cells, has, first, last, Linked, Alone, Waiting, Rep, Returns, returned, has-append, joined,
  joined-outside, set_next-last, last-ne-null, joined-Linked, last-append, not-has_of_none, arrived,
}
use acar.AtomicVec.{update_tail, release}

module _ {ℓ} {A : Type ℓ} where
  -- The vector once the item at `b` has been linked in behind `xs`.
  unfoldable pub linked_in : AtomicInner A → Cells A → Ptr → AtomicInner A
  linked_in v xs b = record v {
    head = if v.head == null then b else v.head;
    tail = b;
    len = wrapping_inc v.len;
    heap = joined v.heap xs b;
  }

  update_tail_lem :
      (v : AtomicInner A) (xs : Cells A) (b : Ptr)
      → v.tail ≡ last xs
      → Linked v.heap xs
      → update_tail b v ≡ ok tt (linked_in v xs b)
  unfolding update_tail linked_in joined
  update_tail_lem v [] b e l = rw e
  update_tail_lem v (c ∷ r) b e l =
      let some_tail : (v.tail == null) ≡ false = ground (arith, last-ne-null v.heap c r l) in
      let joins : set_next v.tail b v ≡ ok tt (record v { heap = joined v.heap (c ∷ r) b }) =
        subst (λ t. set_next t b v ≡ ok tt (record v { heap = joined v.heap (c ∷ r) b })) (sym e)
          (set_next-last v c r b l) in
      rw (some_tail, joins)

  first-append :
      (v : AtomicInner A) (xs : Cells A) (b : Ptr) (y : A)
      → v.head ≡ first xs
      → Linked v.heap xs
      → (if v.head == null then b else v.head) ≡ first (xs ++ (b, y) ∷ [])
  first-append v [] b y e l = ground arith
  first-append v ((p, x) ∷ r) b y e (ne, holds, fresh, l) = ground arith

  Waiting-joined :
      (v : AtomicInner A) (xs : Cells A) (w : Option (Ptr × A)) (b : Ptr) (y : A)
      → Waiting v xs w
      → has b (arrived [] w) ≡ false
      → Waiting (linked_in v xs b) (xs ++ (b, y) ∷ []) w
  unfolding linked_in
  Waiting-joined v xs none b y h new = h
  Waiting-joined v xs (some (p, x)) b y (e, a) new = (
    e,
    record {
      ne_null = a.ne_null;
      holds = joined-outside v.heap xs b p a.apart ∙ a.holds;
      apart = rw (has-append p xs ((b, y) ∷ [])) (ground (arith, a.apart));
    },
  )

  -- Linking an item in appends it, whatever waits in `t_tail`.
  pub update_tail-Rep :
      (v : AtomicInner A) (xs : Cells A) (w : Option (Ptr × A)) (free : Bool) (out : ℕ) (b : Ptr)
      (y : A)
      → Rep v xs w free out
      → Alone v.heap xs b y
      → has b (arrived [] w) ≡ false
      → length xs + out + 1 < 2 ^ 64
      → Returns
          (λ _ t. (t ≡ linked_in v xs b) × Rep t (xs ++ (b, y) ∷ []) w free out)
          (update_tail b v)
  unfolding linked_in
  update_tail-Rep v xs w free out b y r a new room =
      returned (update_tail_lem v xs b r.tail r.linked) (
        refl,
        record {
          head = first-append v xs b y r.head r.linked;
          tail = sym (last-append xs b y);
          linked = joined-Linked v.heap xs b y r.linked a;
          waiting = Waiting-joined v xs w b y r.waiting new;
          len = omega (arith, r.len, length-append xs ((b, y) ∷ []));
          lock = r.lock;
        },
      )

  -- The vector after `release`.
  unfoldable pub released : AtomicInner A → Cells A → Option (Ptr × A) → AtomicInner A
  released v xs none = record v { t_tail = null; available = true }
  released v xs (some (p, x)) = record (linked_in (record v { t_tail = null }) xs p) {
    available = true;
  }

  pub release_lem :
      (v : AtomicInner A) (xs : Cells A) (w : Option (Ptr × A)) (free : Bool) (out : ℕ)
      → Rep v xs w free out
      → release v ≡ ok tt (released v xs w)
  unfolding release released
  release_lem v xs none free out r =
      let nothing : (v.t_tail == null) ≡ true = ground (arith, r.waiting) in rw nothing
  release_lem v xs (some (p, x)) free out r =
      let (e, a) = r.waiting in
      let something : (v.t_tail == null) ≡ false = ground (arith, a.ne_null) in
      let v' : AtomicInner A = record v { t_tail = null } in
      let links : update_tail v.t_tail v' ≡ ok tt (linked_in v' xs p) =
        subst (λ t. update_tail t v' ≡ ok tt (linked_in v' xs p)) (sym e)
          (update_tail_lem v' xs p r.tail r.linked) in
      rw (something, links)

  -- `release` links in the item that waits, if there is one, and frees the lock.
  pub released-Rep :
      (v : AtomicInner A) (xs : Cells A) (w : Option (Ptr × A)) (free : Bool) (out : ℕ)
      → Rep v xs w free out
      → length xs + out + 1 < 2 ^ 64
      → Rep (released v xs w) (arrived xs w) none true out
  unfolding released linked_in
  released-Rep v xs none free out r room = record {
    head = r.head;
    tail = r.tail;
    linked = r.linked;
    waiting = (refl, tt);
    len = r.len;
    lock = refl;
  }
  released-Rep v xs (some (p, x)) free out r room =
      let (e, a) = r.waiting in
      record {
        head = first-append v xs p x r.head r.linked;
        tail = sym (last-append xs p x);
        linked = joined-Linked v.heap xs p x r.linked a;
        waiting = (refl, tt);
        len = omega (arith, r.len, length-append xs ((p, x) ∷ []));
        lock = refl;
      }

  -- Linking in and releasing touch no unused address.
  pub linked_in-none :
      (v : AtomicInner A) (xs : Cells A) (b a : Ptr)
      → Linked v.heap xs
      → v.heap a ≡ none
      → (linked_in v xs b).heap a ≡ none
  unfolding linked_in
  linked_in-none v xs b a l e = joined-outside v.heap xs b a (not-has_of_none v.heap a xs l e) ∙ e

  pub released-none :
      (v : AtomicInner A) (xs : Cells A) (w : Option (Ptr × A)) (a : Ptr)
      → Linked v.heap xs
      → v.heap a ≡ none
      → (released v xs w).heap a ≡ none
  unfolding released
  released-none v xs none a l e = e
  released-none v xs (some (p, x)) a l e = linked_in-none (record v { t_tail = null }) xs p a l e
