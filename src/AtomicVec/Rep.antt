-- ===== src/AtomicVec/Rep.antt =====
-- What a vector of src/collections/atomic_vec.rs stands for: its items in order, with their
-- addresses, and the item that waits in `t_tail`.
use acar.Prelude.{
  ℕ, ◌+◌, ◌≡◌, ◌≢◌, refl, Bool, true, false, ◌||◌, Option, none, some, List, [], ◌∷◌, ◌++◌, ◌==◌,
  arith, length, ◌∙◌,
}
use acar.AtomicVec.Heap.{
  Ptr, null, Item, item, Heap, write, AtomicInner, Cmd, Run, ok, new, set_next, and_then,
}

abbrev pub Cells {ℓ} : Type ℓ → Type ℓ
Cells A = List (Ptr × A)

module _ {ℓ} {A : Type ℓ} where
  abbrev pub has : Ptr → Cells A → Bool
  has a [] = false
  has a ((p, x) ∷ r) = (a == p) || has a r

  abbrev pub first : Cells A → Ptr
  first [] = null
  first ((p, x) ∷ r) = p

  abbrev pub last : Cells A → Ptr
  last [] = null
  last ((p, x) ∷ []) = p
  last (c ∷ d ∷ r) = last (d ∷ r)

  -- Each item of the list is at its address and points at the next one; the last points nowhere.
  abbrev pub Linked : Heap A → Cells A → Type ℓ
  Linked h [] = Unit
  Linked h ((p, x) ∷ r) =
      (p ≢ null) × (h p ≡ some (item x (first r))) × (has p r ≡ false) × Linked h r

  -- The items once the waiting one has been linked in.
  abbrev pub arrived : Cells A → Option (Ptr × A) → Cells A
  arrived xs none = xs
  arrived xs (some c) = xs ++ c ∷ []

  -- An item apart from the list, that points nowhere.
  pub record Alone (h : Heap A) (xs : Cells A) (p : Ptr) (x : A) : Type ℓ where
    pub ne_null : p ≢ null
    pub holds : h p ≡ some (item x null)
    pub apart : has p xs ≡ false

  abbrev pub Waiting : AtomicInner A → Cells A → Option (Ptr × A) → Type ℓ
  Waiting v xs none = (v.t_tail ≡ null) × Unit {ℓ}
  Waiting v xs (some (p, x)) = (v.t_tail ≡ p) × Alone v.heap xs p x

  -- The items of the vector, the waiting one, whether the lock is free, and how many items have been
  -- unlinked by a `pop` that has not counted them out yet.
  pub record Rep (v : AtomicInner A) (xs : Cells A) (w : Option (Ptr × A)) (free : Bool) (out : ℕ)
      : Type ℓ where
    pub head : v.head ≡ first xs
    pub tail : v.tail ≡ last xs
    pub linked : Linked v.heap xs
    pub waiting : Waiting v xs w
    pub len : v.len ≡ length xs + out
    pub lock : v.available ≡ free

  -- An item that has been unlinked and not been freed.
  pub record Unlinked (h : Heap A) (xs : Cells A) (w : Option (Ptr × A)) (p : Ptr) (x : A)
      : Type ℓ where
    pub ne_null : p ≢ null
    pub next : Ptr
    pub holds : h p ≡ some (item x next)
    pub apart : has p (arrived xs w) ≡ false

  -- The run ends, with no fault and no endless wait, in a result that satisfies `P`.
  pub data Returns {κ ι} {B : Type κ} (P : B → AtomicInner A → Type ι)
      : Run A B → Type (ℓ ⊔ κ ⊔ ι) where
    returns : {b : B} {v : AtomicInner A} → P b v → Returns P (ok b v)

  pub returned {κ ι} :
      {B : Type κ} {P : B → AtomicInner A → Type ι} {r : Run A B} {b : B} {v : AtomicInner A}
      → r ≡ ok b v
      → P b v
      → Returns P r
  returned {P} e p = rw e (returns p)

  pub bind {κ ι θ χ} :
      {B : Type κ} {C : Type ι} {P : B → AtomicInner A → Type θ} {Q : C → AtomicInner A → Type χ}
      {r : Run A B} {k : B → Cmd A C}
      → Returns P r
      → ((b : B) (v : AtomicInner A) → P b v → Returns Q (k b v))
      → Returns Q (and_then r k)
  bind (returns p) next = next _ _ p

  pub mono {κ ι θ} :
      {B : Type κ} {P : B → AtomicInner A → Type ι} {Q : B → AtomicInner A → Type θ} {r : Run A B}
      → Returns P r
      → ((b : B) (v : AtomicInner A) → P b v → Q b v)
      → Returns Q r
  mono (returns p) weaken = returns (weaken _ _ p)

  pub has-append : (a : Ptr) (xs ys : Cells A) → has a (xs ++ ys) ≡ (has a xs || has a ys)
  has-append a [] ys = refl
  has-append a ((p, x) ∷ r) ys = ground (arith, has-append a r ys)

  -- A write elsewhere leaves the list as it is.
  pub Linked-write :
      (h : Heap A) (a : Ptr) (c : Option (Item A)) (xs : Cells A)
      → Linked h xs
      → has a xs ≡ false
      → Linked (write h a c) xs
  unfolding write
  Linked-write h a c [] l out = tt
  Linked-write h a c ((p, x) ∷ r) (ne, e, fresh, l) out =
      (ne, ground arith, fresh, Linked-write h a c r l (ground arith))

  -- The heap after the last item of the list has been pointed at `b`.
  unfoldable pub joined : Heap A → Cells A → Ptr → Heap A
  joined h [] b = h
  joined h ((p, x) ∷ []) b = write h p (some (item x b))
  joined h (c ∷ d ∷ r) b = joined h (d ∷ r) b

  pub joined-outside :
      (h : Heap A) (xs : Cells A) (b a : Ptr) → has a xs ≡ false → joined h xs b a ≡ h a
  unfolding joined write
  joined-outside h [] b a out = refl
  joined-outside h ((p, x) ∷ []) b a out = ground arith
  joined-outside h ((p, x) ∷ (q, y) ∷ r) b a out = joined-outside h ((q, y) ∷ r) b a (ground arith)

  pub set_next-last :
      (v : AtomicInner A) (c : Ptr × A) (r : Cells A) (b : Ptr)
      → Linked v.heap (c ∷ r)
      → set_next (last (c ∷ r)) b v ≡ ok tt (record v { heap = joined v.heap (c ∷ r) b })
  unfolding joined set_next
  set_next-last v (p, x) [] b (ne, e, fresh, l) = rw (e, set_next)
  set_next-last v (p, x) (d ∷ r) b (ne, e, fresh, l) = set_next-last v d r b l

  pub last-ne-null :
      (h : Heap A) (c : Ptr × A) (r : Cells A) → Linked h (c ∷ r) → last (c ∷ r) ≢ null
  last-ne-null h (p, x) [] (ne, e, fresh, l) = ne
  last-ne-null h (p, x) (d ∷ r) (ne, e, fresh, l) = last-ne-null h d r l

  pub joined-Linked :
      (h : Heap A) (xs : Cells A) (b : Ptr) (y : A)
      → Linked h xs
      → Alone h xs b y
      → Linked (joined h xs b) (xs ++ (b, y) ∷ [])
  unfolding joined write
  joined-Linked h [] b y l a = (a.ne_null, a.holds, refl, tt)
  joined-Linked h ((p, x) ∷ []) b y (ne, e, fresh, l) a = (
    ne,
    ground arith,
    ground (arith, a.apart),
    (a.ne_null, ground (arith, a.apart, a.holds), refl, tt),
  )
  joined-Linked h ((p, x) ∷ (q, z) ∷ r) b y (ne, e, fresh, l) a =
      let rest =
        joined-Linked h ((q, z) ∷ r) b y l
          (record { ne_null = a.ne_null; holds = a.holds; apart = ground (arith, a.apart) }) in
      (
        ne,
        joined-outside h ((q, z) ∷ r) b p fresh ∙ e,
        rw (has-append p ((q, z) ∷ r) ((b, y) ∷ [])) (ground (arith, a.apart)),
        rest,
      )

  pub last-append : (xs : Cells A) (b : Ptr) (y : A) → last (xs ++ (b, y) ∷ []) ≡ b
  last-append [] b y = refl
  last-append (c ∷ []) b y = refl
  last-append (c ∷ d ∷ r) b y = last-append (d ∷ r) b y

  pub not-has_of_none :
      (h : Heap A) (a : Ptr) (xs : Cells A) → Linked h xs → h a ≡ none → has a xs ≡ false
  not-has_of_none h a [] l e = refl
  not-has_of_none h a ((p, x) ∷ r) (ne, holds, fresh, l) e =
      ground (arith, not-has_of_none h a r l e)

  pub new-Rep : Rep new [] none true 0
  new-Rep = record {
    head = refl;
    tail = refl;
    linked = tt;
    waiting = (refl, tt);
    len = omega arith;
    lock = refl;
  }
