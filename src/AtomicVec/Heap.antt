-- ===== src/AtomicVec/Heap.antt =====
-- The memory of src/collections/atomic_vec.rs: items at addresses, the shared words of a vector, and
-- commands over both.
use acar.Prelude.{ℕ, Bool, true, Option, none, some, ◌==◌, if◌then◌else◌}

abbrev pub Ptr : Type 0
Ptr = ℕ

abbrev pub null : Ptr
null = 0

pub record Item {ℓ} (A : Type ℓ) : Type ℓ where
  pub value : A
  pub next : Ptr

abbrev pub item {ℓ} : {A : Type ℓ} → A → Ptr → Item A
item x q = record { value = x; next = q }

abbrev pub Heap {ℓ} : Type ℓ → Type ℓ
Heap A = Ptr → Option (Item A)

unfoldable pub write {ℓ} : {A : Type ℓ} → Heap A → Ptr → Option (Item A) → Heap A
write h p c a = if a == p then c else h a

-- `state` is AVAILABLE (true) or UPDATING (false).
pub record AtomicInner {ℓ} (A : Type ℓ) : Type ℓ where
  pub head : Ptr
  pub tail : Ptr
  pub t_tail : Ptr
  pub len : ℕ
  pub available : Bool
  pub ref_count : ℕ
  pub heap : Heap A

abbrev pub new {ℓ} : {A : Type ℓ} → AtomicInner A
new = record {
  head = null;
  tail = null;
  t_tail = null;
  len = 0;
  available = true;
  ref_count = 1;
  heap = λ p. none;
}

-- A fault is an access through a pointer to no item; `spins` is a wait that nobody ends.
pub data Run {ℓ κ} (A : Type ℓ) (B : Type κ) : Type (ℓ ⊔ κ) where
  ok : B → AtomicInner A → Run A B
  fault : Run A B
  spins : Run A B

abbrev pub Cmd {ℓ κ} : Type ℓ → Type κ → Type (ℓ ⊔ κ)
Cmd A B = AtomicInner A → Run A B

module _ {ℓ} {A : Type ℓ} where
  abbrev pub pure {κ} : {B : Type κ} → B → Cmd A B
  pure b v = ok b v

  abbrev pub and_then {κ ι} : {B : Type κ} {C : Type ι} → Run A B → (B → Cmd A C) → Run A C
  and_then (ok b v) k = k b v
  and_then fault k = fault
  and_then spins k = spins

  infixl 5 ◌>>=◌ ◌>>◌
  abbrev pub ◌>>=◌ {κ ι} : {B : Type κ} {C : Type ι} → Cmd A B → (B → Cmd A C) → Cmd A C
  ◌>>=◌ m k v = and_then (m v) k

  abbrev pub ◌>>◌ {κ ι} : {B : Type κ} {C : Type ι} → Cmd A B → Cmd A C → Cmd A C
  ◌>>◌ m n v = and_then (m v) (λ _. n)

  abbrev pub read {κ} : {B : Type κ} → (AtomicInner A → B) → Cmd A B
  read f v = ok (f v) v

  abbrev pub modify : (AtomicInner A → AtomicInner A) → Cmd A (Unit {0})
  modify f v = ok tt (f v)

  -- `Box::into_raw(Box::new(..))` at the address that the allocator chose.
  abbrev pub alloc : Ptr → Item A → Cmd A (Unit {0})
  alloc p c v = ok tt (record v { heap = write v.heap p (some c) })

  unfoldable pub load : Ptr → Cmd A (Item A)
  load p v = elim (v.heap p) [ none ↦ fault | some c ↦ ok c v ]

  unfoldable pub set_next : Ptr → Ptr → Cmd A (Unit {0})
  set_next p q v = elim (v.heap p) [
    | none ↦ fault
    | some c ↦ ok tt (record v { heap = write v.heap p (some (record c { next = q })) })
  ]

  -- `drop(Box::from_raw(p))`
  unfoldable pub free : Ptr → Cmd A (Unit {0})
  free p v = elim (v.heap p) [
    | none ↦ fault
    | some c ↦ ok tt (record v { heap = write v.heap p none })
  ]
