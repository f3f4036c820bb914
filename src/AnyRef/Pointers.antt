-- ===== src/AnyRef/Pointers.antt =====
-- src/any_ref/ptr_interface.rs, and the handles of src/any_ref/strong.rs and src/any_ref/weak.rs as pointers into
-- a memory of allocations. Where the
-- box stands in an allocation is a parameter, and so is where it keeps its value.
use acar.Prelude.{
  ℕ, ◌+◌, ◌-◌, ◌^◌, ◌%◌, ◌<◌, ◌≡◌, refl, Bool, false, Option, none, some, if◌then◌else◌, ◌==◌,
  usize_max, arith,
}
use acar.Locking.{Locking}
use acar.Outcome.{Run, ok, panics, aborts, fault, waits, Cmd, pure, ◌>>=◌, ◌>>◌}
use acar.Utils.{Address, is_dangling}
use acar.AnyRef.{
  AnyRefInner, TypeId, Call, inner, get_ref, drop_weak, clone_weak, upgrade, downgrade,
  weak_count_of_weak, strong_count,
}

-- `AnyRef` and `WeakAnyRef`
pub record AnyRef : Type 0 where
  pub ptr : Address

pub record WeakAnyRef : Type 0 where
  pub ptr : Address

abbrev pub get_mut_inner_ptr : AnyRef → Address
get_mut_inner_ptr a = a.ptr

abbrev pub get_mut_inner_ptr_of_weak : WeakAnyRef → Address
get_mut_inner_ptr_of_weak w = w.ptr

unfoldable pub from_inner_in : Address → AnyRef
from_inner_in p = record { ptr = p }

unfoldable pub weak_from_inner_in : Address → WeakAnyRef
weak_from_inner_in p = record { ptr = p }

-- `from_ptr_in`, and the two that only call it or `from_inner_in`.
unfoldable pub from_ptr_in : Address → AnyRef
from_ptr_in p = from_inner_in p

unfoldable pub from_ptr : Address → AnyRef
from_ptr p = from_ptr_in p

unfoldable pub from_inner : Address → AnyRef
from_inner p = from_inner_in p

unfoldable pub ptr_eq : AnyRef → AnyRef → Bool
ptr_eq this other = get_mut_inner_ptr this == get_mut_inner_ptr other

unfoldable pub into_raw : ℕ → AnyRef → Address
into_raw offset this = (get_mut_inner_ptr this + offset) % 2 ^ 64

-- The address of the allocation whose box is at the given one.
unfoldable pub from_raw_in : ℕ → Address → Address
from_raw_in offset p = if is_dangling p then p else (p + (2 ^ 64 - offset)) % 2 ^ 64

unfoldable pub from_raw : ℕ → Address → AnyRef
from_raw offset p = from_ptr_in (from_raw_in offset p)

-- `WeakAnyRef::new`, which no allocation backs.
abbrev pub new_weak : WeakAnyRef
new_weak = record { ptr = usize_max }

abbrev pub default_weak : WeakAnyRef
default_weak = new_weak

module _ (L : Locking) (V : Type 0) where
  open L use {Lock}

  abbrev pub Memory : Type 0
  Memory = Address → Option (AnyRefInner Lock V)

  unfoldable pub stored :
      {B : Type 0} → Memory → Address → Run (AnyRefInner Lock V) B → Run Memory B
  stored m p (ok b s) = ok b (λ q. if q == p then some s else m q)
  stored m p panics = panics
  stored m p aborts = aborts
  stored m p fault = fault
  stored m p waits = waits

  -- A call on the allocation at an address; a fault where there is none.
  unfoldable pub on_ptr : {B : Type 0} → Address → Call L V B → Cmd Memory B
  on_ptr p call m = elim (m p) [ none ↦ fault | some s ↦ stored m p (call s) ]

  -- `WeakAnyRef::inner`: what a call does if the pointer dangles, and what it does at the allocation.
  unfoldable pub inner_of_weak : {B : Type 0} → WeakAnyRef → B → Call L V B → Cmd Memory B
  inner_of_weak w missing call = if is_dangling w.ptr then pure missing else on_ptr w.ptr call

  unfoldable pub upgrade_weak : WeakAnyRef → Cmd Memory (Option AnyRef)
  upgrade_weak w = do
    made ← inner_of_weak w false (upgrade L)
    pure (if made then some (from_inner_in (get_mut_inner_ptr_of_weak w)) else none)

  unfoldable pub strong_count_of_weak : WeakAnyRef → Cmd Memory ℕ
  strong_count_of_weak w = inner_of_weak w 0 (strong_count L)

  unfoldable pub weak_count_of_pointer : WeakAnyRef → Cmd Memory ℕ
  weak_count_of_pointer w = inner_of_weak w 0 (weak_count_of_weak L)

  unfoldable pub clone_pointer : WeakAnyRef → Cmd Memory WeakAnyRef
  clone_pointer w = do inner_of_weak w tt (clone_weak L); pure (record { ptr = w.ptr })

  unfoldable pub drop_pointer : WeakAnyRef → Cmd Memory (Unit {0})
  drop_pointer w = inner_of_weak w tt (drop_weak L)

  unfoldable pub downgrade_pointer : AnyRef → Cmd Memory WeakAnyRef
  downgrade_pointer a = do on_ptr a.ptr (downgrade L); pure (record { ptr = a.ptr })

  -- `as_ptr` of a handle that points to the address: where the box of the allocation keeps its value.
  unfoldable pub as_ptr : (V → Address) → Address → Cmd Memory Address
  as_ptr address_of p =
      if is_dangling p then pure p else on_ptr p (do (_, x) ← get_ref L; pure (address_of x))

  unfoldable pub as_cast_ptr : (V → Address) → TypeId → AnyRef → Cmd Memory Address
  as_cast_ptr address_of u a = do
    on_ptr a.ptr (do s ← inner L; if s.type_id == u then pure tt else (λ _. panics))
    as_ptr address_of a.ptr

  -- A handle of `WeakAnyRef::new` reaches no allocation: it is never upgraded, both its counts are 0, and
  -- its clones, which are such handles again, and its drop leave the memory alone.
  pub new_weak-inert_any :
      (m : Memory)
      → (upgrade_weak new_weak m ≡ ok none m)
        × (strong_count_of_weak new_weak m ≡ ok 0 m)
        × (weak_count_of_pointer new_weak m ≡ ok 0 m)
        × (clone_pointer new_weak m ≡ ok new_weak m)
        × (drop_pointer new_weak m ≡ ok tt m)
  unfolding upgrade_weak strong_count_of_weak weak_count_of_pointer clone_pointer drop_pointer
      inner_of_weak is_dangling
  new_weak-inert_any m = (refl, refl, refl, refl, refl)

-- `from_raw` of what `into_raw` returns is the same handle, where the allocation ends before the last
-- address.
pub from_raw-into_raw_any :
    (offset : ℕ) (a : AnyRef)
    → a.ptr + offset + 1 < 2 ^ 64
    → from_raw offset (into_raw offset a) ≡ a
unfolding from_raw into_raw from_raw_in from_inner_in from_ptr_in is_dangling
from_raw-into_raw_any offset a fits =
    let plain : (a.ptr + offset) % 2 ^ 64 ≡ a.ptr + offset = omega arith in
    let inside : ((a.ptr + offset) == usize_max) ≡ false = ground arith in
    let back : (a.ptr + offset + (2 ^ 64 - offset)) % 2 ^ 64 ≡ a.ptr = omega arith in
    rw (plain, inside, back) refl
