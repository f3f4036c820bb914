-- ===== src/Arw/Pointers.antt =====
-- src/arw/ptr_interface.rs, and the handles of src/arw/strong.rs and src/arw/weak.rs as pointers into
-- a memory of allocations. Where the value stands in an allocation is a parameter.
use acar.Prelude.{
  ℕ, ◌+◌, ◌-◌, ◌^◌, ◌%◌, ◌<◌, ◌≡◌, refl, Bool, false, Option, none, some, if◌then◌else◌, ◌==◌,
  usize_max, arith,
}
use acar.Locking.{Locking}
use acar.Outcome.{Run, ok, panics, aborts, fault, waits, Cmd, pure, ◌>>=◌, ◌>>◌}
use acar.Utils.{Address, is_dangling}
use acar.Arw.{
  ArwInner, Call, drop_weak, clone_weak, upgrade, downgrade, weak_count_of_weak, strong_count,
}

-- `Arw` and `WeakArw`
pub record Arw : Type 0 where
  pub ptr : Address

pub record WeakArw : Type 0 where
  pub ptr : Address

abbrev pub get_mut_inner_ptr : Arw → Address
get_mut_inner_ptr a = a.ptr

abbrev pub get_mut_inner_ptr_of_weak : WeakArw → Address
get_mut_inner_ptr_of_weak w = w.ptr

unfoldable pub from_inner_in : Address → Arw
from_inner_in p = record { ptr = p }

unfoldable pub weak_from_inner_in : Address → WeakArw
weak_from_inner_in p = record { ptr = p }

-- `from_ptr_in`, and the two that only call it or `from_inner_in`.
unfoldable pub from_ptr_in : Address → Arw
from_ptr_in p = from_inner_in p

unfoldable pub from_ptr : Address → Arw
from_ptr p = from_ptr_in p

unfoldable pub from_inner : Address → Arw
from_inner p = from_inner_in p

unfoldable pub ptr_eq : Arw → Arw → Bool
ptr_eq this other = get_mut_inner_ptr this == get_mut_inner_ptr other

unfoldable pub into_raw : ℕ → Arw → Address
into_raw offset this = (get_mut_inner_ptr this + offset) % 2 ^ 64

-- `as_ptr` of a handle that points to the address.
unfoldable pub as_ptr : ℕ → Address → Address
as_ptr offset p = if is_dangling p then p else (p + offset) % 2 ^ 64

-- The address of the allocation whose value is at the given one.
unfoldable pub from_raw_in : ℕ → Address → Address
from_raw_in offset p = if is_dangling p then p else (p + (2 ^ 64 - offset)) % 2 ^ 64

unfoldable pub from_raw : ℕ → Address → Arw
from_raw offset p = from_ptr_in (from_raw_in offset p)

-- `WeakArw::new`, which no allocation backs.
abbrev pub new_weak : WeakArw
new_weak = record { ptr = usize_max }

abbrev pub default_weak : WeakArw
default_weak = new_weak

module _ (L : Locking) (T : Type 0) where
  open L use {Lock}

  abbrev pub Memory : Type 0
  Memory = Address → Option (ArwInner Lock T)

  unfoldable pub stored : {B : Type 0} → Memory → Address → Run (ArwInner Lock T) B → Run Memory B
  stored m p (ok b s) = ok b (λ q. if q == p then some s else m q)
  stored m p panics = panics
  stored m p aborts = aborts
  stored m p fault = fault
  stored m p waits = waits

  -- A call on the allocation at an address; a fault where there is none.
  unfoldable pub on_ptr : {B : Type 0} → Address → Call L T B → Cmd Memory B
  on_ptr p call m = elim (m p) [ none ↦ fault | some s ↦ stored m p (call s) ]

  -- `WeakArw::inner`: what a call does if the pointer dangles, and what it does at the allocation.
  unfoldable pub inner_of_weak : {B : Type 0} → WeakArw → B → Call L T B → Cmd Memory B
  inner_of_weak w missing call = if is_dangling w.ptr then pure missing else on_ptr w.ptr call

  unfoldable pub upgrade_weak : WeakArw → Cmd Memory (Option Arw)
  upgrade_weak w = do
    made ← inner_of_weak w false (upgrade L)
    pure (if made then some (from_inner_in (get_mut_inner_ptr_of_weak w)) else none)

  unfoldable pub strong_count_of_weak : WeakArw → Cmd Memory ℕ
  strong_count_of_weak w = inner_of_weak w 0 (strong_count L)

  unfoldable pub weak_count_of_pointer : WeakArw → Cmd Memory ℕ
  weak_count_of_pointer w = inner_of_weak w 0 (weak_count_of_weak L)

  unfoldable pub clone_pointer : WeakArw → Cmd Memory WeakArw
  clone_pointer w = do inner_of_weak w tt (clone_weak L); pure (record { ptr = w.ptr })

  unfoldable pub drop_pointer : WeakArw → Cmd Memory (Unit {0})
  drop_pointer w = inner_of_weak w tt (drop_weak L)

  unfoldable pub downgrade_pointer : Arw → Cmd Memory WeakArw
  downgrade_pointer a = do on_ptr a.ptr (downgrade L); pure (record { ptr = a.ptr })

  -- A handle of `WeakArw::new` reaches no allocation: it is never upgraded, both its counts are 0, and
  -- its clones, which are such handles again, and its drop leave the memory alone.
  pub new_weak-inert :
      (m : Memory)
      → (upgrade_weak new_weak m ≡ ok none m)
        × (strong_count_of_weak new_weak m ≡ ok 0 m)
        × (weak_count_of_pointer new_weak m ≡ ok 0 m)
        × (clone_pointer new_weak m ≡ ok new_weak m)
        × (drop_pointer new_weak m ≡ ok tt m)
  unfolding upgrade_weak strong_count_of_weak weak_count_of_pointer clone_pointer drop_pointer
      inner_of_weak is_dangling
  new_weak-inert m = (refl, refl, refl, refl, refl)

-- `from_raw` of what `into_raw` returns is the same handle, and `into_raw` returns what `as_ptr` does,
-- where the allocation ends before the last address.
pub from_raw-into_raw :
    (offset : ℕ) (a : Arw)
    → a.ptr + offset + 1 < 2 ^ 64
    → (from_raw offset (into_raw offset a) ≡ a) × (into_raw offset a ≡ as_ptr offset a.ptr)
unfolding from_raw into_raw from_raw_in from_inner_in from_ptr_in as_ptr is_dangling
from_raw-into_raw offset a fits =
    let low : (a.ptr == usize_max) ≡ false = ground arith in
    let plain : (a.ptr + offset) % 2 ^ 64 ≡ a.ptr + offset = omega arith in
    let inside : ((a.ptr + offset) == usize_max) ≡ false = ground arith in
    let back : (a.ptr + offset + (2 ^ 64 - offset)) % 2 ^ 64 ≡ a.ptr = omega arith in
    (rw (plain, inside, back) refl, rw low refl)
