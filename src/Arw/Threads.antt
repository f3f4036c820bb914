-- ===== src/Arw/Threads.antt =====
-- src/arw/strong.rs and src/arw/weak.rs as threads see them: where the holder of a handle stands in a
-- call, and what its next access to the allocation does. One step is one atomic operation, or one
-- access to the value, the lock or the allocator, in a total order of all of them.
use acar.Prelude.{
  ℕ, ◌+◌, Bool, true, false, ◌&&◌, not, Option, none, some, ◌==◌, leb, ltb, if◌then◌else◌,
  wrapping_inc, wrapping_dec, usize_max,
}
use acar.Arw.{max_refcount}

-- The allocation. `lock` and `val` say whether they have not been dropped in place yet, and
-- `destroyed` counts how often a value has been, and `filled` how often `fill` has put one in its place.
-- What the lock lets through is not looked into: a call of it is one access, which touches it.
pub record Shared : Type 0 where
  pub strong : ℕ  -- usize
  pub weak : ℕ  -- usize
  pub lock : Bool
  pub val : Bool
  pub allocated : Bool
  pub destroyed : ℕ
  pub filled : ℕ

-- A handle, and where its holder stands.
pub data Pc : Type 0 where
  gone : Pc
  strong_idle : Pc
  weak_idle : Pc
  -- <Arw as Clone>::clone
  cl_add : Pc  -- the fetch_add
  -- <Arw as Drop>::drop
  dr_sub : Pc  -- the fetch_sub
  dr_lock : Pc
  dr_val : Pc
  -- downgrade
  dg_load : Pc
  dg_try : (cur : ℕ) → Pc  -- the exchange of `cur`
  -- is_unique
  iu_claim : Pc  -- the exchange of 1
  iu_load : Pc
  iu_store : (unique : Bool) → Pc
  iu_answer : (unique : Bool) → Pc  -- the call returns
  -- as_ref, up to the reference that the guard holds
  rf_lock : Pc
  rf_val : Pc
  -- as_mut, likewise
  am_lock : Pc
  am_val : Pc
  -- is_locked, and the load of strong_count and of weak_count
  il_lock : Pc
  ct_load : Pc
  -- fill
  fi_lock : Pc
  fi_val : Pc
  fi_unlock : Pc
  -- unlock_exclusive has panicked in fill or try_unwrap, whose handle is still to be dropped
  unwinding : Pc
  -- try_unwrap
  tu_lock : Pc
  tu_claim : Pc  -- the exchange of 1
  tu_unlock : Pc
  tu_read : Pc
  tu_val : Pc
  tu_drop_lock : Pc
  -- upgrade
  up_load : Pc
  up_try : (n : ℕ) → Pc  -- the exchange of `n`
  -- strong_count and weak_count of a weak handle
  wt_load : Pc
  -- <WeakArw as Clone>::clone
  cw_add : Pc
  -- <WeakArw as Drop>::drop
  dw_sub : Pc
  dw_free : Pc
  faulted : Pc
  panicked : Pc
  aborted : Pc

-- The loop of `downgrade` once the weak count has been read.
abbrev pub dg_next : ℕ → Pc
dg_next cur =
    if cur == usize_max then dg_load else (if leb cur max_refcount then dg_try cur else panicked)

-- `checked_increment` of the strong count that has been read.
abbrev pub up_next : ℕ → Pc
up_next n = if n == 0 then weak_idle else (if leb n max_refcount then up_try n else panicked)

-- The point that follows, the allocation, and the handle that has been made.
abbrev pub Next : Type 0
Next = Pc × Shared × Option Pc

-- The accesses, in the order of the points. `spurious` is whether a `compare_exchange_weak` fails
-- although the value is the expected one; and `unlock` panics if it is set.
abbrev pub add_strong : Shared → Next
add_strong s = (
  if leb max_refcount s.strong then aborted else strong_idle,
  record s { strong = wrapping_inc s.strong },
  if leb max_refcount s.strong then none else some strong_idle,
)

abbrev pub sub_strong : Shared → Next
sub_strong s =
    (if s.strong == 1 then dr_lock else gone, record s { strong = wrapping_dec s.strong }, none)

abbrev pub destroy_lock : Pc → Shared → Next
destroy_lock q s = (if s.lock then q else faulted, record s { lock = false }, none)

abbrev pub destroy_val : Pc → Shared → Next
destroy_val q s =
    (if s.val then q else faulted, record s { val = false; destroyed = s.destroyed + 1 }, none)

abbrev pub try_downgrade : (spurious : Bool) → ℕ → Shared → Next
try_downgrade f cur s =
    if (s.weak == cur) && not f
    then (strong_idle, record s { weak = cur + 1 }, some weak_idle)
    else (dg_next s.weak, s, none)

abbrev pub claim_weak : Shared → Next
claim_weak s =
    if s.weak == 1
    then (iu_load, record s { weak = usize_max }, none)
    else (iu_answer false, s, none)

-- A use of the lock, and of the value.
abbrev pub use_lock : Pc → Shared → Next
use_lock q s = (if s.lock then q else faulted, s, none)

abbrev pub use_val : Pc → Shared → Next
use_val q s = (if s.val then q else faulted, s, none)

-- The old value is dropped where it stands, and the new one is written.
abbrev pub fill_val : Shared → Next
fill_val s = (
  if s.val then fi_unlock else faulted,
  record s { destroyed = s.destroyed + 1; filled = s.filled + 1 },
  none,
)

-- `unlock_exclusive` panics on a lock that is not in the state LOCKED.
abbrev pub unlock : (panics : Bool) → Shared → Next
unlock panics s = use_lock (if panics then unwinding else strong_idle) s

abbrev pub claim_strong : Shared → Next
claim_strong s =
    if s.strong == 1 then (tu_read, record s { strong = 0 }, none) else (tu_unlock, s, none)

abbrev pub try_upgrade : (spurious : Bool) → ℕ → Shared → Next
try_upgrade f n s =
    if (s.strong == n) && not f
    then (weak_idle, record s { strong = n + 1 }, some strong_idle)
    else (up_next s.strong, s, none)

abbrev pub add_weak : Shared → Next
add_weak s = (
  if ltb max_refcount s.weak then aborted else weak_idle,
  record s { weak = wrapping_inc s.weak },
  if ltb max_refcount s.weak then none else some weak_idle,
)

abbrev pub sub_weak : Shared → Next
sub_weak s = (if s.weak == 1 then dw_free else gone, record s { weak = wrapping_dec s.weak }, none)

abbrev pub free_memory : Shared → Next
free_memory s = (gone, record s { allocated = false }, none)

-- The access at each point; outside a call there is none.
unfoldable pub access : (spurious : Bool) → Pc → Shared → Next
access f cl_add s = add_strong s
access f dr_sub s = sub_strong s
access f dr_lock s = destroy_lock dr_val s
access f dr_val s = destroy_val dw_sub s
access f dg_load s = (dg_next s.weak, s, none)
access f (dg_try cur) s = try_downgrade f cur s
access f iu_claim s = claim_weak s
access f iu_load s = (iu_store (s.strong == 1), s, none)
access f (iu_store unique) s = (iu_answer unique, record s { weak = 1 }, none)
access f rf_lock s = use_lock rf_val s
access f (iu_answer unique) s = (strong_idle, s, none)
access f rf_val s = use_val strong_idle s
access f am_lock s = use_lock am_val s
access f am_val s = use_val strong_idle s
access f il_lock s = use_lock strong_idle s
access f ct_load s = (strong_idle, s, none)
access f fi_lock s = use_lock fi_val s
access f fi_val s = fill_val s
access f fi_unlock s = unlock f s
access f tu_lock s = use_lock tu_claim s
access f tu_claim s = claim_strong s
access f tu_unlock s = unlock f s
access f tu_read s = use_val tu_val s
access f tu_val s = destroy_val tu_drop_lock s
access f tu_drop_lock s = destroy_lock dw_sub s
access f up_load s = (up_next s.strong, s, none)
access f (up_try n) s = try_upgrade f n s
access f wt_load s = (weak_idle, s, none)
access f cw_add s = add_weak s
access f dw_sub s = sub_weak s
access f dw_free s = free_memory s
access f p s = (p, s, none)

-- Whether the holder is in a call.
abbrev pub in_call : Pc → Bool
in_call gone = false
in_call strong_idle = false
in_call weak_idle = false
in_call faulted = false
in_call panicked = false
in_call aborted = false
in_call unwinding = false
in_call (iu_answer unique) = false
in_call _ = true

-- Every access goes through the pointer, and is a fault once the memory has been given back.
unfoldable pub step : (spurious : Bool) → Pc → Shared → Next
unfolding access
step f p s = if in_call p && not s.allocated then (faulted, s, none) else access f p s
