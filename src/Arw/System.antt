-- ===== src/Arw/System.antt =====
-- The handles of one allocation of src/arw, each with a holder of its own, interleaved in any order.
use acar.Prelude.{
  ℕ, ◌+◌, ◌<◌, ◌≡◌, Bool, true, some, List, [], ◌∷◌, ◌++◌, ◌==◌, leb, if◌then◌else◌, get_elem?, set,
  total, made,
}
use acar.Arw.{max_refcount}
use acar.Arw.Threads.{
  Shared, Pc, step, strong_idle, weak_idle, cl_add, dr_sub, dr_lock, dr_val, dg_load, dg_try,
  iu_claim, iu_load, iu_store, rf_lock, rf_val, tu_lock, tu_claim, tu_unlock, tu_read, tu_val,
  tu_drop_lock, iu_answer, am_lock, am_val, il_lock, ct_load, fi_lock, fi_val, fi_unlock, unwinding,
  wt_load, up_load, up_try, cw_add, dw_sub, dw_free, faulted, panicked, aborted,
}

pub record System : Type 0 where
  pub shared : Shared
  pub holders : List Pc

-- The calls that a holder may start. `map` is `as_ref` and a `drop`; `new`, the `From` constructors and
-- the moves to and from raw pointers make no access to an allocation that others have handles of.
pub data Calls : Pc → Pc → Type 0 where
  clone : Calls strong_idle cl_add
  drop : Calls strong_idle dr_sub
  downgrade : Calls strong_idle dg_load
  is_unique : Calls strong_idle iu_claim
  as_ref : Calls strong_idle rf_lock
  as_mut : Calls strong_idle am_lock
  is_locked : Calls strong_idle il_lock
  counts : Calls strong_idle ct_load
  fill : Calls strong_idle fi_lock
  try_unwrap : Calls strong_idle tu_lock
  unwinds : Calls unwinding dr_sub
  upgrade : Calls weak_idle up_load
  counts_weak : Calls weak_idle wt_load
  clone_weak : Calls weak_idle cw_add
  drop_weak : Calls weak_idle dw_sub

-- The holders of a handle of each kind: a strong one whose holder has not locked the weak count, one
-- whose holder has; a weak one.
abbrev pub plain : Pc → ℕ
plain strong_idle = 1
plain cl_add = 1
plain dr_sub = 1
plain dg_load = 1
plain (dg_try cur) = 1
plain iu_claim = 1
plain rf_lock = 1
plain rf_val = 1
plain (iu_answer unique) = 1
plain am_lock = 1
plain am_val = 1
plain il_lock = 1
plain ct_load = 1
plain fi_lock = 1
plain fi_val = 1
plain fi_unlock = 1
plain unwinding = 1
plain tu_lock = 1
plain tu_claim = 1
plain tu_unlock = 1
plain _ = 0

abbrev pub claiming : Pc → ℕ
claiming iu_load = 1
claiming (iu_store unique) = 1
claiming _ = 0

abbrev pub weakly : Pc → ℕ
weakly weak_idle = 1
weakly wt_load = 1
weakly up_load = 1
weakly (up_try n) = 1
weakly cw_add = 1
weakly dw_sub = 1
weakly _ = 0

-- The holder that has taken the strong count to 0, by what it has still to destroy; and the one that
-- has taken the weak count to 0.
abbrev pub both_left : Pc → ℕ
both_left dr_lock = 1
both_left tu_read = 1
both_left tu_val = 1
both_left _ = 0

abbrev pub val_left : Pc → ℕ
val_left dr_val = 1
val_left _ = 0

abbrev pub lock_left : Pc → ℕ
lock_left tu_drop_lock = 1
lock_left _ = 0

abbrev pub freeing : Pc → ℕ
freeing dw_free = 1
freeing _ = 0

-- A call that has gone wrong, or that is about to.
abbrev pub broken : Pc → ℕ
broken faulted = 1
broken panicked = 1
broken aborted = 1
broken (dg_try cur) = if leb cur max_refcount then 0 else 1
broken (up_try n) = if n == 0 then 1 else 0
broken _ = 0

abbrev pub live : Pc → ℕ
live p = plain p + claiming p + weakly p

abbrev pub init : System
init = record {
  shared = record {
    strong = 1;
    weak = 1;
    lock = true;
    val = true;
    allocated = true;
    destroyed = 0;
    filled = 0;
  };
  holders = strong_idle ∷ [];
}

-- The states that the holders can reach, with fewer than `max_refcount` handles at every access.
pub data Reach : System → Type 0 where
  start : Reach init
  access :
      {s : System} (i : ℕ) (spurious : Bool) {p : Pc}
      → Reach s
      → get_elem? s.holders i ≡ some p
      → total live s.holders < max_refcount
      → Reach (record {
        shared = (step spurious p s.shared).1;
        holders = set s.holders i (step spurious p s.shared).0 ++ made (step spurious p s.shared).2;
      })
  call :
      {s : System} (i : ℕ) {p q : Pc}
      → Reach s
      → get_elem? s.holders i ≡ some p
      → Calls p q
      → Reach (record { shared = s.shared; holders = set s.holders i q })
