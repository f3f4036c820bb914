-- ===== src/Examples/Handles.antt =====
-- Handles of src/arw and src/any_ref, and the calls of src/utils.rs, at concrete inputs.
use acar.Prelude.{
  ℕ, ◌⊎◌, ◌+◌, Bool, ◌<◌, ◌≡◌, refl, true, false, some, [], ◌∷◌, total, ◌==◌, arith, usize_max,
}
use acar.Mutex.Lone.{mutex_locking}
use acar.Utils.{wait_until}
use acar.Utils.Laws.{wait_until_lem}
use acar.Arw.Counts.{drops, perform}
use acar.AnyRef
use acar.Arw
use acar.AnyRef.Counts.{perform_any, untyped, untyped_run, perform_any-untyped}
use acar.Arw.Threads.{step, access, gone, iu_load, iu_store, iu_answer}
use acar.Arw.System.{
  System, Reach, start, call, drop, is_unique, clone, live, plain, claiming, init,
}
use acar.Arw.System as System
use acar.Arw.Safety.{is_unique_sole}

-- The only handle has been dropped.
abbrev dropped : System
dropped = record {
  shared = record {
    strong = 0;
    weak = 0;
    lock = false;
    val = false;
    allocated = false;
    destroyed = 1;
    filled = 0;
  };
  holders = gone ∷ [];
}

-- The handle has been cloned, the clone has been dropped, and `is_unique` has locked the weak count.
abbrev claimed : System
claimed = record {
  shared = record {
    strong = 1;
    weak = usize_max;
    lock = true;
    val = true;
    allocated = true;
    destroyed = 0;
    filled = 0;
  };
  holders = iu_load ∷ gone ∷ [];
}

claimed-Reach : Reach claimed
unfolding step access total
claimed-Reach =
    System.access 0 false
      (call 0
        (System.access 1 false
          (call 1 (System.access 0 false (call 0 start refl clone) refl (omega arith)) refl drop)
          refl (omega arith))
        refl is_unique)
      refl (omega arith)

is_unique_sole_example :
    (((step false iu_load claimed.shared).0 ≡ iu_store true) × (total live claimed.holders ≡ 1)
      ⊎ ((step false iu_load claimed.shared).0 ≡ iu_store false)
        × (1 < total plain claimed.holders + total claiming claimed.holders))
    × ((u : Bool) → (step false (iu_store u) claimed.shared).0 ≡ iu_answer u)
is_unique_sole_example = is_unique_sole 0 false claimed-Reach refl

abbrev six : ℕ
six = 6

early : (i : ℕ) → i < 3 → i < 3
early i h = h

wait_until_lem_example : wait_until 4 3 (λ i. i) (λ i. i == 2) ≡ some true
wait_until_lem_example = wait_until_lem 3 3 (λ i. i) (λ i. i == 2) early (omega arith)

perform_any-untyped_example :
    (untyped_run (perform_any mutex_locking drops (AnyRef.new mutex_locking 1 six))
      ≡ perform mutex_locking drops (untyped (AnyRef.new mutex_locking 1 six)))
    × (untyped_run (AnyRef.upgrade mutex_locking (AnyRef.new mutex_locking 1 six))
        ≡ Arw.upgrade mutex_locking (untyped (AnyRef.new mutex_locking 1 six)))
perform_any-untyped_example =
    perform_any-untyped mutex_locking drops (AnyRef.new mutex_locking 1 six) refl
