-- ===== src/Examples/Allocations.antt =====
-- Runs of src/arw, src/any_ref and the guards of src/mutex at concrete inputs, over the mutex.
use acar.Prelude.{ℕ, ◌≡◌, refl, true, none, some, [], ◌∷◌, arith}
use acar.Locking.{nobody}
use acar.Mutex
use acar.Mutex.{InnerMutex}
use acar.Mutex.Lone.{mutex_locking}
use acar.Outcome.{Returns, ◌>>=◌, ◌>>◌, pure}
use acar.Arw.{ArwInner, new, try_unwrap}
use acar.Arw.Value.{Live, try_unwrap_lem}
use acar.AnyRef
use acar.AnyRef.{AnyRefInner}
use acar.AnyRef.Downcast.{Typed, fill-as_ref}
use acar.Guards
use acar.Guards.Laws.{drop-new}

abbrev five : ℕ
five = 5

-- A new allocation for 5, with `s` strong handles.
abbrev shared_by : ℕ → ArwInner InnerMutex ℕ
shared_by s = record (new mutex_locking 5) { strong = s }

shared_by-Live : (s : ℕ) → Live mutex_locking 0 nobody 5 (shared_by s)
shared_by-Live s = record {
  lock = Mutex.new;
  at = refl;
  held = mutex_locking.fresh_Is;
  val = refl;
  allocated = refl;
}

try_unwrap_lem_example :
    Returns
      (λ o b. (o ≡ some 5) × (b.strong ≡ 0) × (b.val ≡ none) × (b.destroyed ≡ 5 ∷ []))
      (try_unwrap mutex_locking (shared_by 1))
try_unwrap_lem_example = try_unwrap_lem mutex_locking 5 (shared_by 1) (shared_by-Live 1)

-- The guards of the fresh mutex: what `drop-new` says of them.
drop-new_example :
    ((k : InnerMutex) × (mutex_locking.lock_group (mutex_locking.clone Mutex.new) ≡ some k)
      × (Guards.is_locked_ref mutex_locking (Guards.new_ref mutex_locking five k) ≡ true)
      × ((m : InnerMutex) × (Guards.drop_ref mutex_locking (Guards.new_ref mutex_locking five k)
            ≡ some (some m))
          × mutex_locking.Is 0 nobody m))
    × ((k : InnerMutex) × (mutex_locking.lock_exclusive (mutex_locking.clone Mutex.new) ≡ some k)
        × (Guards.is_locked_mut mutex_locking (Guards.new_mut mutex_locking five k) ≡ true)
        × ((m : InnerMutex) × (Guards.drop_mut mutex_locking (Guards.new_mut mutex_locking five k)
              ≡ some (some m))
            × mutex_locking.Is 0 nobody m))
drop-new_example = drop-new mutex_locking 5 Mutex.new mutex_locking.fresh_Is (omega arith)

-- A new allocation for 5, of the type 1.
abbrev boxed_five : AnyRefInner InnerMutex ℕ
boxed_five = AnyRef.new mutex_locking 1 five

boxed_five-Typed : Typed mutex_locking 0 nobody 1 five boxed_five
boxed_five-Typed = record {
  lock = Mutex.new;
  at = refl;
  held = mutex_locking.fresh_Is;
  boxed = refl;
  type_id = refl;
  allocated = refl;
}

fill-as_ref_example :
    Returns
      (λ now b.
        (now ≡ 6) × Typed mutex_locking 0 nobody 2 6 b × (b.destroyed ≡ 5 ∷ []) × (b.type_name ≡ 1))
      ((do
        AnyRef.fill mutex_locking 2 6
        now ← AnyRef.as_ref mutex_locking 2
        AnyRef.drop_ref mutex_locking
        pure now)
        boxed_five)
fill-as_ref_example = fill-as_ref mutex_locking 1 2 five 6 boxed_five boxed_five-Typed (omega arith)
