-- ===== src/AnyRef/Handles.antt =====
-- The ways to make an `AnyRef` of src/any_ref/strong.rs, and the calls that make one from another.
use acar.Prelude.{ℕ, ◌+◌, ◌-◌, ◌<◌, ◌^◌, ◌≡◌, ◌==◌, refl, arith, true, Bool, none, some}
use acar.Locking.{Locking, nobody}
use acar.Outcome.{fault, Cmd, pure, ◌>>=◌, ◌>>◌, Returns, returns, bind}
use acar.Utils.{Address, Raw, read}
use acar.AnyRef.{
  AnyRefInner, TypeId, Call, new, from_box, inner, as_ref, drop_ref, drop, try_downcast_ref,
  expect_value, locking, get_ref, drop_handle,
}
use acar.Arw.Counts.{Counts}
use acar.AnyRef.Counts.{untyped, drop_any-Counts}
use acar.AnyRef.Downcast.{Typed}

module _ (L : Locking) {V : Type 0} where
  -- The unit value and its type are parameters, and so is the default value of a type.
  abbrev pub new_default : TypeId → V → AnyRefInner L.Lock V
  new_default unit_type unit = from_box L unit_type unit

  abbrev pub default_with : TypeId → V → AnyRefInner L.Lock V
  default_with u value = from_box L u value

  -- `From<*mut T>`: the bits of the value are copied, and the cell is left to the caller.
  unfoldable pub from_ptr : TypeId → Address → Cmd (Raw V) (AnyRefInner L.Lock V)
  from_ptr u p = do value ← read p; pure (new L u value)

  -- `From<&str>`: the copy that owns the characters and the type of a `String` are parameters.
  abbrev pub from_str : {S : Type 0} → TypeId → (S → V) → S → AnyRefInner L.Lock V
  from_str string_type to_string s = new L string_type (to_string s)

  unfoldable pub is_locked : Call L V Bool
  is_locked = do
    s ← inner L
    elim s.lock as (λ o. Call L V Bool) [
      | none ↦ λ _. fault
      | some l ↦ pure (L.is_locked_exclusive l)
    ]

  unfoldable pub type_name : Call L V TypeId
  type_name = do s ← inner L; pure s.type_name

  -- From a value of type `u` to one of type `v`. `func` reads the value through the guard, which ends
  -- with it, and the handle ends with the call.
  unfoldable pub map : TypeId → TypeId → (V → V) → Call L V (AnyRefInner L.Lock V)
  map u v func = do x ← as_ref L u; drop_ref L; let made = new L v (func x); drop L; pure made

  relocked_any :
      {x : V} (a : AnyRefInner L.Lock V) {s w : ℕ} (l : L.Lock)
      → Counts x (untyped a) s w
      → 0 < s
      → Counts x (untyped (record a { lock = some l; allocated = true })) s w
  relocked_any a l c p = record {
    strong = c.strong;
    weak = c.weak;
    lock = ground arith;
    val = c.val;
    destroyed = c.destroyed;
    allocated = ground arith;
    few = c.few;
  }

  -- `map` at the type of a value that nobody has locked makes a new allocation for what the function
  -- returns, of the type asked for, and ends one strong handle of the old one, which stays if another
  -- is left.
  pub map-new_any :
      {r : ℕ} (u v : TypeId) (func : V → V) (x : V) (a : AnyRefInner L.Lock V) (s w : ℕ)
      → Typed L r nobody u x a
      → Counts x (untyped a) s w
      → 0 < s
      → r + 2 < 2 ^ 64
      → Returns
          (λ made b. (made ≡ new L v (func x)) × Counts x (untyped b) (s - 1) w)
          (map u v func a)
  unfolding map as_ref try_downcast_ref expect_value drop_ref inner locking get_ref drop_handle
  map-new_any u v func x a s w t c p room =
      let (m, opened, ours) = L.opens (L.clone t.lock) (L.clone-Is t.lock nobody t.held room) in
      let (n, closed, free) = L.closes m ours in
      let (k, ended, back) = L.drop-Is n nobody free in
      let same : (u == u) ≡ true = ground arith in
      rw
        (
          t.allocated, t.type_id, same, t.at, locking, opened, t.boxed, get_ref, same, expect_value,
          closed, drop_handle, ended,
        )
        (bind (drop_any-Counts L _ (relocked_any a k c p) p) λ _ b d. returns (refl, d))
