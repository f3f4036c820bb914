-- ===== src/Arw/Handles.antt =====
-- The ways to make an `Arw` of src/arw/strong.rs, and the calls that make one from another.
use acar.Prelude.{ℕ, ◌+◌, ◌-◌, ◌<◌, ◌^◌, ◌≡◌, refl, arith, Bool, true, none, some, []}
use acar.Locking.{Locking, nobody}
use acar.Outcome.{fault, Cmd, pure, ◌>>=◌, ◌>>◌, Returns, returns, bind}
use acar.Utils.{Address, Raw, read}
use acar.Arw.{ArwInner, Call, new, inner, locking, read_data, drop_handle, as_ref, drop_ref, drop}
use acar.Arw.Counts.{Counts, drop-Counts}
use acar.Arw.Value.{Live}

module _ (L : Locking) {T : Type 0} where
  -- The default value of the type is a parameter.
  abbrev pub new_default : T → ArwInner L.Lock T
  new_default value = record {
    lock = some L.fresh;
    strong = 1;
    weak = 1;
    val = some value;
    allocated = true;
    destroyed = [];
  }

  -- `From<*mut T>`: the bits of the value are copied, and the cell is left to the caller.
  unfoldable pub from_ptr : Address → Cmd (Raw T) (ArwInner L.Lock T)
  from_ptr p = do value ← read p; pure (new L value)

  -- `From<&str>` and `From<Box<T>>`: the copy that owns the characters is a parameter.
  abbrev pub from_str : {S : Type 0} → (S → T) → S → ArwInner L.Lock T
  from_str to_string s = new L (to_string s)

  abbrev pub from_box : T → ArwInner L.Lock T
  from_box b = new L b

  unfoldable pub is_locked : Call L T Bool
  is_locked = do
    s ← inner L
    elim s.lock as (λ o. Call L T Bool) [
      | none ↦ λ _. fault
      | some l ↦ pure (L.is_locked_exclusive l)
    ]

  -- `func` reads the value through the guard, which ends with it, and the handle ends with the call.
  unfoldable pub map : {U : Type 0} → (T → U) → Call L T (ArwInner L.Lock U)
  map func = do x ← as_ref L; drop_ref L; let made = new L (func x); drop L; pure made

  relocked :
      {x : T} {a : ArwInner L.Lock T} {s w : ℕ} (l : L.Lock)
      → Counts x a s w
      → 0 < s
      → Counts x (record a { lock = some l; allocated = true }) s w
  relocked l c p = record {
    strong = c.strong;
    weak = c.weak;
    lock = ground arith;
    val = c.val;
    destroyed = c.destroyed;
    allocated = ground arith;
    few = c.few;
  }

  -- `map` of a value that nobody has locked makes a new allocation for what the function returns, and
  -- ends one strong handle of the old one, which stays if another is left.
  pub map-new :
      {U : Type 0} {r : ℕ} (func : T → U) (x : T) (a : ArwInner L.Lock T) (s w : ℕ)
      → Live L r nobody x a
      → Counts x a s w
      → 0 < s
      → r + 2 < 2 ^ 64
      → Returns (λ made b. (made ≡ new L (func x)) × Counts x b (s - 1) w) (map func a)
  unfolding map as_ref drop_ref inner locking read_data drop_handle
  map-new func x a s w v c p room =
      let (m, opened, ours) = L.opens (L.clone v.lock) (L.clone-Is v.lock nobody v.held room) in
      let (n, closed, free) = L.closes m ours in
      let (k, ended, back) = L.drop-Is n nobody free in
      rw (v.allocated, v.at, opened, v.val, locking, closed, drop_handle, ended)
        (bind (drop-Counts L (relocked k c p) p) λ _ b d. returns (refl, d))
