-- ===== src/AnyRef/Downcast.antt =====
-- Downcasts of src/any_ref: which type a value is read as.
use acar.Prelude.{
  ℕ, suc, ◌+◌, ◌<◌, ◌^◌, ◌≡◌, refl, true, none, some, ◌∷◌, ◌==◌, if◌then◌else◌, arith, Bool-cases,
  inl, inr,
}
use acar.Locking.{Locking, Held, nobody, group}
use acar.Outcome.{pure, ◌>>=◌, ◌>>◌, Returns, returns}
use acar.AnyRef.{
  AnyRefInner, TypeId, inner, locking, get_ref, drop_data, try_downcast_ref, as_ref, drop_ref,
  drop_handle, fill, set_data, set_type_id, expect_value,
}

module _ (L : Locking) {V : Type 0} where
  -- The lock is there, held as given and with the given number of handles besides the allocation's, and so is a value of the type that `type_id` says.
  pub record Typed (r : ℕ) (h : Held) (u : TypeId) (x : V) (a : AnyRefInner L.Lock V) : Type 0 where
    pub lock : L.Lock
    pub at : a.lock ≡ some lock
    pub held : L.Is r h lock
    pub boxed : a.boxed ≡ some (u, x)
    pub type_id : a.type_id ≡ u
    pub allocated : a.allocated ≡ true

  -- A shared downcast finds the value exactly at its own type, and its guard holds the group lock
  -- through a handle of its own;
  -- at any other type nothing is found and nothing changes.
  pub try_downcast_ref_lem :
      {r : ℕ} (u v : TypeId) (x : V) (a : AnyRefInner L.Lock V)
      → Typed r nobody u x a
      → r + 2 < 2 ^ 64
      → Returns
          (λ o b.
            (o ≡ (if u == v then some x else none))
            × Typed (if u == v then suc r else r) (if u == v then group 0 else nobody) u x b)
          (try_downcast_ref L v a)
  unfolding try_downcast_ref inner locking get_ref
  try_downcast_ref_lem u v x a t room = elim (Bool-cases (u == v)) [
    | inl e ↦
        let (k, took, mine) = L.opens (L.clone t.lock) (L.clone-Is t.lock nobody t.held room) in
        rw (t.allocated, t.type_id, e, t.at, locking, took, t.boxed, get_ref, e)
          (returns (
            refl,
            record {
              lock = k;
              at = refl;
              held = mine;
              boxed = t.boxed;
              type_id = refl;
              allocated = refl;
            },
          ))
    | inr e ↦
        rw (t.allocated, t.type_id, e)
          (returns (
            refl,
            record {
              lock = t.lock;
              at = t.at;
              held = t.held;
              boxed = t.boxed;
              type_id = refl;
              allocated = refl;
            },
          ))
  ]

  -- `fill` with a value of any type, not only the old one, destroys the old value, and the next
  -- `as_ref` at the new type reads the new one; with its guard gone the lock is free again, with as
  -- many handles as before.
  pub fill-as_ref :
      {r : ℕ} (u v : TypeId) (x y : V) (a : AnyRefInner L.Lock V)
      → Typed r nobody u x a
      → r + 2 < 2 ^ 64
      → Returns
          (λ read b.
            (read ≡ y)
            × Typed r nobody v y b
            × (b.destroyed ≡ x ∷ a.destroyed)
            × (b.type_name ≡ a.type_name))
          ((do fill L v y; read ← as_ref L v; drop_ref L; pure read) a)
  unfolding fill set_data set_type_id inner locking drop_data as_ref try_downcast_ref drop_ref
      drop_handle get_ref expect_value
  fill-as_ref u v x y a t room =
      let (k, took, mine) = L.takes t.lock t.held in
      let (l, gave, free) = L.gives k mine in
      let (m, opened, shared) = L.opens (L.clone l) (L.clone-Is l nobody free room) in
      let (n, closed, again) = L.closes m shared in
      let (n', ended, back) = L.drop-Is n nobody again in
      let same : (v == v) ≡ true = ground arith in
      rw
        (
          t.allocated, t.at, took, t.boxed, gave, locking, same, opened, get_ref, same,
          expect_value, closed, drop_handle, ended,
        )
        (returns (
          refl,
          record {
            lock = n';
            at = refl;
            held = back;
            boxed = refl;
            type_id = refl;
            allocated = refl;
          },
          refl,
          refl,
        ))
