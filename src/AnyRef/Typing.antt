-- ===== src/AnyRef/Typing.antt =====
-- The type of the value of an `AnyRef` (src/any_ref/strong.rs) over many requests.
use acar.Prelude.{
  ℕ, zero, suc, ◌+◌, ◌-◌, ◌<◌, ◌≤◌, ◌^◌, ◌≡◌, refl, ap, true, false, Option, some, ◌==◌, arith,
  Bool-cases, inl, inr,
}
use mathlib.Core.Option.{some-injective}
use acar.Locking.{Locking, Held, nobody, group}
use acar.Outcome.{Returns, returns}
use acar.AnyRef.{
  AnyRefInner, TypeId, inner, locking, get_ref, drop_data, try_downcast_ref, try_downcast_mut,
  drop_ref, drop_mut, drop_handle, fill, set_data, set_type_id,
}
use acar.AnyRef.Downcast.{Typed}
use acar.AnyRef.Requests.{cell, Request, looks, ends, edits, fills, Cell, answer, close_mut, serve}

abbrev pub held : ℕ → Held
held zero = nobody
held (suc n) = group n

module _ (L : Locking) where
  -- The lock of an open guard more.
  one_more :
      (n : ℕ) (l : L.Lock)
      → L.Is n (held n) l
      → n + 2 < 2 ^ 64
      → (k : L.Lock) × (L.lock_group (L.clone l) ≡ some k) × L.Is (suc n) (group n) k
  one_more zero l is room = L.opens (L.clone l) (L.clone-Is l nobody is room)
  one_more (suc n) l is room = L.joins (L.clone l) n (L.clone-Is l (group n) is room) (omega arith)

  one_less :
      (n : ℕ) (l : L.Lock)
      → L.Is (suc n) (group n) l
      → (k : L.Lock) × (L.unlock_group l ≡ some k) × L.Is (suc n) (held n) k
  one_less zero l is = L.closes l is
  one_less (suc n) l is = L.leaves l n is

module _ (L : Locking) {V : Type 0} where
  -- The allocation holds the value at its type, and its lock is held by the open guards.
  abbrev pub Holds : Cell V → AnyRefInner L.Lock V → Type 0
  Holds c a = Typed L c.guards (held c.guards) c.type_of c.value a

  looks_lem :
      (u : TypeId) (c : Cell V) (a : AnyRefInner L.Lock V) (q : Option V × Cell V)
      → Holds c a
      → c.guards + 2 < 2 ^ 64
      → answer (looks u) c ≡ some q
      → Returns (λ o b. (o ≡ q.0) × Holds q.1 b) (serve L (looks u) a)
  unfolding serve answer try_downcast_ref inner locking get_ref
  looks_lem u c a q t room e = elim (Bool-cases (c.type_of == u)) [
    | inl own ↦
        let (k, took, mine) = one_more L c.guards t.lock t.held room in
        let f = rw own at e in
        rw (← some-injective _ _ f) (
          rw (t.allocated, t.type_id, own, t.at, locking, took, t.boxed, get_ref, own)
            (returns (
              refl,
              record {
                lock = k;
                at = refl;
                held = mine;
                boxed = t.boxed;
                type_id = refl;
                allocated = refl;
              },
            )))
    | inr other ↦
        let f = rw other at e in
        rw (← some-injective _ _ f) (
          rw (t.allocated, t.type_id, other)
            (returns (
              refl,
              record {
                lock = t.lock;
                at = t.at;
                held = t.held;
                boxed = t.boxed;
                type_id = refl;
                allocated = refl;
              },
            )))
  ]

  -- The request ends, returns what the specification says and leaves what it says.
  abbrev pub Agrees : Request V → Cell V → Type 0
  Agrees r c =
      (a : AnyRefInner L.Lock V) (q : Option V × Cell V)
      → Holds c a
      → c.guards + 2 < 2 ^ 64
      → answer r c ≡ some q
      → Returns (λ o b. (o ≡ q.0) × Holds q.1 b) (serve L r a)

  ends_lem : (n : ℕ) (v : TypeId) (x : V) → Agrees ends (cell n v x)
  unfolding serve answer drop_ref locking drop_handle
  ends_lem zero v x a q t room e = absurd (ground arith)
  ends_lem (suc n) v x a q t room e =
      let (k, left, fewer) = one_less L n t.lock t.held in
      let (l, ended, rest) = L.drop-Is k (held n) fewer in
      let some_open : (suc n == 0) ≡ false = ground arith in
      let one_closed : suc n - 1 ≡ n = ground arith in
      let f = rw (some_open, one_closed) at e in
      rw (← some-injective _ _ f) (
        rw (t.at, left, locking, drop_handle, ended)
          (returns (
            refl,
            record {
              lock = l;
              at = refl;
              held = rest;
              boxed = t.boxed;
              type_id = t.type_id;
              allocated = t.allocated;
            },
          )))

  edits_own :
      (u : TypeId) (y : V) (n : ℕ) (v : TypeId) (x : V)
      → (v == u) ≡ true
      → Agrees (edits u y) (cell n v x)
  unfolding serve answer try_downcast_mut close_mut drop_mut set_data inner locking get_ref
      drop_handle
  edits_own u y zero v x own a q t room e =
      let (k, took, mine) = L.takes (L.clone t.lock) (L.clone-Is t.lock nobody t.held room) in
      let (l, gave, free) = L.gives k mine in
      let (m, ended, back) = L.drop-Is l nobody free in
      let same : u ≡ v = ground arith in
      let f = rw own at e in
      rw (← some-injective _ _ f) (
        rw
          (
            t.allocated, t.type_id, own, t.at, locking, took, t.boxed, get_ref, own, close_mut,
            gave, drop_handle, ended,
          )
          (returns (
            refl,
            record {
              lock = m;
              at = refl;
              held = back;
              boxed = ap (λ w. some (w, y)) same;
              type_id = refl;
              allocated = refl;
            },
          )))
  edits_own u y (suc n) v x own a q t room e = absurd (ground (arith, e, own))

  edits_lem : (u : TypeId) (y : V) (n : ℕ) (v : TypeId) (x : V) → Agrees (edits u y) (cell n v x)
  unfolding serve answer try_downcast_mut close_mut inner
  edits_lem u y n v x a q t room e = elim (Bool-cases (v == u)) [
    | inl own ↦ edits_own u y n v x own a q t room e
    | inr other ↦
        let f = rw other at e in
        rw (← some-injective _ _ f) (
          rw (t.allocated, t.type_id, other, close_mut)
            (returns (
              refl,
              record {
                lock = t.lock;
                at = t.at;
                held = t.held;
                boxed = t.boxed;
                type_id = refl;
                allocated = refl;
              },
            )))
  ]

  fills_lem : (u : TypeId) (y : V) (n : ℕ) (v : TypeId) (x : V) → Agrees (fills u y) (cell n v x)
  unfolding serve answer fill set_data set_type_id inner locking drop_data
  fills_lem u y zero v x a q t room e =
      let (k, took, mine) = L.takes t.lock t.held in
      let (l, gave, free) = L.gives k mine in
      rw (← some-injective _ _ e) (
        rw (t.allocated, t.at, took, t.boxed, gave, locking)
          (returns (
            refl,
            record {
              lock = l;
              at = refl;
              held = free;
              boxed = refl;
              type_id = refl;
              allocated = refl;
            },
          )))
  fills_lem u y (suc n) v x a q t room e = absurd (ground arith)

  pub serve_lem : (r : Request V) (c : Cell V) → Agrees r c
  serve_lem (looks u) c a q t room e = looks_lem u c a q t room e
  serve_lem ends c a q t room e = ends_lem c.guards c.type_of c.value a q t room e
  serve_lem (edits u y) c a q t room e = edits_lem u y c.guards c.type_of c.value a q t room e
  serve_lem (fills u y) c a q t room e = fills_lem u y c.guards c.type_of c.value a q t room e

  -- A request opens one guard at most.
  pub guards_mono :
      (r : Request V) (c : Cell V) (q : Option V × Cell V)
      → answer r c ≡ some q
      → q.1.guards ≤ c.guards + 1
  unfolding answer
  guards_mono (looks u) c q e = ground arith
  guards_mono ends c q e = ground arith
  guards_mono (edits u y) c q e = ground arith
  guards_mono (fills u y) c q e = ground arith
