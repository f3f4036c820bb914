-- ===== src/AnyRef/Sequences.antt =====
-- Whole sequences of requests to an `AnyRef` (src/any_ref/strong.rs), and the requests that wait.
use acar.Prelude.{
  ℕ, suc, ◌+◌, ◌<◌, ◌^◌, ◌≡◌, refl, Option, none, some, List, [], ◌∷◌, ◌==◌, length, arith,
  Bool-cases, Option-cases, inl, inr,
}
use mathlib.Core.Option.{some-injective}
use acar.Locking.{Locking, group}
use acar.Outcome.{waits, Returns, returns, bind}
use acar.AnyRef.{AnyRefInner, TypeId, new, inner, locking, try_downcast_mut, fill}
use acar.AnyRef.Requests.{
  cell, Request, looks, ends, edits, fills, Cell, answer, answers, follow, prepend, serve,
  serve_all,
}
use acar.AnyRef.Typing.{Holds, serve_lem, guards_mono}

module _ (L : Locking) {V : Type 0} where
  serve_all_lem :
      (rs : List (Request V)) (c : Cell V) (a : AnyRefInner L.Lock V) (q : List (Option V) × Cell V)
      → Holds L c a
      → c.guards + length rs + 2 < 2 ^ 64
      → answers rs c ≡ some q
      → Returns (λ os b. (os ≡ q.0) × Holds L q.1 b) (serve_all L rs a)
  unfolding serve_all answers follow prepend
  serve_all_lem [] c a q t room e = rw (← some-injective _ _ e) (returns (refl, t))
  serve_all_lem (r ∷ rs) c a q t room e = elim (Option-cases (answer r c)) [
    | inl stuck ↦ absurd (let f = rw (stuck, follow) at e in cc)
    | inr ((o, d), step) ↦ elim (Option-cases (answers rs d)) [
      | inl stuck ↦ absurd (let f = rw (step, follow, stuck, prepend) at e in cc)
      | inr ((os, end), rest) ↦
          let f = rw (step, follow, rest, prepend) at e in
          rw (← some-injective _ _ f) (
            bind (serve_lem L r c a (o, d) t (omega arith) step) λ _ b (same, u).
              bind
                (serve_all_lem rs d b (os, end) u (omega (arith, guards_mono L r c (o, d) step))
                  rest)
                λ _ b' (same', w). rw (same, same') (returns (refl, w)))
    ]
  ]

  -- However downcasts, writes through a guard and calls of `fill` follow each other, from a new
  -- allocation of a value of any type and with the guards of shared downcasts left open, as long as
  -- none asks for the value alone while a guard is open and only open guards are closed: each call
  -- returns, and a downcast finds
  -- the latest value exactly at the type that it was stored with, which is then the one that
  -- `type_id` names.
  pub serve_all-answers :
      (rs : List (Request V)) (u : TypeId) (x : V) (q : List (Option V) × Cell V)
      → length rs + 2 < 2 ^ 64
      → answers rs (cell 0 u x) ≡ some q
      → Returns (λ os b. (os ≡ q.0) × Holds L q.1 b) (serve_all L rs (new L u x))
  serve_all-answers rs u x q room e =
      serve_all_lem rs (cell 0 u x) (new L u x) q
        (record {
          lock = L.fresh;
          at = refl;
          held = L.fresh_Is;
          boxed = refl;
          type_id = refl;
          allocated = refl;
        })
        (omega arith) e

  edits_wait :
      (u : TypeId) (y : V) (n : ℕ) (v : TypeId) (x : V) (a : AnyRefInner L.Lock V)
      → Holds L (cell (suc n) v x) a
      → n + 3 < 2 ^ 64
      → answer (edits u y) (cell (suc n) v x) ≡ none
      → serve L (edits u y) a ≡ waits
  unfolding serve answer try_downcast_mut inner locking
  edits_wait u y n v x a t room e = elim (Bool-cases (v == u)) [
    | inl own ↦
        let refused =
          L.refuses_exclusive (L.clone t.lock) n
            (L.clone-Is t.lock (group n) t.held (omega arith)) in
        rw (t.allocated, t.type_id, own, t.at, locking, refused) refl
    | inr other ↦ absurd (ground (arith, e, other))
  ]

  fills_wait :
      (u : TypeId) (y : V) (n : ℕ) (v : TypeId) (x : V) (a : AnyRefInner L.Lock V)
      → Holds L (cell (suc n) v x) a
      → serve L (fills u y) a ≡ waits
  unfolding serve fill inner locking
  fills_wait u y n v x a t = rw (t.allocated, t.at, L.refuses_exclusive t.lock n t.held) refl

  -- With a shared guard open, a request that the specification has no answer to, that is `fill` or
  -- an exclusive downcast at the type of the value, waits without end.
  pub serve-waits :
      (r : Request V) (n : ℕ) (v : TypeId) (x : V) (a : AnyRefInner L.Lock V)
      → Holds L (cell (suc n) v x) a
      → n + 3 < 2 ^ 64
      → answer r (cell (suc n) v x) ≡ none
      → serve L r a ≡ waits
  unfolding answer
  serve-waits (looks u) n v x a t room e = absurd (ground arith)
  serve-waits ends n v x a t room e = absurd (ground arith)
  serve-waits (edits u y) n v x a t room e = edits_wait u y n v x a t room e
  serve-waits (fills u y) n v x a t room e = fills_wait u y n v x a t
