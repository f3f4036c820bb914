-- ===== src/AnyRef/Counts.antt =====
-- The counts of src/any_ref are those of src/arw: what the calls on handles do to an allocation of
-- the one, seen as an allocation of the other.
use acar.Prelude.{
  ℕ, ◌-◌, ◌<◌, ◌≡◌, ◌≢◌, refl, ◌∙◌, ap, ◌&&◌, Bool, true, false, Option, none, some, List, [], ◌∷◌,
  ◌==◌, ltb, leb, arith, Bool-cases, Option-cases, inl, inr, usize_max,
}
use mathlib.Core.Path.{subst}
use mathlib.Core.Option.{some-injective}
use acar.Locking.{Locking}
use acar.Outcome.{
  Run, ok, panics, aborts, fault, waits, pure, and_then, ◌>>◌, Returns, returns, bind,
}
use acar.Arw
use acar.Arw.{ArwInner}
use acar.Arw.Counts.{
  Op, clones, drops, downgrades, upgrades, clones_weak, drops_weak, after, handles, Counts, perform,
  perform-Counts, drop-Counts, allowed,
}
use acar.AnyRef
use acar.AnyRef.{AnyRefInner, TypeId, Call, max_refcount}

-- The value of the box, without its type.
abbrev pub unboxed : {V : Type 0} → Option (TypeId × V) → Option V
unboxed none = none
unboxed (some (u, x)) = some x

abbrev pub untyped : {Lock V : Type 0} → AnyRefInner Lock V → ArwInner Lock V
untyped a = record {
  lock = a.lock;
  strong = a.strong;
  weak = a.weak;
  val = unboxed a.boxed;
  allocated = a.allocated;
  destroyed = a.destroyed;
}

abbrev pub untyped_run : {Lock V B : Type 0} → Run (AnyRefInner Lock V) B → Run (ArwInner Lock V) B
untyped_run (ok b a) = ok b (untyped a)
untyped_run panics = panics
untyped_run aborts = aborts
untyped_run fault = fault
untyped_run waits = waits

abbrev pub is_clone : Op → Bool
is_clone clones = true
is_clone downgrades = false
is_clone drops = false
is_clone upgrades = false
is_clone clones_weak = false
is_clone drops_weak = false

module _ (L : Locking) {V : Type 0} where
  pub perform_any : Op → Call L V (Unit {0})
  perform_any clones = AnyRef.clone L
  perform_any drops = AnyRef.drop L
  perform_any downgrades = AnyRef.downgrade L
  perform_any upgrades = AnyRef.upgrade L >> pure tt
  perform_any clones_weak = AnyRef.clone_weak L
  perform_any drops_weak = AnyRef.drop_weak L

  drop_weak-untyped :
      (a : AnyRefInner L.Lock V) → untyped_run (AnyRef.drop_weak L a) ≡ Arw.drop_weak L (untyped a)
  unfolding AnyRef.drop_weak AnyRef.inner AnyRef.set_weak AnyRef.dealloc Arw.drop_weak Arw.inner
      Arw.set_weak Arw.dealloc
  drop_weak-untyped a = elim (Bool-cases a.allocated) [
    | inl e ↦ elim (Bool-cases (a.weak == 1)) [ inl l ↦ rw (e, l) refl | inr l ↦ rw (e, l) refl ]
    | inr e ↦ rw e refl
  ]

  clone-untyped :
      (a : AnyRefInner L.Lock V)
      → a.strong ≢ max_refcount
      → untyped_run (AnyRef.clone L a) ≡ Arw.clone L (untyped a)
  unfolding AnyRef.clone AnyRef.inner AnyRef.set_strong Arw.clone Arw.inner Arw.set_strong
  clone-untyped a ne = elim (Bool-cases a.allocated) [
    | inl e ↦ elim (Bool-cases (leb max_refcount a.strong)) [
      | inl l ↦ let m : ltb max_refcount a.strong ≡ true = ground arith in rw (e, l, m) refl
      | inr l ↦ let m : ltb max_refcount a.strong ≡ false = ground arith in rw (e, l, m) refl
    ]
    | inr e ↦ rw e refl
  ]

  clone_weak-untyped :
      (a : AnyRefInner L.Lock V)
      → untyped_run (AnyRef.clone_weak L a) ≡ Arw.clone_weak L (untyped a)
  unfolding AnyRef.clone_weak AnyRef.inner AnyRef.set_weak Arw.clone_weak Arw.inner Arw.set_weak
  clone_weak-untyped a = elim (Bool-cases a.allocated) [
    | inl e ↦ elim (Bool-cases (ltb max_refcount a.weak)) [
      | inl l ↦ rw (e, l) refl
      | inr l ↦ rw (e, l) refl
    ]
    | inr e ↦ rw e refl
  ]

  downgrade-untyped :
      (a : AnyRefInner L.Lock V) → untyped_run (AnyRef.downgrade L a) ≡ Arw.downgrade L (untyped a)
  unfolding AnyRef.downgrade AnyRef.inner AnyRef.set_weak Arw.downgrade Arw.inner Arw.set_weak
  downgrade-untyped a = elim (Bool-cases a.allocated) [
    | inl e ↦ elim (Bool-cases (a.weak == usize_max)) [
      | inl l ↦ rw (e, l) refl
      | inr l ↦ elim (Bool-cases (leb a.weak max_refcount)) [
        | inl m ↦ rw (e, l, m) refl
        | inr m ↦ rw (e, l, m) refl
      ]
    ]
    | inr e ↦ rw e refl
  ]

  upgrade-untyped :
      (a : AnyRefInner L.Lock V) → untyped_run (AnyRef.upgrade L a) ≡ Arw.upgrade L (untyped a)
  unfolding AnyRef.upgrade AnyRef.inner AnyRef.set_strong Arw.upgrade Arw.inner Arw.set_strong
  upgrade-untyped a = elim (Bool-cases a.allocated) [
    | inl e ↦ elim (Bool-cases (a.strong == 0)) [
      | inl l ↦ rw (e, l) refl
      | inr l ↦ elim (Bool-cases (leb a.strong max_refcount)) [
        | inl m ↦ rw (e, l, m) refl
        | inr m ↦ rw (e, l, m) refl
      ]
    ]
    | inr e ↦ rw e refl
  ]

  drop-untyped : (a : AnyRefInner L.Lock V) → untyped_run (AnyRef.drop L a) ≡ Arw.drop L (untyped a)
  unfolding AnyRef.drop AnyRef.inner AnyRef.set_strong AnyRef.drop_lock AnyRef.drop_data Arw.drop
      Arw.inner Arw.set_strong Arw.drop_lock Arw.drop_val
  drop-untyped a = elim (Bool-cases a.allocated) [
    | inl e ↦ elim (Bool-cases (a.strong == 1)) [
      | inl l ↦ elim (Option-cases a.lock) [
        | inl none_there ↦ rw (e, l, none_there) refl
        | inr (k, there) ↦ elim (Option-cases a.boxed) [
          | inl m ↦ rw (e, l, there, m) refl
          | inr ((u, x), m) ↦ rw (e, l, there, m) (drop_weak-untyped _)
        ]
      ]
      | inr l ↦ rw (e, l) refl
    ]
    | inr e ↦ rw e refl
  ]

  and_then-untyped :
      {B C : Type 0} (r : Run (AnyRefInner L.Lock V) B) (c : C)
      → untyped_run (and_then r (λ _. pure c)) ≡ and_then (untyped_run r) (λ _. pure c)
  and_then-untyped (ok b s) c = refl
  and_then-untyped panics c = refl
  and_then-untyped aborts c = refl
  and_then-untyped fault c = refl
  and_then-untyped waits c = refl

  -- The calls `clone`, `drop`, `downgrade` and `upgrade` of strong and weak handles of an `AnyRef` do to
  -- the allocation what those of an `Arw` do, and end as they end, and `upgrade` answers as it does
  -- there; only a clone at exactly `max_refcount` strong handles, which aborts for an `Arw`, does not.
  pub perform_any-untyped :
      (o : Op) (a : AnyRefInner L.Lock V)
      → (is_clone o && (a.strong == max_refcount)) ≡ false
      → (untyped_run (perform_any o a) ≡ perform L o (untyped a))
        × (untyped_run (AnyRef.upgrade L a) ≡ Arw.upgrade L (untyped a))
  unfolding perform perform_any AnyRef.clone
  perform_any-untyped clones a ne = (clone-untyped a (ground arith), upgrade-untyped a)
  perform_any-untyped drops a ne = (drop-untyped a, upgrade-untyped a)
  perform_any-untyped downgrades a ne = (downgrade-untyped a, upgrade-untyped a)
  perform_any-untyped upgrades a ne = (
    and_then-untyped (AnyRef.upgrade L a) tt
        ∙ ap (λ r. and_then r (λ _. pure tt)) (upgrade-untyped a),
    upgrade-untyped a,
  )
  perform_any-untyped clones_weak a ne = (clone_weak-untyped a, upgrade-untyped a)
  perform_any-untyped drops_weak a ne = (drop_weak-untyped a, upgrade-untyped a)

  Returns-untyped :
      {B : Type 0} {P : B → ArwInner L.Lock V → Type 0} (r : Run (AnyRefInner L.Lock V) B)
      → Returns P (untyped_run r)
      → Returns (λ b s. P b (untyped s)) r
  Returns-untyped (ok b s) (returns p) = returns p
  Returns-untyped panics p = elim p [ ]
  Returns-untyped aborts p = elim p [ ]
  Returns-untyped fault p = elim p [ ]
  Returns-untyped waits p = elim p [ ]

  pub run_any : List Op → Call L V (Unit {0})
  run_any [] = pure tt
  run_any (o ∷ os) = do perform_any o; run_any os

  few_strong :
      (o : Op) {x : V} {a : ArwInner L.Lock V} {s w : ℕ} (q : ℕ × ℕ)
      → Counts x a s w
      → after o (s, w) ≡ some q
      → (is_clone o && (a.strong == max_refcount)) ≡ false
  few_strong clones q c e = let (t, same) = allowed _ _ q e in ground (arith, c.strong)
  few_strong drops q c e = refl
  few_strong downgrades q c e = refl
  few_strong upgrades q c e = refl
  few_strong clones_weak q c e = refl
  few_strong drops_weak q c e = refl

  run_any-Counts :
      (os : List Op) {x : V} (a : AnyRefInner L.Lock V) {s w : ℕ} (q : ℕ × ℕ)
      → Counts x (untyped a) s w
      → handles os (s, w) ≡ some q
      → Returns (λ _ b. Counts x (untyped b) q.0 q.1) (run_any os a)
  unfolding run_any handles
  run_any-Counts [] {x} a q c e =
      returns (subst (λ k. Counts x (untyped a) k.0 k.1) (some-injective _ _ e) c)
  run_any-Counts (o ∷ os) {x} a {s} {w} q c e = elim (Option-cases (after o (s, w))) [
    | inl none_left ↦ absurd (let f = rw (none_left, handles) at e in cc)
    | inr (k, left) ↦
        let same = (perform_any-untyped o a (few_strong o k c left)).0 in
        bind
          (Returns-untyped {P = λ _ b. Counts x b k.0 k.1} (perform_any o a)
            (rw same (perform-Counts L o k c left)))
          λ _ b d. run_any-Counts os b q d (rw (left, handles) at e)
  ]

  -- However strong and weak handles of a new allocation for a value of any type are cloned,
  -- downgraded, upgraded and dropped, no call panics, aborts or touches freed memory, the counts are
  -- those of the handles, the value is destroyed exactly once, when the last strong handle is
  -- dropped, and the memory is given back exactly when no handle is left.
  pub destroyed_once_any :
      (os : List Op) (u : TypeId) (x : V) (s w : ℕ)
      → handles os (1, 0) ≡ some (s, w)
      → Returns (λ _ b. Counts x (untyped b) s w) (run_any os (AnyRef.new L u x))
  destroyed_once_any os u x s w e = run_any-Counts os (AnyRef.new L u x) (s, w) (ground arith) e

  pub drop_any-Counts :
      {x : V} (a : AnyRefInner L.Lock V) {s w : ℕ}
      → Counts x (untyped a) s w
      → 0 < s
      → Returns (λ _ b. Counts x (untyped b) (s - 1) w) (AnyRef.drop L a)
  drop_any-Counts {x} a {s} {w} c p =
      Returns-untyped {P = λ _ b. Counts x b (s - 1) w} (AnyRef.drop L a)
        (rw (drop-untyped a) (drop-Counts L c p))
