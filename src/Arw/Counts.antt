-- ===== src/Arw/Counts.antt =====
-- The two counts of src/arw, whatever the handles do: when the value is destroyed, and when the
-- memory is given back.
use acar.Prelude.{
  ℕ, ◌+◌, ◌-◌, ◌<◌, ◌≤◌, ◌≡◌, refl, Bool, true, false, ◌&&◌, Option, none, some, List, [], ◌∷◌,
  ◌==◌, ltb, leb, if◌then◌else◌, is_some, arith, usize_max, Bool-cases, Option-cases, inl, inr,
}
use mathlib.Core.Path.{subst}
use mathlib.Core.Option.{some-injective}
use acar.Locking.{Locking}
use acar.Outcome.{pure, ◌>>◌, Returns, returns, bind}
use acar.Arw.{
  ArwInner, max_refcount, Call, new, inner, set_strong, set_weak, drop_lock, drop_val, dealloc,
  clone, drop, drop_weak, downgrade, upgrade, clone_weak,
}

-- What the holders of handles do.
pub data Op : Type 0 where
  clones drops downgrades upgrades clones_weak drops_weak : Op

-- The strong and weak handles that are left; `none` where there is no handle to do it with, or the
-- count would pass `max_refcount`.
abbrev pub after : Op → ℕ × ℕ → Option (ℕ × ℕ)
after clones (s, w) = if ltb 0 s && ltb s max_refcount then some (s + 1, w) else none
after drops (s, w) = if ltb 0 s then some (s - 1, w) else none
after downgrades (s, w) = if ltb 0 s && ltb w max_refcount then some (s, w + 1) else none
after upgrades (s, w) =
    if ltb 0 w && ltb s max_refcount then some (if s == 0 then 0 else s + 1, w) else none
after clones_weak (s, w) = if ltb 0 w && ltb w max_refcount then some (s, w + 1) else none
after drops_weak (s, w) = if ltb 0 w then some (s, w - 1) else none

-- What the allocation made for the value `x` holds with `s` strong and `w` weak handles.
pub record Counts {ℓ} {Lock : Type 0} {T : Type ℓ} (x : T) (a : ArwInner Lock T) (s w : ℕ)
    : Type ℓ where
  pub strong : a.strong ≡ s
  pub weak : a.weak ≡ w + (if s == 0 then 0 else 1)
  pub lock : is_some a.lock ≡ ltb 0 s
  pub val : a.val ≡ (if s == 0 then none else some x)
  pub destroyed : a.destroyed ≡ (if s == 0 then x ∷ [] else [])
  pub allocated : a.allocated ≡ ltb 0 (s + w)
  pub few : (s ≤ max_refcount) × (w ≤ max_refcount)

module _ (L : Locking) {T : Type 0} where
  unfoldable pub perform : Op → Call L T (Unit {0})
  perform clones = clone L
  perform drops = drop L
  perform downgrades = downgrade L
  perform upgrades = upgrade L >> pure tt
  perform clones_weak = clone_weak L
  perform drops_weak = drop_weak L

  module _ {x : T} {a : ArwInner L.Lock T} {s w : ℕ} (c : Counts x a s w) where
    -- While a handle is left, the memory is there.
    here : 0 < s + w → a.allocated ≡ true
    here p = ground (arith, c.allocated)

    clone-Counts : 0 < s → s < max_refcount → Returns (λ _ b. Counts x b (s + 1) w) (clone L a)
    unfolding clone inner set_strong
    clone-Counts p q =
        let room : leb max_refcount a.strong ≡ false = ground (arith, c.strong) in
        rw (here (omega arith), room) (returns (ground arith))

    clone_weak-Counts :
        0 < w → w < max_refcount → Returns (λ _ b. Counts x b s (w + 1)) (clone_weak L a)
    unfolding clone_weak inner set_weak
    clone_weak-Counts p q =
        let room : ltb max_refcount a.weak ≡ false = ground (arith, c.weak) in
        rw (here (omega arith), room) (returns (ground arith))

    downgrade-Counts :
        0 < s → w < max_refcount → Returns (λ _ b. Counts x b s (w + 1)) (downgrade L a)
    unfolding downgrade inner set_weak
    downgrade-Counts p q =
        let free : (a.weak == usize_max) ≡ false = ground (arith, c.weak) in
        let room : leb a.weak max_refcount ≡ true = ground (arith, c.weak) in
        rw (here (omega arith), free, room) (returns (ground arith))

    upgrade-Counts :
        0 < w
        → s < max_refcount
        → Returns (λ o b. (o ≡ ltb 0 s) × Counts x b (if s == 0 then 0 else s + 1) w) (upgrade L a)
    unfolding upgrade inner set_strong
    upgrade-Counts p q = elim (Bool-cases (a.strong == 0)) [
      | inl gone ↦ rw (here (omega arith), gone) (returns (ground (arith, c.strong)))
      | inr live ↦
          let room : leb a.strong max_refcount ≡ true = ground (arith, c.strong) in
          rw (here (omega arith), live, room) (returns (ground (arith, c.strong)))
    ]

    drop_weak-Counts : 0 < w → Returns (λ _ b. Counts x b s (w - 1)) (drop_weak L a)
    unfolding drop_weak inner set_weak dealloc
    drop_weak-Counts p = elim (Bool-cases (a.weak == 1)) [
      | inl last ↦ rw (here (omega arith), last) (returns (ground (arith, c.weak)))
      | inr more ↦ rw (here (omega arith), more) (returns (ground (arith, c.weak)))
    ]

    pub drop-Counts : 0 < s → Returns (λ _ b. Counts x b (s - 1) w) (drop L a)
    unfolding drop drop_weak drop_lock drop_val inner set_strong set_weak dealloc
    drop-Counts p = elim (Bool-cases (a.strong == 1)) [
      | inr more ↦ rw (here (omega arith), more) (returns (ground (arith, c.strong)))
      | inl last ↦ elim (Option-cases a.lock) [
        | inl e ↦ absurd (ground (arith, c.lock))
        | inr (l, e) ↦
            let there : a.val ≡ some x = ground (arith, c.strong, c.val) in
            elim (Bool-cases (a.weak == 1)) [
              | inl alone ↦
                  rw (here (omega arith), last, e, there, alone)
                    (returns (ground (arith, c.strong, c.weak)))
              | inr watched ↦
                  rw (here (omega arith), last, e, there, watched)
                    (returns (ground (arith, c.strong, c.weak)))
            ]
      ]
    ]

-- The handles after a sequence of such acts, and the acts themselves.
unfoldable pub handles : List Op → ℕ × ℕ → Option (ℕ × ℕ)
handles [] h = some h
handles (o ∷ os) h = elim (after o h) [ none ↦ none | some k ↦ handles os k ]

pub allowed :
    (b : Bool) (p q : ℕ × ℕ) → (if b then some p else none) ≡ some q → (b ≡ true) × (p ≡ q)
allowed true p q e = (refl, some-injective _ _ e)
allowed false p q e = cc

module _ (L : Locking) {T : Type 0} where
  pub run : List Op → Call L T (Unit {0})
  run [] = pure tt
  run (o ∷ os) = do perform L o; run os

  pub perform-Counts :
      (o : Op) {x : T} {a : ArwInner L.Lock T} {s w : ℕ} (q : ℕ × ℕ)
      → Counts x a s w
      → after o (s, w) ≡ some q
      → Returns (λ _ b. Counts x b q.0 q.1) (perform L o a)
  unfolding perform
  perform-Counts clones {x} {a} q c e =
      let (t, same) = allowed _ _ q e in
      subst (λ k. Returns (λ _ b. Counts x b k.0 k.1) (clone L a)) same
        (clone-Counts L c (ground arith) (ground arith))
  perform-Counts drops {x} {a} q c e =
      let (t, same) = allowed _ _ q e in
      subst (λ k. Returns (λ _ b. Counts x b k.0 k.1) (drop L a)) same
        (drop-Counts L c (ground arith))
  perform-Counts downgrades {x} {a} q c e =
      let (t, same) = allowed _ _ q e in
      subst (λ k. Returns (λ _ b. Counts x b k.0 k.1) (downgrade L a)) same
        (downgrade-Counts L c (ground arith) (ground arith))
  perform-Counts clones_weak {x} {a} q c e =
      let (t, same) = allowed _ _ q e in
      subst (λ k. Returns (λ _ b. Counts x b k.0 k.1) (clone_weak L a)) same
        (clone_weak-Counts L c (ground arith) (ground arith))
  perform-Counts drops_weak {x} {a} q c e =
      let (t, same) = allowed _ _ q e in
      subst (λ k. Returns (λ _ b. Counts x b k.0 k.1) (drop_weak L a)) same
        (drop_weak-Counts L c (ground arith))
  perform-Counts upgrades {x} {a} q c e =
      let (t, same) = allowed _ _ q e in
      bind (upgrade-Counts L c (ground arith) (ground arith))
        λ _ b (_, k). returns (subst (λ h. Counts x b h.0 h.1) same k)

  run-Counts :
      (os : List Op) {x : T} {a : ArwInner L.Lock T} {s w : ℕ} (q : ℕ × ℕ)
      → Counts x a s w
      → handles os (s, w) ≡ some q
      → Returns (λ _ b. Counts x b q.0 q.1) (run os a)
  unfolding run handles
  run-Counts [] {x} {a} q c e = returns (subst (λ k. Counts x a k.0 k.1) (some-injective _ _ e) c)
  run-Counts (o ∷ os) {s} {w} q c e = elim (Option-cases (after o (s, w))) [
    | inl none_left ↦ absurd (let f = rw (none_left, handles) at e in cc)
    | inr (k, left) ↦
        bind (perform-Counts o k c left) λ _ b d. run-Counts os q d (rw (left, handles) at e)
  ]

  -- However strong and weak handles of a new allocation are cloned, downgraded, upgraded and dropped,
  -- no call panics, aborts or touches freed memory, the counts are those of the handles, the value is
  -- destroyed exactly once, when the last strong handle is dropped, and the memory is given back
  -- exactly when no handle is left.
  pub destroyed_once :
      (os : List Op) (x : T) (s w : ℕ)
      → handles os (1, 0) ≡ some (s, w)
      → Returns (λ _ b. Counts x b s w) (run os (new L x))
  destroyed_once os x s w e = run-Counts os (s, w) (ground arith) e
