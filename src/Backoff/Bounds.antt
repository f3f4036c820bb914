-- ===== src/Backoff/Bounds.antt =====
-- How many calls of src/mutex/backoff.rs it takes to yield and to complete.
use native.Mathlib.Decide.{dec_le}
use native.Mathlib.Nat.{add-zero, pow-suc}
use native.Mathlib.Numerals.{towards_suc}
use acar.Prelude.{ℕ, zero, suc, ◌+◌, ◌^◌, ◌≤◌, min, ◌≡◌, false, arith, leb}
use acar.Backoff.{Backoff, Pause, hints, yielded, reset, spin, snooze, is_completed, is_yielding}

-- One round of `n` snoozes, and the hints that it gives in all.
pub snoozes : ℕ → Backoff → Backoff
snoozes zero b = b
snoozes (suc n) b = snoozes n (snooze b).1

pub spins : ℕ → Backoff → Backoff
spins zero b = b
spins (suc n) b = spins n (spin b).1

hint_count : Pause → ℕ
hint_count (hints n) = n
hint_count yielded = 0

pub snooze_hints : ℕ → Backoff → ℕ
unfolding hint_count
snooze_hints zero b = 0
snooze_hints (suc n) b = hint_count (snooze b).0 + snooze_hints n (snooze b).1

snoozes-step : (n : ℕ) (b : Backoff) → b.step ≤ 11 → (snoozes n b).step ≡ min (b.step + n) 11
unfolding snoozes snooze
snoozes-step zero b h = omega arith
snoozes-step (suc n) b h = ground (arith, snoozes-step n (snooze b).1)

spins-step : (n : ℕ) (b : Backoff) → b.step ≤ 7 → (spins n b).step ≡ min (b.step + n) 7
unfolding spins spin
spins-step zero b h = omega arith
spins-step (suc n) b h = ground (arith, spins-step n (spin b).1)

snoozes-is_completed : (n : ℕ) (b : Backoff) → is_completed (snoozes n (reset b)) ≡ leb 11 n
unfolding is_completed reset
snoozes-is_completed n b = ground (arith, snoozes-step n (record { step = 0 }))

spins-is_yielding :
    (n : ℕ) (b : Backoff)
    → (is_yielding (spins n (reset b)) ≡ leb 7 n) × (is_completed (spins n (reset b)) ≡ false)
unfolding is_yielding is_completed reset
spins-is_yielding n b = ground (arith, spins-step n (record { step = 0 }))

double-pow : (n : ℕ) → 2 ^ n + 2 ^ n ≡ 2 ^ (n + 1)
double-pow n = simp (towards_suc, pow-suc) (omega arith)

-- Below the limit each call doubles the hints; above it the call yields.
snooze-hints : (b : Backoff) → hint_count (snooze b).0 + 2 ^ min b.step 7 ≡ 2 ^ min (b.step + 1) 7
unfolding snooze hint_count
snooze-hints b = elim (dec_le b.step 6) [
  | yes h ↦
      let e : min b.step 7 ≡ b.step = omega arith in
      let e' : min (b.step + 1) 7 ≡ b.step + 1 = omega arith in
      rw (e, e') (ground (arith, double-pow b.step))
  | no h ↦
      let e : min b.step 7 ≡ 7 = omega arith in
      let e' : min (b.step + 1) 7 ≡ 7 = omega arith in rw (e, e') (ground arith)
]

snooze-step : (b : Backoff) → b.step ≤ 11 → (snooze b).1.step ≡ min (b.step + 1) 11
unfolding snooze
snooze-step b h = ground arith

snooze_hints-step :
    (n : ℕ) (b : Backoff)
    → b.step ≤ 11
    → snooze_hints n b + 2 ^ min b.step 7 ≡ 2 ^ min (b.step + n) 7
unfolding snooze_hints
snooze_hints-step zero b h = rw add-zero (omega arith)
snooze_hints-step (suc n) b h =
    let next = snooze-step b h in
    let e : min (snooze b).1.step 7 ≡ min (b.step + 1) 7 = omega arith in
    let e' : min ((snooze b).1.step + n) 7 ≡ min (b.step + suc n) 7 = omega arith in
    let rest = snooze_hints-step n (snooze b).1 (omega arith) in
    omega (arith, snooze-hints b, rw (e, e') at rest)

snooze_hints_total : (n : ℕ) (b : Backoff) → snooze_hints n (reset b) + 1 ≡ 2 ^ min n 7
unfolding reset
snooze_hints_total n b =
    let e : min (0 + n) 7 ≡ min n 7 = omega arith in
    rw e at (snooze_hints-step n (record { step = 0 }) (omega arith))

-- From a new or reset backoff. Snoozing: blocking is advised after exactly eleven calls and ever
-- after, and the hints of `n` calls add up to `2 ^ min n 7 - 1`, as each costs twice the one before
-- until calls yield to the scheduler instead. Spinning: the yielding threshold is reached after
-- exactly seven calls, and blocking is never advised.
pub calls-advice :
    (n : ℕ) (b : Backoff)
    → (is_completed (snoozes n (reset b)) ≡ leb 11 n)
      × (snooze_hints n (reset b) + 1 ≡ 2 ^ min n 7)
      × (is_yielding (spins n (reset b)) ≡ leb 7 n)
      × (is_completed (spins n (reset b)) ≡ false)
calls-advice n b = (
  snoozes-is_completed n b,
  snooze_hints_total n b,
  (spins-is_yielding n b).0,
  (spins-is_yielding n b).1,
)
