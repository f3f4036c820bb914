-- ===== src/Backoff.antt =====
-- src/mutex/backoff.rs: exponential backoff. What a call does to the processor is its result, a
-- `Pause`; `hint::spin_loop` and `thread::yield_now` themselves are the platform's.
pub mod Bounds
use acar.Prelude.{ℕ, zero, suc, ◌+◌, ◌^◌, min, Bool, if◌then◌else◌, leb, ltb}

abbrev pub spin_limit : ℕ
spin_limit = 6

abbrev pub yield_limit : ℕ
yield_limit = 10

pub record Backoff : Type 0 where
  pub step : ℕ  -- u32

-- The `spin_loop` hints that a call gives, or a yield to the scheduler.
pub data Pause : Type 0 where
  hints : ℕ → Pause
  yielded : Pause

unfoldable pub new : Backoff
new = record { step = 0 }

unfoldable pub reset : Backoff → Backoff
reset b = record { step = 0 }

unfoldable pub spin : Backoff → Pause × Backoff
spin b = (
  hints (2 ^ min b.step spin_limit),
  if leb b.step spin_limit then record { step = b.step + 1 } else b,
)

unfoldable pub snooze : Backoff → Pause × Backoff
snooze b = (
  if leb b.step spin_limit then hints (2 ^ b.step) else yielded,
  if leb b.step yield_limit then record { step = b.step + 1 } else b,
)

unfoldable pub is_completed : Backoff → Bool
is_completed b = ltb yield_limit b.step

unfoldable pub is_yielding : Backoff → Bool
is_yielding b = ltb spin_limit b.step
