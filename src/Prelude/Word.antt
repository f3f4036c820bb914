-- ===== src/Prelude/Word.antt =====
-- Machine words as native numbers: `usize` has 64 bits, and the atomic counters wrap.
use Prim.Native.Nat.{ℕ, ◌+◌, ◌-◌, ◌%◌, ◌^◌}

abbrev pub usize_max : ℕ
usize_max = 2 ^ 64 - 1

-- What `fetch_add(1, ..)` stores.
abbrev pub wrapping_inc : ℕ → ℕ
wrapping_inc n = (n + 1) % 2 ^ 64

-- What `fetch_sub(1, ..)` stores.
abbrev pub wrapping_dec : ℕ → ℕ
wrapping_dec n = (n + 2 ^ 64 - 1) % 2 ^ 64
