-- ===== src/Examples/Backoffs.antt =====
-- Runs of src/mutex/backoff.rs at concrete inputs.
use acar.Prelude.{◌+◌, ◌≡◌, true, false}
use acar.Backoff.{new, reset, is_completed, is_yielding}
use acar.Backoff.Bounds.{snoozes, spins, snooze_hints, calls-advice}

calls-advice_example :
    (is_completed (snoozes 11 (reset new)) ≡ true)
    × (snooze_hints 11 (reset new) + 1 ≡ 128)
    × (is_yielding (spins 11 (reset new)) ≡ true)
    × (is_completed (spins 11 (reset new)) ≡ false)
calls-advice_example = calls-advice 11 new
