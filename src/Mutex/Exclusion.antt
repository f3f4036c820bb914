-- ===== src/Mutex/Exclusion.antt =====
-- What the locks of src/mutex/mutex.rs guarantee while no thread joins a group that is emptying or
-- calls `unlock_all_group`.
use acar.Prelude.{
  ℕ, ◌+◌, ◌<◌, ◌^◌, ◌≡◌, ◌≢◌, refl, false, some, get_elem?, replicate, total, arith,
  total-replicate, le-total, pair-le-total, ◌≤◌, if◌then◌else◌, Bool-cases, inl, inr,
}
use acar.Mutex.{is_locked, is_locked_exclusive, is_locked_group, InnerMutex}
use acar.Mutex.Threads.{Pc, idle, panicked}
use acar.Mutex.System.{System, excl, grp, waits, closing, broken, CalmReach}
use acar.Mutex.Invariant.{Counted, CalmReach-Inv}

Counted-excl :
    {n e g w c b : ℕ} {m : InnerMutex} → Counted n m e g w c b → 0 < e → (e ≡ 1) × (g ≡ 0)
Counted-excl h p = ground arith

-- In runs of fewer than 2 ^ 64 threads in which no thread joins a group that is being emptied and none
-- calls `unlock_all_group`, a thread that holds the exclusive lock is the only holder: no other
-- thread holds it, and none is in the group.
pub exclusive_alone :
    {n : ℕ} {s : System} (i j : ℕ) {p q : Pc}
    → n < 2 ^ 64
    → CalmReach n s
    → i ≢ j
    → get_elem? s.threads i ≡ some p
    → get_elem? s.threads j ≡ some q
    → excl p ≡ 1
    → (excl q ≡ 0) × (grp q ≡ 0)
exclusive_alone {s} i j few r ne p q e =
    let h =
      Counted-excl (CalmReach-Inv few r).counts (omega (arith, le-total excl s.threads i p)) in
    omega (arith, h, pair-le-total excl s.threads i j ne p q, le-total grp s.threads j q)

-- In runs in which no thread joins a group that is being emptied and none calls `unlock_all_group`, of
-- fewer than 2 ^ 64 threads, no thread ever panics: every `unlock_exclusive` and `unlock_group` of a holder finds the state that it
-- asks for.
pub never_panicked :
    {n : ℕ} {s : System} (i : ℕ)
    → n < 2 ^ 64
    → CalmReach n s
    → get_elem? s.threads i ≢ some panicked
never_panicked {s} i few r p =
    let h = (CalmReach-Inv few r).counts in omega (arith, h.sound, le-total broken s.threads i p)

Counted-queries :
    {n e g w c b : ℕ} {m : InnerMutex}
    → Counted n m e g w c b
    → (e ≤ (if is_locked_exclusive m then 1 else 0))
      × (is_locked_group m ≡ false → g ≡ 0)
      × (e + g + w + c ≡ 0 → is_locked m ≡ false)
unfolding is_locked is_locked_group is_locked_exclusive
Counted-queries h = (ground arith, λ p. ground arith, λ p. ground arith)

grp_small : (p : Pc) → grp p ≤ 1
grp_small p = ground arith

-- In runs in which no thread joins a group that is being emptied and none calls `unlock_all_group`, of
-- fewer than 2 ^ 64 threads, `is_locked_exclusive` is true while a thread holds the exclusive lock, and
-- `is_locked_group` while a thread is in the group.
pub holders_seen :
    {n : ℕ} {s : System} (i : ℕ) {p : Pc}
    → n < 2 ^ 64
    → CalmReach n s
    → get_elem? s.threads i ≡ some p
    → (excl p ≤ (if is_locked_exclusive s.shared.mutex then 1 else 0))
      × (grp p ≤ (if is_locked_group s.shared.mutex then 1 else 0))
holders_seen {s} i {p} few r at =
    let (e, g, _) = Counted-queries (CalmReach-Inv few r).counts in
    (
      omega (arith, e, le-total excl s.threads i at),
      elim (Bool-cases (is_locked_group s.shared.mutex)) [
        | inl seen ↦ rw seen (grp_small p)
        | inr unseen ↦ rw unseen (omega (arith, g unseen, le-total grp s.threads i at))
      ],
    )

-- In such runs, as above, `is_locked` is false once every thread is outside all calls and holds nothing.
pub idle_not_locked :
    {n : ℕ} {s : System}
    → n < 2 ^ 64
    → CalmReach n s
    → s.threads ≡ replicate n idle
    → is_locked s.shared.mutex ≡ false
idle_not_locked {n} {s} few r e =
    (Counted-queries (CalmReach-Inv few r).counts).2
      (omega (arith, none_at excl refl, none_at grp refl, none_at waits refl, none_at closing refl))
  where
    none_at : (w : Pc → ℕ) → w idle ≡ 0 → total w s.threads ≡ 0
    none_at w h = rw e (total-replicate w n idle h)
