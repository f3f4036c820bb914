-- ===== src/Mutex/Invariant.antt =====
-- The invariant of src/mutex/mutex.rs in calm runs: what the shared words say of the threads.
use acar.Prelude.{
  ℕ, ◌+◌, ◌-◌, ◌<◌, ◌≤◌, ◌^◌, ◌≡◌, refl, true, false, some, List, get_elem?, set, length, replicate,
  total, if◌then◌else◌, arith, sym, ◌∙◌, length-set, length-replicate, total-replicate, le-total,
  moved, total_others, total-add,
}
use acar.Mutex.{is_exclusive, is_group, InnerMutex, new}
use acar.Mutex.Threads.{Shared, Pc, step, idle, ex_spin, gr_join, gr_spin, su_guard, wk_guard}
use acar.Mutex.System.{
  System, Calls, lock_exclusive, lock_group, try_lock_exclusive, unlock_exclusive, unlock_group,
  excl, grp, waits, closing, broken, calm, CalmReach, calm_start, calm_access, calm_call,
}

-- What the shared state says of `n` threads, of which `e` hold the exclusive lock, `g` are in the
-- group, `w` wait for it, `c` are closing it and `b` have panicked.
pub record Counted (n : ℕ) (m : InnerMutex) (e g w c b : ℕ) : Type 0 where
  pub few : n < 2 ^ 64
  pub fits : g + w ≤ n
  pub joined : m.lockers ≡ g + w
  pub owner : e ≡ (if is_exclusive m.state then 1 else 0)
  pub inside : is_group m.state ≡ false → g + c ≡ 0
  pub outside : is_group m.state ≡ true → 0 < g + w + c
  pub once : c ≤ 1
  pub emptied : 0 < c → m.lockers ≡ 0
  pub sound : b ≡ 0

-- A step of a thread keeps this, whatever the others are.
step-Counted :
    (i : ℕ) (p : Pc) (s : Shared) {n : ℕ} (e g w c b : ℕ)
    → Counted n s.mutex (e + excl p) (g + grp p) (w + waits p) (c + closing p) (b + broken p)
    → g + w < n
    → (p ≡ gr_join → c ≡ 0)
    → let (q, t) = step i p s in
      Counted n t.mutex (e + excl q) (g + grp q) (w + waits q) (c + closing q) (b + broken q)
unfolding step
step-Counted i (ex_spin b k) s e g w c bs h f j = ground arith
step-Counted i (gr_spin b k) s e g w c bs h f j = ground arith
step-Counted i (su_guard t b) s e g w c bs h f j = ground arith
step-Counted i (wk_guard t k) s e g w c bs h f j = ground arith
step-Counted i p s e g w c bs h f j = ground arith

pub record Inv (n : ℕ) (m : InnerMutex) (ts : List Pc) : Type 0 where
  pub size : length ts ≡ n
  pub counts :
      Counted n m
        (total excl ts)
        (total grp ts)
        (total waits ts)
        (total closing ts)
        (total broken ts)

abbrev member : Pc → ℕ
member p = grp p + waits p

others-lt :
    (ts : List Pc) (i : ℕ) {p : Pc}
    → get_elem? ts i ≡ some p
    → total grp ts - grp p + (total waits ts - waits p) < length ts
others-lt ts i {p} h = omega (
  arith,
  total_others member (λ p. ground arith) ts i h,
  total-add grp waits ts,
  le-total grp ts i h,
  le-total waits ts i h,
)

Counted-eq :
    {n e g w c b : ℕ} {m : InnerMutex} (e' g' w' c' b' : ℕ)
    → Counted n m e g w c b
    → e ≡ e'
    → g ≡ g'
    → w ≡ w'
    → c ≡ c'
    → b ≡ b'
    → Counted n m e' g' w' c' b'
Counted-eq e' g' w' c' b' h p q r s t = ground arith

none_closing : (ts : List Pc) {p : Pc} → calm p ts ≡ true → p ≡ gr_join → total closing ts ≡ 0
none_closing ts quiet j = let e = rw j at quiet in ground arith

-- A call is started or ended without any access, and counts a thread as before.
Calls-weights :
    {p q : Pc}
    → Calls p q
    → (excl p ≡ excl q)
      × (grp p ≡ grp q)
      × (waits p ≡ waits q)
      × (closing p ≡ closing q)
      × (broken p ≡ broken q)
Calls-weights lock_exclusive = (refl, refl, refl, refl, refl)
Calls-weights lock_group = (refl, refl, refl, refl, refl)
Calls-weights try_lock_exclusive = (refl, refl, refl, refl, refl)
Calls-weights unlock_exclusive = (refl, refl, refl, refl, refl)
Calls-weights unlock_group = (refl, refl, refl, refl, refl)

-- Thread `i` moves from `p` to `q` and the mutex becomes `t`; the others stay.
module _ {n : ℕ} {m : InnerMutex} {ts : List Pc} (inv : Inv n m ts) (i : ℕ) {p : Pc}
    (at : get_elem? ts i ≡ some p) where
  rest : (Pc → ℕ) → ℕ
  rest w = total w ts - w p

  now :
      Counted n m
        (rest excl + excl p)
        (rest grp + grp p)
        (rest waits + waits p)
        (rest closing + closing p)
        (rest broken + broken p)
  unfolding rest
  now =
      Counted-eq _ _ _ _ _ inv.counts (same excl) (same grp) (same waits) (same closing)
        (same broken)
    where
      same : (w : Pc → ℕ) → total w ts ≡ total w ts - w p + w p
      same w = (moved w ts i p at).before

  move-Inv :
      (q : Pc) (t : InnerMutex)
      → Counted n t
          (rest excl + excl q)
          (rest grp + grp q)
          (rest waits + waits q)
          (rest closing + closing q)
          (rest broken + broken q)
      → Inv n t (set ts i q)
  unfolding rest
  move-Inv q t h = record {
    size = length-set ts i q ∙ inv.size;
    counts =
        Counted-eq _ _ _ _ _ h (new_total excl) (new_total grp) (new_total waits)
          (new_total closing) (new_total broken);
  }
    where
      new_total : (w : Pc → ℕ) → total w ts - w p + w q ≡ total w (set ts i q)
      new_total w = sym (moved w ts i q at).after

  access-Inv :
      (s : Shared)
      → s.mutex ≡ m
      → calm p ts ≡ true
      → Inv n (step i p s).1.mutex (set ts i (step i p s).0)
  unfolding rest
  access-Inv s e quiet = move-Inv (step i p s).0 (step i p s).1.mutex (
      step-Counted i p s (rest excl) (rest grp) (rest waits) (rest closing) (rest broken) (rw e now)
        (omega (arith, others-lt ts i at, inv.size)) (λ j. omega (arith, none_closing ts quiet j)))

  call-Inv : {q : Pc} → Calls p q → Inv n m (set ts i q)
  call-Inv c = move-Inv _ m (let w = Calls-weights c in rw (← w.0, ← w.1, ← w.2, ← w.3, ← w.4) now)

init-Inv : (n : ℕ) → n < 2 ^ 64 → Inv n new (replicate n idle)
init-Inv n few = record {
  size = length-replicate n idle;
  counts =
      Counted-eq _ _ _ _ _ zeros (none_at excl refl) (none_at grp refl) (none_at waits refl)
        (none_at closing refl) (none_at broken refl);
}
  where
    zeros : Counted n new 0 0 0 0 0
    zeros = ground arith

    none_at : (w : Pc → ℕ) → w idle ≡ 0 → 0 ≡ total w (replicate n idle)
    none_at w h = sym (total-replicate w n idle h)

pub CalmReach-Inv :
    {n : ℕ} {s : System} → n < 2 ^ 64 → CalmReach n s → Inv n s.shared.mutex s.threads
CalmReach-Inv {n} few calm_start = init-Inv n few
CalmReach-Inv few (calm_access i r at quiet) = access-Inv (CalmReach-Inv few r) i at _ refl quiet
CalmReach-Inv few (calm_call i r at c) = call-Inv (CalmReach-Inv few r) i at c
