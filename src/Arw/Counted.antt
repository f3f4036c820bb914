-- ===== src/Arw/Counted.antt =====
-- What an allocation of src/arw says of its holders, and that every step of one of them keeps it.
use acar.Prelude.{
  ℕ, ◌+◌, ◌<◌, ◌≤◌, ◌≡◌, refl, Bool, false, ◌==◌, ltb, if◌then◌else◌, arith, weight, usize_max,
}
use acar.Arw.{max_refcount}
use acar.Arw.Threads.{
  Shared, Pc, Next, in_call, step, access, gone, strong_idle, weak_idle, cl_add, dr_sub, dr_lock,
  dr_val, dg_load, dg_try, iu_claim, iu_load, iu_store, rf_lock, rf_val, tu_lock, tu_claim, am_lock,
  am_val, il_lock, ct_load, fi_lock, fi_val, fi_unlock, wt_load, iu_answer, unwinding, tu_unlock,
  tu_read, tu_val, tu_drop_lock, up_load, up_try, cw_add, dw_sub, dw_free, faulted, panicked,
  aborted,
}
use acar.Arw.System.{plain, claiming, weakly, both_left, val_left, lock_left, freeing, broken}

-- What the allocation says of its holders: the numbers of strong handles without and with a claim on
-- the weak count and of weak ones; those that destroy both the value and the lock, the value, the
-- lock; those that free the memory; those that have gone wrong.
pub record Counted (s : Shared) (p c w a v l x b : ℕ) : Type 0 where
  pub strong : s.strong ≡ p + c
  pub one_claim : c ≤ 1
  pub one_end : a + v + l + x ≤ 1
  pub ended : 0 < a + v + l → p + c ≡ 0
  pub freed : 0 < x → p + c + w ≡ 0
  pub claimed : 0 < c → w ≡ 0
  pub weak : s.weak ≡ (if c == 0 then w + (a + v + l) + (if p == 0 then 0 else 1) else usize_max)
  pub val : s.val ≡ ltb 0 (p + c + a + v)
  pub lock : s.lock ≡ ltb 0 (p + c + a + l)
  pub destroyed : s.destroyed ≡ s.filled + (if ltb 0 (p + c + a + v) then 0 else 1)
  pub allocated : s.allocated ≡ ltb 0 (p + c + w + a + v + l + x)
  pub sound : b ≡ 0

-- One holder among others, of which the counts are given.
module _ (s : Shared) (p c w a v l x b : ℕ) where
  -- The holder stands at the point, and there is room for one more handle.
  abbrev pub Before : Pc → Type 0
  Before q =
      Counted s (p + plain q) (c + claiming q) (w + weakly q) (a + both_left q) (v + val_left q)
        (l + lock_left q) (x + freeing q) (b + broken q)
      × ((p + plain q) + (c + claiming q) + (w + weakly q) < max_refcount)

  -- What its step leaves: the holder elsewhere, and the handle that it has made.
  abbrev pub After : Next → Type 0
  After (r, t, o) =
      Counted t (p + plain r + weight plain o) (c + claiming r + weight claiming o)
        (w + weakly r + weight weakly o) (a + both_left r + weight both_left o)
        (v + val_left r + weight val_left o) (l + lock_left r + weight lock_left o)
        (x + freeing r + weight freeing o) (b + broken r + weight broken o)

  outside_keeps : (f : Bool) (q : Pc) → in_call q ≡ false → Before q → After (step f q s)
  unfolding step access
  outside_keeps f gone e (h, few) = ground arith
  outside_keeps f strong_idle e (h, few) = ground arith
  outside_keeps f weak_idle e (h, few) = ground arith
  outside_keeps f faulted e (h, few) = ground arith
  outside_keeps f panicked e (h, few) = ground arith
  outside_keeps f aborted e (h, few) = ground arith
  outside_keeps f unwinding e (h, few) = ground arith
  outside_keeps f (iu_answer u) e (h, few) = ground arith
  outside_keeps f q e (h, few) = absurd (ground arith)

  cl_add_keeps : (f : Bool) → Before cl_add → After (step f cl_add s)
  unfolding step access
  cl_add_keeps f (h, few) = ground arith

  dr_sub_keeps : (f : Bool) → Before dr_sub → After (step f dr_sub s)
  unfolding step access
  dr_sub_keeps f (h, few) = ground arith

  dr_lock_keeps : (f : Bool) → Before dr_lock → After (step f dr_lock s)
  unfolding step access
  dr_lock_keeps f (h, few) = ground arith

  dr_val_keeps : (f : Bool) → Before dr_val → After (step f dr_val s)
  unfolding step access
  dr_val_keeps f (h, few) = ground arith

  dg_load_keeps : (f : Bool) → Before dg_load → After (step f dg_load s)
  unfolding step access
  dg_load_keeps f (h, few) = ground arith

  dg_try_keeps : (f : Bool) (cur : ℕ) → Before (dg_try cur) → After (step f (dg_try cur) s)
  unfolding step access
  dg_try_keeps f cur (h, few) = ground arith

  iu_claim_keeps : (f : Bool) → Before iu_claim → After (step f iu_claim s)
  unfolding step access
  iu_claim_keeps f (h, few) = ground arith

  iu_load_keeps : (f : Bool) → Before iu_load → After (step f iu_load s)
  unfolding step access
  iu_load_keeps f (h, few) = ground arith

  iu_store_keeps :
      (f : Bool) (unique : Bool) → Before (iu_store unique) → After (step f (iu_store unique) s)
  unfolding step access
  iu_store_keeps f unique (h, few) = ground arith

  rf_lock_keeps : (f : Bool) → Before rf_lock → After (step f rf_lock s)
  unfolding step access
  rf_lock_keeps f (h, few) = ground arith

  rf_val_keeps : (f : Bool) → Before rf_val → After (step f rf_val s)
  unfolding step access
  rf_val_keeps f (h, few) = ground arith

  tu_lock_keeps : (f : Bool) → Before tu_lock → After (step f tu_lock s)
  unfolding step access
  tu_lock_keeps f (h, few) = ground arith

  tu_claim_keeps : (f : Bool) → Before tu_claim → After (step f tu_claim s)
  unfolding step access
  tu_claim_keeps f (h, few) = ground arith

  tu_unlock_keeps : (f : Bool) → Before tu_unlock → After (step f tu_unlock s)
  unfolding step access
  tu_unlock_keeps f (h, few) = ground arith

  tu_read_keeps : (f : Bool) → Before tu_read → After (step f tu_read s)
  unfolding step access
  tu_read_keeps f (h, few) = ground arith

  tu_val_keeps : (f : Bool) → Before tu_val → After (step f tu_val s)
  unfolding step access
  tu_val_keeps f (h, few) = ground arith

  tu_drop_lock_keeps : (f : Bool) → Before tu_drop_lock → After (step f tu_drop_lock s)
  unfolding step access
  tu_drop_lock_keeps f (h, few) = ground arith

  up_load_keeps : (f : Bool) → Before up_load → After (step f up_load s)
  unfolding step access
  up_load_keeps f (h, few) = ground arith

  up_try_keeps : (f : Bool) (n : ℕ) → Before (up_try n) → After (step f (up_try n) s)
  unfolding step access
  up_try_keeps f n (h, few) = ground arith

  am_lock_keeps : (f : Bool) → Before am_lock → After (step f am_lock s)
  unfolding step access
  am_lock_keeps f (h, few) = ground arith

  am_val_keeps : (f : Bool) → Before am_val → After (step f am_val s)
  unfolding step access
  am_val_keeps f (h, few) = ground arith

  il_lock_keeps : (f : Bool) → Before il_lock → After (step f il_lock s)
  unfolding step access
  il_lock_keeps f (h, few) = ground arith

  ct_load_keeps : (f : Bool) → Before ct_load → After (step f ct_load s)
  unfolding step access
  ct_load_keeps f (h, few) = ground arith

  fi_lock_keeps : (f : Bool) → Before fi_lock → After (step f fi_lock s)
  unfolding step access
  fi_lock_keeps f (h, few) = ground arith

  fi_val_keeps : (f : Bool) → Before fi_val → After (step f fi_val s)
  unfolding step access
  fi_val_keeps f (h, few) = ground arith

  fi_unlock_keeps : (f : Bool) → Before fi_unlock → After (step f fi_unlock s)
  unfolding step access
  fi_unlock_keeps f (h, few) = ground arith

  wt_load_keeps : (f : Bool) → Before wt_load → After (step f wt_load s)
  unfolding step access
  wt_load_keeps f (h, few) = ground arith

  cw_add_keeps : (f : Bool) → Before cw_add → After (step f cw_add s)
  unfolding step access
  cw_add_keeps f (h, few) = ground arith

  dw_sub_keeps : (f : Bool) → Before dw_sub → After (step f dw_sub s)
  unfolding step access
  dw_sub_keeps f (h, few) = ground arith

  dw_free_keeps : (f : Bool) → Before dw_free → After (step f dw_free s)
  unfolding step access
  dw_free_keeps f (h, few) = ground arith

  -- A step of a holder keeps this, whatever the others are.
  pub step-Counted : (f : Bool) (q : Pc) → Before q → After (step f q s)
  step-Counted f gone h = outside_keeps f gone refl h
  step-Counted f strong_idle h = outside_keeps f strong_idle refl h
  step-Counted f weak_idle h = outside_keeps f weak_idle refl h
  step-Counted f cl_add h = cl_add_keeps f h
  step-Counted f dr_sub h = dr_sub_keeps f h
  step-Counted f dr_lock h = dr_lock_keeps f h
  step-Counted f dr_val h = dr_val_keeps f h
  step-Counted f dg_load h = dg_load_keeps f h
  step-Counted f (dg_try cur) h = dg_try_keeps f cur h
  step-Counted f iu_claim h = iu_claim_keeps f h
  step-Counted f iu_load h = iu_load_keeps f h
  step-Counted f (iu_store unique) h = iu_store_keeps f unique h
  step-Counted f rf_lock h = rf_lock_keeps f h
  step-Counted f rf_val h = rf_val_keeps f h
  step-Counted f tu_lock h = tu_lock_keeps f h
  step-Counted f tu_claim h = tu_claim_keeps f h
  step-Counted f tu_unlock h = tu_unlock_keeps f h
  step-Counted f tu_read h = tu_read_keeps f h
  step-Counted f tu_val h = tu_val_keeps f h
  step-Counted f tu_drop_lock h = tu_drop_lock_keeps f h
  step-Counted f up_load h = up_load_keeps f h
  step-Counted f (up_try n) h = up_try_keeps f n h
  step-Counted f am_lock h = am_lock_keeps f h
  step-Counted f am_val h = am_val_keeps f h
  step-Counted f il_lock h = il_lock_keeps f h
  step-Counted f ct_load h = ct_load_keeps f h
  step-Counted f fi_lock h = fi_lock_keeps f h
  step-Counted f fi_val h = fi_val_keeps f h
  step-Counted f fi_unlock h = fi_unlock_keeps f h
  step-Counted f wt_load h = wt_load_keeps f h
  step-Counted f (iu_answer u) h = outside_keeps f (iu_answer u) refl h
  step-Counted f unwinding h = outside_keeps f unwinding refl h
  step-Counted f cw_add h = cw_add_keeps f h
  step-Counted f dw_sub h = dw_sub_keeps f h
  step-Counted f dw_free h = dw_free_keeps f h
  step-Counted f faulted h = outside_keeps f faulted refl h
  step-Counted f panicked h = outside_keeps f panicked refl h
  step-Counted f aborted h = outside_keeps f aborted refl h
