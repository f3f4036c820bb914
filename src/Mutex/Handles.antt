-- ===== src/Mutex/Handles.antt =====
-- The handles of src/mutex/mutex.rs: `clone` and `drop` over one allocation.
use acar.Prelude.{
  ℕ, ◌+◌, ◌-◌, ◌<◌, ◌^◌, ◌≡◌, refl, ◌↔◌, Option, none, some, arith, ◌==◌, if◌then◌else◌,
  Option-cases, inl, inr,
}
use acar.Mutex.{InnerMutex, new, get_ref_count, clone, drop}

-- `h` handles are alive, and the allocation is as given, `none` once freed. Only a live handle is
-- cloned or dropped, and `usize` can count them.
pub data Handles : ℕ → Option InnerMutex → Type 0 where
  created : Handles 1 (some new)
  cloned :
      {h : ℕ} {m : InnerMutex}
      → Handles h (some m)
      → h + 1 < 2 ^ 64
      → Handles (h + 1) (some (clone m))
  dropped : {h : ℕ} {m : InnerMutex} → Handles h (some m) → Handles (h - 1) (drop m)

record Agrees (h : ℕ) (o : Option InnerMutex) : Type 0 where
  pub freed : (o ≡ none) ↔ (h ≡ 0)
  pub counts : (m : InnerMutex) → o ≡ some m → get_ref_count m ≡ h
  pub small : h < 2 ^ 64

drop-Agrees :
    {h : ℕ} (m : InnerMutex) → m.ref_count ≡ h → 0 < h → h < 2 ^ 64 → Agrees (h - 1) (drop m)
unfolding drop get_ref_count
drop-Agrees m e p q = record {
  freed = ground arith;
  counts = λ k t. ground arith;
  small = omega arith;
}

Handles-Agrees : {h : ℕ} {o : Option InnerMutex} → Handles h o → Agrees h o
unfolding clone get_ref_count
Handles-Agrees created = record {
  freed = ground arith;
  counts = λ m e. ground arith;
  small = omega arith;
}
Handles-Agrees (cloned {m} l fits) =
    let a = Handles-Agrees l in
    record {
      freed = (λ e. cc, λ e. absurd (omega arith));
      counts = λ k e. ground (arith, a.counts m refl);
      small = fits;
    }
Handles-Agrees (dropped {h} {m} l) =
    let a = Handles-Agrees l in drop-Agrees m (a.counts m refl) (ground (arith, a.freed)) a.small

-- `get_ref_count` of an allocation that is there.
abbrev pub count_of : Option InnerMutex → Option ℕ
count_of none = none
count_of (some m) = some (get_ref_count m)

-- However handles are cloned and dropped, the allocation is freed exactly when the last one is
-- dropped, and until then `get_ref_count` is the number of live handles.
pub freed_with_last :
    {h : ℕ} {o : Option InnerMutex} → Handles h o → count_of o ≡ (if h == 0 then none else some h)
freed_with_last {o} l =
    let a = Handles-Agrees l in
    elim (Option-cases o) [
      | inl e ↦ ground (arith, a.freed)
      | inr (m, e) ↦ ground (arith, a.freed, a.counts m)
    ]
