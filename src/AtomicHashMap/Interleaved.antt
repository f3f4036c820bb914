-- ===== src/AtomicHashMap/Interleaved.antt =====
-- The invariant of a bucket of src/collections/atomic_hashmap.rs, whatever its threads do and in whatever
-- order.
use acar.Prelude.{
  ℕ, ◌+◌, ◌-◌, ◌<◌, ◌≡◌, ◌≢◌, refl, true, Option, none, some, List, ◌==◌, is_some, get_elem?, set,
  replicate, total, arith, Bool-cases, inl, inr, moved, get_elem?-set, get_elem?-set_other,
  total-replicate, replicate-all, pair-le-total, sym, ap, ◌∙◌,
}
use mathlib.Core.Path.{subst}
use mathlib.Core.Option.{some-injective}
use acar.Utils.{Address}
use acar.AtomicHashMap.Chain.{Key, lookup}
use acar.AtomicHashMap.Log.{latest}
use acar.AtomicHashMap.Threads.{
  Shared, Op, Pc, idle, locks, searches, reads, settles, writes, awaits, frees, faulted, step,
}
use acar.AtomicHashMap.System.{
  System, Reach, start, access, call, init, Fits, locking, reading, owning, settling, removed,
  Holds,
}
use acar.AtomicHashMap.World.{World, World-eq, After}
use acar.AtomicHashMap.World.Steps.{step_keeps}

module _ {C V : Type 0} where
  -- What a thread's guard holds stays as long as the items do.
  Holds-same :
      (h g : Address → Option V) (p : Pc C V)
      → Holds h p
      → ((a : Address) → 0 < reading p + owning p → is_some (h a) ≡ true → g a ≡ h a)
      → Holds g p
  Holds-same h g idle own same = tt
  Holds-same h g (locks o) own same = tt
  Holds-same h g (searches o) own same = tt
  Holds-same h g (reads p) own same = ap is_some (same p (omega arith) own) ∙ own
  Holds-same h g settles own same = tt
  Holds-same h g (writes p) own same = ap is_some (same p (omega arith) own) ∙ own
  Holds-same h g (awaits p) own same = tt
  Holds-same h g (frees p) own same = tt
  Holds-same h g faulted own same = own

module _ (K : Key) {V : Type 0} where
  open K use {Carrier}

  pub record Inv (s : Shared Carrier V) (ts : List (Pc Carrier V)) : Type 0 where
    pub world :
        World K s
          (total locking ts)
          (total reading ts)
          (total owning ts)
          (total settling ts)
          (λ a. total (removed a) ts)
    pub own : (i : ℕ) (p : Pc Carrier V) → get_elem? ts i ≡ some p → Holds s.heap p

  -- Thread `i` stands at `p`; the others stay where they are.
  module _ {s : Shared Carrier V} {ts : List (Pc Carrier V)} (inv : Inv s ts) (i : ℕ)
      {p : Pc Carrier V} (at : get_elem? ts i ≡ some p) where
    pub rest : (Pc Carrier V → ℕ) → ℕ
    rest w = total w ts - w p

    now :
        World K s
          (rest locking + locking p)
          (rest reading + reading p)
          (rest owning + owning p)
          (rest settling + settling p)
          (λ a. rest (removed a) + removed a p)
    unfolding rest
    now =
        World-eq K inv.world (moved locking ts i p at).before (moved reading ts i p at).before
          (moved owning ts i p at).before (moved settling ts i p at).before
          (λ a. (moved (removed a) ts i p at).before)

    move-Inv :
        (t : Shared Carrier V) (q : Pc Carrier V)
        → World K t
            (rest locking + locking q)
            (rest reading + reading q)
            (rest owning + owning q)
            (rest settling + settling q)
            (λ a. rest (removed a) + removed a q)
        → Holds t.heap q
        → ((a : Address)
            → 0 < rest reading + rest owning
            → is_some (s.heap a) ≡ true
            → t.heap a ≡ s.heap a)
        → Inv t (set ts i q)
    unfolding rest
    move-Inv t q w own same = record {
      world =
          World-eq K w (sym (moved locking ts i q at).after) (sym (moved reading ts i q at).after)
            (sym (moved owning ts i q at).after) (sym (moved settling ts i q at).after)
            (λ a. sym (moved (removed a) ts i q at).after);
      own = λ j r there. elim (Bool-cases (i == j)) [
        | inl e ↦
            let same_i : j ≡ i = ground arith in
            let there_i : get_elem? (set ts i q) i ≡ some r = rw same_i at there in
            subst (Holds t.heap) (some-injective q r (sym (get_elem?-set ts i q at) ∙ there_i)) own
        | inr e ↦
            let ne : i ≢ j = ground arith in
            let before = sym (get_elem?-set_other ts i j q ne) ∙ there in
            Holds-same s.heap t.heap r (inv.own j r before) (λ a pos. same a (
              omega (
                arith,
                pos,
                pair-le-total reading ts i j ne at before,
                pair-le-total owning ts i j ne at before,
              )))
      ];
    }

    abbrev pub stepped : V → Pc Carrier V × Shared Carrier V
    stepped v = step K v p s

    pub access-After :
        (v : V)
        → Fits K p s
        → After K s
            (rest locking)
            (rest reading)
            (rest owning)
            (rest settling)
            (λ a. rest (removed a))
            (stepped v)
    access-After v fits =
        step_keeps K s (rest locking) (rest reading) (rest owning) (rest settling)
          (λ a. rest (removed a)) v p (now, inv.own i p at) fits

    -- While another thread has a guard or frees an item, a step leaves every item as it was.
    pub others_kept :
        (v : V) (j : ℕ) (q : Pc Carrier V) (a : Address)
        → Fits K p s
        → i ≢ j
        → get_elem? ts j ≡ some q
        → 0 < reading q + owning q
        → is_some (s.heap a) ≡ true
        → (stepped v).1.heap a ≡ s.heap a
    unfolding rest
    others_kept v j q a fits ne there pos e =
        (access-After v fits).same a
          (omega (
            arith,
            pos,
            pair-le-total reading ts i j ne at there,
            pair-le-total owning ts i j ne at there,
          ))
          e

    access-Inv : (v : V) → Fits K p s → Inv (stepped v).1 (set ts i (stepped v).0)
    access-Inv v fits =
        let after = access-After v fits in
        move-Inv (stepped v).1 (stepped v).0 after.world after.own after.same

  call-Inv :
      {s : Shared Carrier V} {ts : List (Pc Carrier V)} (inv : Inv s ts) (i : ℕ) (o : Op Carrier V)
      → get_elem? ts i ≡ some idle
      → Inv s (set ts i (locks o))
  call-Inv {s} inv i o at = move-Inv inv i at s (locks o) (now inv i at) tt (λ a _ e. refl)

  init-World : (n : ℕ) → World K (init K {V = V} n).shared 0 0 0 0 (λ a. 0)
  unfolding total latest lookup
  init-World n = record {
    lock = refl;
    held = record { readers = refl; owner = refl; closing = refl; clean = refl };
    placed = λ a. refl;
    distinct = tt;
    agrees = λ q. refl;
  }

  total-idle : (w : Pc Carrier V → ℕ) (n : ℕ) → w idle ≡ 0 → 0 ≡ total w (replicate n idle)
  total-idle w n h = sym (total-replicate w n idle h)

  init-Inv : (n : ℕ) → Inv (init K {V = V} n).shared (init K n).threads
  init-Inv n = record {
    world =
        World-eq K (init-World n) (total-idle locking n refl) (total-idle reading n refl)
          (total-idle owning n refl) (total-idle settling n refl)
          (λ a. total-idle (removed a) n refl);
    own = λ i p e. replicate-all (Holds (λ a. none)) n idle tt i p e;
  }

  pub Reach-Inv : {n : ℕ} {s : System Carrier V} → Reach K n s → Inv s.shared s.threads
  Reach-Inv {n} start = init-Inv n
  Reach-Inv (access i v r at fits) = access-Inv (Reach-Inv r) i at v fits
  Reach-Inv (call i o r at) = call-Inv (Reach-Inv r) i o at
