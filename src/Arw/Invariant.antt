-- ===== src/Arw/Invariant.antt =====
-- The invariant of the counts of src/arw, whatever the holders of handles do and in whatever order.
use acar.Prelude.{
  ℕ, ◌+◌, ◌-◌, ◌<◌, ◌≡◌, refl, Bool, Option, some, List, ◌++◌, get_elem?, set, total, arith, made,
  weight, moved, total-made, total-add,
}
use acar.Arw.{max_refcount}
use acar.Arw.Threads.{Shared, Pc, step}
use acar.Arw.System.{
  System, Calls, clone, drop, downgrade, is_unique, as_ref, as_mut, is_locked, counts, fill,
  unwinds, counts_weak, try_unwrap, upgrade, clone_weak, drop_weak, Reach, start, access, call,
  plain, claiming, weakly, both_left, val_left, lock_left, freeing, broken, live,
}
use acar.Arw.Counted.{Counted, step-Counted}

pub record Inv (s : Shared) (hs : List Pc) : Type 0 where
  pub counts :
      Counted s
        (total plain hs)
        (total claiming hs)
        (total weakly hs)
        (total both_left hs)
        (total val_left hs)
        (total lock_left hs)
        (total freeing hs)
        (total broken hs)

Counted-eq :
    {s : Shared} {p c w a v l x b : ℕ} (p' c' w' a' v' l' x' b' : ℕ)
    → Counted s p c w a v l x b
    → p ≡ p'
    → c ≡ c'
    → w ≡ w'
    → a ≡ a'
    → v ≡ v'
    → l ≡ l'
    → x ≡ x'
    → b ≡ b'
    → Counted s p' c' w' a' v' l' x' b'
Counted-eq p' c' w' a' v' l' x' b' h e1 e2 e3 e4 e5 e6 e7 e8 =
    rw (← e1, ← e2, ← e3, ← e4, ← e5, ← e6, ← e7, ← e8) h

-- A call is started without any access, and counts a holder as before.
Calls-weights :
    {p q : Pc}
    → Calls p q
    → (plain p ≡ plain q)
      × (claiming p ≡ claiming q)
      × (weakly p ≡ weakly q)
      × (both_left p ≡ both_left q)
      × (val_left p ≡ val_left q)
      × (lock_left p ≡ lock_left q)
      × (freeing p ≡ freeing q)
      × (broken p ≡ broken q)
Calls-weights clone = (refl, refl, refl, refl, refl, refl, refl, refl)
Calls-weights drop = (refl, refl, refl, refl, refl, refl, refl, refl)
Calls-weights downgrade = (refl, refl, refl, refl, refl, refl, refl, refl)
Calls-weights is_unique = (refl, refl, refl, refl, refl, refl, refl, refl)
Calls-weights as_ref = (refl, refl, refl, refl, refl, refl, refl, refl)
Calls-weights as_mut = (refl, refl, refl, refl, refl, refl, refl, refl)
Calls-weights is_locked = (refl, refl, refl, refl, refl, refl, refl, refl)
Calls-weights counts = (refl, refl, refl, refl, refl, refl, refl, refl)
Calls-weights fill = (refl, refl, refl, refl, refl, refl, refl, refl)
Calls-weights unwinds = (refl, refl, refl, refl, refl, refl, refl, refl)
Calls-weights counts_weak = (refl, refl, refl, refl, refl, refl, refl, refl)
Calls-weights try_unwrap = (refl, refl, refl, refl, refl, refl, refl, refl)
Calls-weights upgrade = (refl, refl, refl, refl, refl, refl, refl, refl)
Calls-weights clone_weak = (refl, refl, refl, refl, refl, refl, refl, refl)
Calls-weights drop_weak = (refl, refl, refl, refl, refl, refl, refl, refl)

-- Holder `i` moves from `q` to `r`, the allocation becomes `t` and a handle may be made.
module _ {s : Shared} {hs : List Pc} (inv : Inv s hs) (i : ℕ) {q : Pc}
    (at : get_elem? hs i ≡ some q) where
  rest : (Pc → ℕ) → ℕ
  rest w = total w hs - w q

  now :
      Counted s
        (rest plain + plain q)
        (rest claiming + claiming q)
        (rest weakly + weakly q)
        (rest both_left + both_left q)
        (rest val_left + val_left q)
        (rest lock_left + lock_left q)
        (rest freeing + freeing q)
        (rest broken + broken q)
  unfolding rest
  now =
      Counted-eq _ _ _ _ _ _ _ _ inv.counts (same plain) (same claiming) (same weakly)
        (same both_left) (same val_left) (same lock_left) (same freeing) (same broken)
    where
      same : (w : Pc → ℕ) → total w hs ≡ total w hs - w q + w q
      same w = (moved w hs i q at).before

  move-Inv :
      (r : Pc) (t : Shared) (o : Option Pc)
      → Counted t
          (rest plain + plain r + weight plain o)
          (rest claiming + claiming r + weight claiming o)
          (rest weakly + weakly r + weight weakly o)
          (rest both_left + both_left r + weight both_left o)
          (rest val_left + val_left r + weight val_left o)
          (rest lock_left + lock_left r + weight lock_left o)
          (rest freeing + freeing r + weight freeing o)
          (rest broken + broken r + weight broken o)
      → Inv t (set hs i r ++ made o)
  unfolding rest
  move-Inv r t o h = record {
    counts =
        Counted-eq _ _ _ _ _ _ _ _ h (new_total plain) (new_total claiming) (new_total weakly)
          (new_total both_left) (new_total val_left) (new_total lock_left) (new_total freeing)
          (new_total broken);
  }
    where
      new_total :
          (w : Pc → ℕ) → total w hs - w q + w r + weight w o ≡ total w (set hs i r ++ made o)
      new_total w = omega (arith, (moved w hs i r at).after, total-made w (set hs i r) o)

  access-Inv :
      (f : Bool)
      → total live hs < max_refcount
      → Inv (step f q s).1 (set hs i (step f q s).0 ++ made (step f q s).2)
  unfolding rest
  access-Inv f few = move-Inv _ _ _ (
      step-Counted s (rest plain) (rest claiming) (rest weakly) (rest both_left) (rest val_left)
        (rest lock_left) (rest freeing) (rest broken) f q
        (
          now,
          (omega (
            arith,
            few,
            total-add plain claiming hs,
            total-add (λ p. plain p + claiming p) weakly hs,
            (moved plain hs i q at).before,
            (moved claiming hs i q at).before,
            (moved weakly hs i q at).before,
          )),
        ))

  call-Inv : {r : Pc} → Calls q r → Inv s (set hs i r)
  call-Inv {r} c =
      let e = Calls-weights c in
      record {
        counts =
            Counted-eq _ _ _ _ _ _ _ _ inv.counts (same plain e.0) (same claiming e.1)
              (same weakly e.2) (same both_left e.3) (same val_left e.4) (same lock_left e.5)
              (same freeing e.6) (same broken e.7);
      }
    where
      same : (w : Pc → ℕ) → w q ≡ w r → total w hs ≡ total w (set hs i r)
      same w e = omega (arith, (moved w hs i r at).before, (moved w hs i r at).after, e)

pub Reach-Inv : {s : System} → Reach s → Inv s.shared s.holders
unfolding total
Reach-Inv start = ground arith
Reach-Inv (access i f r at few) = access-Inv (Reach-Inv r) i at f few
Reach-Inv (call i r at c) = call-Inv (Reach-Inv r) i at c
