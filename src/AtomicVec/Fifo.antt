-- ===== src/AtomicVec/Fifo.antt =====
-- Runs of `push` and `pop` of src/collections/atomic_vec.rs, and the end of a vector.
use acar.Prelude.{
  ℕ, zero, suc, ◌+◌, ◌<◌, ◌^◌, ◌≡◌, ◌≢◌, refl, true, false, none, some, List, [], ◌∷◌, ◌++◌, arith,
  length, length-append, append-nil, append_assoc,
}
use mathlib.Core.Path.{subst}
use acar.AtomicVec.Heap.{Ptr, null, Heap, AtomicInner, Cmd, ◌>>=◌, ◌>>◌, pure, new}
use acar.AtomicVec.Rep.{Cells, has, Rep, Returns, returns, bind, mono, new-Rep}
use acar.AtomicVec.{push, pop}
use acar.AtomicVec.Push.{push_keeps}
use acar.AtomicVec.Pop.{pop_first}

module _ {ℓ} {A : Type ℓ} where
  pub push_all : Cells A → Cmd A (Unit {0})
  push_all [] = pure tt
  push_all ((p, x) ∷ cs) = do push p x; push_all cs

  -- `n` pops, and the values that they return.
  pub pop_all : ℕ → Cmd A (List A)
  pop_all zero = pure []
  pop_all (suc n) = do o ← pop; rest ← pop_all n; pure (elim o [ none ↦ rest | some x ↦ x ∷ rest ])

  abbrev pub values : Cells A → List A
  values [] = []
  values ((p, x) ∷ cs) = x ∷ values cs

  -- Addresses that an allocator may return one after the other.
  abbrev pub Unused : Heap A → Cells A → Type ℓ
  Unused h [] = Unit
  Unused h ((p, x) ∷ cs) = (p ≢ null) × (h p ≡ none) × (has p cs ≡ false) × Unused h cs

  Unused-keep :
      (h g : Heap A) (p : Ptr) (cs : Cells A)
      → has p cs ≡ false
      → ((a : Ptr) → a ≢ p → h a ≡ none → g a ≡ none)
      → Unused h cs
      → Unused g cs
  Unused-keep h g p [] out keep u = tt
  Unused-keep h g p ((q, x) ∷ cs) out keep (ne, e, fresh, u) =
      (ne, keep q (ground arith) e, fresh, Unused-keep h g p cs (ground arith) keep u)

  push_all-Rep :
      (cs : Cells A) {v : AtomicInner A} {xs : Cells A}
      → Rep v xs none true 0
      → Unused v.heap cs
      → length xs + length cs + 2 < 2 ^ 64
      → Returns (λ _ t. Rep t (xs ++ cs) none true 0) (push_all cs v)
  unfolding push_all
  push_all-Rep [] {xs} r u room = returns (rw (append-nil xs) r)
  push_all-Rep ((p, x) ∷ cs) {v} {xs} r (ne, e, fresh, u) room =
      bind (push_keeps p x r ne e (omega arith)) λ _ t (rep, keep).
        let tail =
          push_all-Rep cs rep (Unused-keep v.heap t.heap p cs fresh keep u)
            (omega (arith, length-append xs ((p, x) ∷ []))) in
        mono tail λ _ s h. subst (λ l. Rep s l none true 0) (append_assoc xs ((p, x) ∷ []) cs) h

  pop_all-Rep :
      (xs : Cells A) {v : AtomicInner A}
      → Rep v xs none true 0
      → length xs + 2 < 2 ^ 64
      → Returns (λ l t. (l ≡ values xs) × Rep t [] none true 0) (pop_all (length xs) v)
  unfolding pop_all
  pop_all-Rep [] r room = returns (refl, r)
  pop_all-Rep ((p, x) ∷ xs) r room = bind (pop_first r (omega arith)) λ o t (e, rep, gone).
      bind (pop_all-Rep xs rep (omega arith)) λ l s (e', rep'). returns (rw (e, e'), rep')

  -- First in, first out: values pushed one after the other onto an empty vector are popped in the
  -- same order, and the vector is empty again.
  pub pop_all-push_all :
      (cs : Cells A)
      → Unused (λ a. none) cs
      → length cs + 2 < 2 ^ 64
      → Returns
          (λ l t. (l ≡ values cs) × Rep t [] none true 0)
          ((do push_all cs; pop_all (length cs)) new)
  pop_all-push_all cs u room =
      bind (push_all-Rep cs {xs = []} new-Rep u (omega arith)) λ _ t rep. pop_all-Rep cs rep room
