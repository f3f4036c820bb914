-- ===== src/AtomicHashMap/Visits/Within.antt =====
-- A thread that is in a call of a bucket of src/collections/atomic_hashmap.rs has joined the group of the
-- map's `lock` for it.
use acar.Prelude.{
  ℕ, ◌+◌, ◌<◌, ◌≡◌, ◌≢◌, refl, Option, none, some, List, ◌==◌, is_some, get_elem?, set, arith,
  Bool-cases, inl, inr, get_elem?-set, get_elem?-set_other, sym, ap, ◌∙◌,
}
use mathlib.Core.Option.{some-injective}
use acar.AtomicHashMap.Chain.{Key}
use acar.AtomicHashMap.Threads.{
  Shared, Pc, idle, locks, searches, reads, settles, store, writes, awaits, frees, faulted, step,
  key_at, written,
}
use acar.AtomicHashMap.System.{System, reading, owning, settling}
use acar.AtomicHashMap.Locks.{has_member, is_last, is_exclusive}
use acar.AtomicHashMap.Visits.{Stage, inside, Begins, busy, put_at}

-- What a write to one bucket does not change is the same in all.
pub put_at-same :
    {A B : Type 0} (g : A → B) (f : ℕ → A) (k : ℕ) (a : A)
    → g a ≡ g (f k)
    → (j : ℕ) → g (put_at f k a j) ≡ g (f j)
put_at-same g f k a e j = elim (Bool-cases (j == k)) [
  | inl h ↦ let same : k ≡ j = ground arith in rw h (e ∙ ap (λ k. g (f k)) same)
  | inr h ↦ rw h refl
]

pub put_at-all :
    {A : Type 0} (P : A → Type 0) (f : ℕ → A) (k : ℕ) (a : A)
    → P a
    → ((j : ℕ) → P (f j))
    → (j : ℕ) → P (put_at f k a j)
put_at-all P f k a here others j = elim (Bool-cases (j == k)) [
  | inl h ↦ rw h here
  | inr h ↦ rw h (others j)
]

module _ {C V : Type 0} where
  abbrev pub Within : (ℕ → System C V) → List (Stage C V) → Type 0
  Within bs stages =
      (i k : ℕ) (p : Pc C V)
      → get_elem? (bs k).threads i ≡ some p
      → 0 < busy p
      → get_elem? stages i ≡ some (inside k)

  -- A thread moves in a bucket.
  pub move-Within :
      (bs : ℕ → System C V) (stages : List (Stage C V)) (i k : ℕ) (t : Shared C V) {p : Pc C V}
      (q : Pc C V)
      → Within bs stages
      → get_elem? (bs k).threads i ≡ some p
      → (0 < busy q → get_elem? stages i ≡ some (inside k))
      → Within (put_at bs k (record { shared = t; threads = set (bs k).threads i q })) stages
  move-Within bs stages i k t q within at own j l r there pos = elim (Bool-cases (l == k)) [
    | inl h ↦
        let same : l ≡ k = ground arith in
        let there_k : get_elem? (set (bs k).threads i q) j ≡ some r = rw h at there in
        elim (Bool-cases (i == j)) [
          | inl e ↦
              let self : j ≡ i = ground arith in
              let there_i : get_elem? (set (bs k).threads i q) i ≡ some r = rw self at there_k in
              let moved : q ≡ r =
                some-injective q r (sym (get_elem?-set (bs k).threads i q at) ∙ there_i) in
              rw (self, same) (own (rw moved pos))
          | inr e ↦
              let ne : i ≢ j = ground arith in
              rw same
                (within j k r (sym (get_elem?-set_other (bs k).threads i j q ne) ∙ there_k) pos)
        ]
    | inr h ↦ within j l r (rw h at there) pos
  ]

  -- A thread that is in no call, or goes on with it, moves to another stage.
  pub restage-Within :
      (bs : ℕ → System C V) (stages : List (Stage C V)) (i : ℕ) {x : Stage C V} (y : Stage C V)
      → Within bs stages
      → get_elem? stages i ≡ some x
      → ((k : ℕ) (p : Pc C V) → get_elem? (bs k).threads i ≡ some p → 0 < busy p → y ≡ inside k)
      → Within bs (set stages i y)
  restage-Within bs stages i y within at own j l r there pos = elim (Bool-cases (i == j)) [
    | inl e ↦
        let self : j ≡ i = ground arith in
        let there_i : get_elem? (bs l).threads i ≡ some r = rw self at there in
        rw self (get_elem?-set stages i y at ∙ ap (λ z. some z) (own l r there_i pos))
    | inr e ↦
        let ne : i ≢ j = ground arith in
        get_elem?-set_other stages i j y ne ∙ within j l r there pos
  ]

  pub begins_outside : {x y : Stage C V} (k : ℕ) → Begins x y → x ≢ inside k
  begins_outside k (Begins.call j o) e = cc
  begins_outside k Begins.iter e = cc
  begins_outside k (Begins.drop_new j out) e = cc
  begins_outside k (Begins.drop j p out) e = cc
  begins_outside k (Begins.drop_ended out) e = cc

module _ (K : Key) {V : Type 0} where
  open K use {Carrier}

  written-head :
      (o : Option Carrier) (v : V) (s : Shared Carrier V) → (written K o v s).head ≡ s.head
  written-head none v s = refl
  written-head (some c) v s = refl

  -- A thread that is in no call, at most with a guard, does not change the chain.
  pub step-quiet :
      (v : V) (s : Shared Carrier V) (p : Pc Carrier V)
      → busy p ≡ 0
      → ((step K v p s).1.head ≡ s.head) × (busy (step K v p s).0 ≡ 0)
  unfolding step
  step-quiet v s idle e = (refl, refl)
  step-quiet v s (locks o) e = absurd (omega arith)
  step-quiet v s (searches o) e = absurd (omega arith)
  step-quiet v s (reads p) e = elim (Bool-cases (is_some (s.heap p))) [
    | inl h ↦ rw h (elim (Bool-cases (has_member s.held)) [
      | inl m ↦ elim (Bool-cases (is_last s.held)) [
        | inl l ↦ rw (m, l) (refl, refl)
        | inr l ↦ rw (m, l) (refl, refl)
      ]
      | inr m ↦ rw m (refl, refl)
    ])
    | inr h ↦ rw h (refl, refl)
  ]
  step-quiet v s (writes p) e = elim (Bool-cases (is_some (s.heap p))) [
    | inl h ↦
        let same = written-head (key_at p s.head) v (record s { heap = store s.heap p (some v) }) in
        rw h
          (elim (Bool-cases (
            is_exclusive
              (written K (key_at p s.head) v (record s { heap = store s.heap p (some v) })).held)) [
                | inl l ↦ rw l (same, refl)
                | inr l ↦ rw l (same, refl)
              ])
    | inr h ↦ rw h (refl, refl)
  ]
  step-quiet v s settles e = (refl, refl)
  step-quiet v s (awaits p) e = absurd (omega arith)
  step-quiet v s (frees p) e = absurd (omega arith)
  step-quiet v s faulted e = (refl, refl)

  -- A thread that is in no call and has no guard does nothing in the bucket.
  pub step-idle :
      (v : V) (s : Shared Carrier V) (p : Pc Carrier V)
      → busy p ≡ 0
      → reading p + owning p + settling p ≡ 0
      → (step K v p s).1 ≡ s
  unfolding step
  step-idle v s idle e f = refl
  step-idle v s (locks o) e f = absurd (omega arith)
  step-idle v s (searches o) e f = absurd (omega arith)
  step-idle v s (reads p) e f = absurd (omega arith)
  step-idle v s settles e f = absurd (omega arith)
  step-idle v s (writes p) e f = absurd (omega arith)
  step-idle v s (awaits p) e f = absurd (omega arith)
  step-idle v s (frees p) e f = absurd (omega arith)
  step-idle v s faulted e f = refl
