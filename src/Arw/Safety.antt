-- ===== src/Arw/Safety.antt =====
-- What the two counts of src/arw guarantee, whatever the holders of handles do and in whatever order.
use acar.Prelude.{
  ℕ, ◌⊎◌, inl, inr, Bool-cases, Bool, ◌==◌, ◌+◌, ◌<◌, ◌≡◌, refl, true, false, some, get_elem?,
  total, arith, le-total, total-add,
}
use acar.Arw.Threads.{Shared, iu_load, iu_store, iu_answer, step, access}
use acar.Arw.System.{System, Reach, plain, claiming, weakly, live}
use acar.Arw.Counted.{Counted}
use acar.Arw.Invariant.{Reach-Inv}

Counted-unique :
    {t : Shared} {p c w a v l x b : ℕ}
    → Counted t p c w a v l x b
    → 0 < c
    → (t.allocated ≡ true)
      × (((t.strong == 1) ≡ true) × (p + c + w ≡ 1) ⊎ ((t.strong == 1) ≡ false) × (1 < p + c))
Counted-unique {t} h pos = elim (Bool-cases (t.strong == 1)) [
  | inl e ↦ (ground arith, inl (e, ground arith))
  | inr e ↦ (ground arith, inr (e, ground arith))
]

-- The answer of `is_unique`, once it has locked the weak count, is that of its load of the strong count:
-- true if there is no other handle then, strong or weak, and false if there is another strong one.
-- There are fewer than `max_refcount` handles at every access.
pub is_unique_sole :
    {s : System} (i : ℕ) (f : Bool)
    → Reach s
    → get_elem? s.holders i ≡ some iu_load
    → (((step f iu_load s.shared).0 ≡ iu_store true) × (total live s.holders ≡ 1)
        ⊎ ((step f iu_load s.shared).0 ≡ iu_store false)
          × (1 < total plain s.holders + total claiming s.holders))
      × ((u : Bool) → (step f (iu_store u) s.shared).0 ≡ iu_answer u)
unfolding step access
is_unique_sole {s} i f r at =
    let (there, cases) =
      Counted-unique (Reach-Inv r).counts (omega (arith, le-total claiming s.holders i at)) in
    (
      elim cases [
        | inl (e, sole) ↦ inl (
          rw (there, e) refl,
          omega (
            arith,
            sole,
            total-add plain claiming s.holders,
            total-add (λ p. plain p + claiming p) weakly s.holders,
          ),
        )
        | inr (e, more) ↦ inr (rw (there, e) refl, more)
      ],
      λ u. rw there refl,
    )
