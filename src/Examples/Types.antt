-- ===== src/Examples/Types.antt =====
-- Requests to an `AnyRef` of src/any_ref at concrete inputs.
use acar.Prelude.{ℕ, ◌≡◌, refl, none, some, List, [], ◌∷◌, arith}
use acar.Outcome.{Returns}
use acar.Mutex.Lone.{mutex_locking}
use acar.AnyRef.{new}
use acar.AnyRef.Requests.{
  Request, looks, ends, fills, cell, answer, answers, follow, prepend, serve_all,
}
use acar.AnyRef.Typing.{Holds}
use acar.AnyRef.Sequences.{serve_all-answers}

-- A 6 of type 1, replaced by a 9 of type 2.
abbrev six : ℕ
six = 6

abbrev changes_type : List (Request ℕ)
changes_type = looks 1 ∷ looks 2 ∷ ends ∷ fills 2 9 ∷ looks 1 ∷ looks 2 ∷ []

serve_all-answers_example :
    Returns
      (λ os b.
        (os ≡ some six ∷ none ∷ none ∷ none ∷ none ∷ some 9 ∷ [])
        × Holds mutex_locking (cell 1 2 9) b)
      (serve_all mutex_locking changes_type (new mutex_locking 1 six))
unfolding answers answer follow prepend
serve_all-answers_example =
    serve_all-answers mutex_locking changes_type 1 6
      (some 6 ∷ none ∷ none ∷ none ∷ none ∷ some 9 ∷ [], cell 1 2 9) (omega arith) refl
