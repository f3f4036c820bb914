-- ===== src/Prelude/Lists.antt =====
-- Lists indexed by native numbers, and the total weight of a list.
use Prim.Native.Nat.{ℕ, zero, suc, ◌+◌, ◌≤◌, ◌<◌}
use mathlib.Core.Path.{subst, ◌≡◌, refl, ap}
use mathlib.Core.Logic.{◌≢◌}
use mathlib.Core.List.{List, [], ◌∷◌, ◌++◌}
use mathlib.Core.Option.{Option, none, some, some-injective}
use native.Mathlib.Omega.{arith}

module _ {ℓ} {A : Type ℓ} where
  abbrev pub length : List A → ℕ
  length [] = 0
  length (x ∷ xs) = suc (length xs)

  abbrev pub get_elem? : List A → ℕ → Option A
  get_elem? [] i = none
  get_elem? (x ∷ xs) zero = some x
  get_elem? (x ∷ xs) (suc i) = get_elem? xs i

  -- A write out of bounds changes nothing.
  abbrev pub set : List A → ℕ → A → List A
  set [] i v = []
  set (x ∷ xs) zero v = v ∷ xs
  set (x ∷ xs) (suc i) v = x ∷ set xs i v

  abbrev pub replicate : ℕ → A → List A
  replicate zero a = []
  replicate (suc n) a = a ∷ replicate n a

  pub length-append : (xs ys : List A) → length (xs ++ ys) ≡ length xs + length ys
  length-append [] ys = omega arith
  length-append (x ∷ xs) ys = omega (arith, length-append xs ys)

  pub length-set : (xs : List A) (i : ℕ) (v : A) → length (set xs i v) ≡ length xs
  length-set [] i v = refl
  length-set (x ∷ xs) zero v = refl
  length-set (x ∷ xs) (suc i) v = ap suc (length-set xs i v)

  pub length-replicate : (n : ℕ) (a : A) → length (replicate n a) ≡ n
  length-replicate zero a = refl
  length-replicate (suc n) a = ap suc (length-replicate n a)

module _ {ℓ} {A : Type ℓ} where
  pub get_elem?-set :
      (xs : List A) (i : ℕ) {a : A} (b : A)
      → get_elem? xs i ≡ some a
      → get_elem? (set xs i b) i ≡ some b
  get_elem?-set [] i b h = absurd (ground arith)
  get_elem?-set (x ∷ xs) zero b h = refl
  get_elem?-set (x ∷ xs) (suc i) b h = get_elem?-set xs i b h

  pub get_elem?-set_other :
      (xs : List A) (i j : ℕ) (b : A) → i ≢ j → get_elem? (set xs i b) j ≡ get_elem? xs j
  get_elem?-set_other [] i j b ne = refl
  get_elem?-set_other (x ∷ xs) zero zero b ne = absurd (ne refl)
  get_elem?-set_other (x ∷ xs) zero (suc j) b ne = refl
  get_elem?-set_other (x ∷ xs) (suc i) zero b ne = refl
  get_elem?-set_other (x ∷ xs) (suc i) (suc j) b ne =
      get_elem?-set_other xs i j b (λ e. ne (ap suc e))

  pub set-set : (xs : List A) (i : ℕ) (a b : A) → set (set xs i a) i b ≡ set xs i b
  set-set [] i a b = refl
  set-set (x ∷ xs) zero a b = refl
  set-set (x ∷ xs) (suc i) a b = ap (λ r. x ∷ r) (set-set xs i a b)

  -- What holds of one value holds of all its copies.
  pub replicate-all {κ} :
      (P : A → Type κ) (n : ℕ) (a : A)
      → P a
      → (j : ℕ) (b : A) → get_elem? (replicate n a) j ≡ some b
      → P b
  replicate-all P zero a p j b e = absurd (ground arith)
  replicate-all P (suc n) a p zero b e = subst P (some-injective _ _ e) p
  replicate-all P (suc n) a p (suc j) b e = replicate-all P n a p j b e

  -- What holds of every element still does after a write of one of which it holds.
  pub set-all {κ} :
      (P : A → Type κ) (xs : List A) (i : ℕ) (b : A)
      → ((j : ℕ) (a : A) → get_elem? xs j ≡ some a → P a)
      → P b
      → (j : ℕ) (a : A) → get_elem? (set xs i b) j ≡ some a
      → P a
  set-all P [] i b all p j a e = all j a e
  set-all P (x ∷ xs) zero b all p zero a e = subst P (some-injective _ _ e) p
  set-all P (x ∷ xs) zero b all p (suc j) a e = all (suc j) a e
  set-all P (x ∷ xs) (suc i) b all p zero a e = all zero a e
  set-all P (x ∷ xs) (suc i) b all p (suc j) a e = set-all P xs i b (λ k. all (suc k)) p j a e

  pub get_elem?-some : (xs : List A) (i : ℕ) → i < length xs → (a : A) × (get_elem? xs i ≡ some a)
  get_elem?-some [] i h = absurd (omega arith)
  get_elem?-some (x ∷ xs) zero h = (x, refl)
  get_elem?-some (x ∷ xs) (suc i) h = get_elem?-some xs i (omega arith)

-- How much the elements weigh together. With weights 0 and 1 it counts.
module _ {ℓ} {A : Type ℓ} (w : A → ℕ) where
  unfoldable pub total : List A → ℕ
  total [] = 0
  total (x ∷ xs) = w x + total xs

  pub total-set :
      (xs : List A) (i : ℕ) {a : A} (b : A)
      → get_elem? xs i ≡ some a
      → total (set xs i b) + w a ≡ total xs + w b
  unfolding total
  total-set [] i b h = absurd (ground arith)
  total-set (x ∷ xs) zero b h = ground arith
  total-set (x ∷ xs) (suc i) b h = omega (arith, total-set xs i b h)

  pub le-total : (xs : List A) (i : ℕ) {a : A} → get_elem? xs i ≡ some a → w a ≤ total xs
  unfolding total
  le-total [] i h = absurd (ground arith)
  le-total (x ∷ xs) zero h = ground arith
  le-total (x ∷ xs) (suc i) h = omega (arith, le-total xs i h)

  -- Two different places weigh no more than the whole.
  pub pair-le-total :
      (xs : List A) (i j : ℕ) {a b : A}
      → i ≢ j
      → get_elem? xs i ≡ some a
      → get_elem? xs j ≡ some b
      → w a + w b ≤ total xs
  unfolding total
  pair-le-total [] i j ne p q = absurd (ground arith)
  pair-le-total (x ∷ xs) zero zero ne p q = absurd (ne refl)
  pair-le-total (x ∷ xs) zero (suc j) ne p q = ground (arith, le-total xs j q)
  pair-le-total (x ∷ xs) (suc i) zero ne p q = ground (arith, le-total xs i p)
  pair-le-total (x ∷ xs) (suc i) (suc j) ne p q =
      omega (arith, pair-le-total xs i j (λ e. ne (ap suc e)) p q)

  pub total-le-length : ((a : A) → w a ≤ 1) → (xs : List A) → total xs ≤ length xs
  unfolding total
  total-le-length small [] = omega arith
  total-le-length small (x ∷ xs) = omega (arith, small x, total-le-length small xs)

  -- The others weigh less than the number of all.
  pub total_others :
      ((a : A) → w a ≤ 1)
      → (xs : List A) (i : ℕ) {a : A} → get_elem? xs i ≡ some a
      → total xs + 1 ≤ length xs + w a
  unfolding total
  total_others small [] i h = absurd (ground arith)
  total_others small (x ∷ xs) zero h = ground (arith, total-le-length small xs)
  total_others small (x ∷ xs) (suc i) h = omega (arith, small x, total_others small xs i h)

  pub total-replicate : (n : ℕ) (a : A) → w a ≡ 0 → total (replicate n a) ≡ 0
  unfolding total
  total-replicate zero a h = refl
  total-replicate (suc n) a h = omega (arith, total-replicate n a h)

-- A lighter weight gives a smaller total.
pub total_mono {ℓ} :
    {A : Type ℓ} (v w : A → ℕ) → ((a : A) → v a ≤ w a) → (xs : List A) → total v xs ≤ total w xs
unfolding total
total_mono v w h [] = omega arith
total_mono v w h (x ∷ xs) = omega (arith, h x, total_mono v w h xs)

pub total-add {ℓ} :
    {A : Type ℓ} (v w : A → ℕ) (xs : List A) → total (λ a. v a + w a) xs ≡ total v xs + total w xs
unfolding total
total-add v w [] = omega arith
total-add v w (x ∷ xs) = omega (arith, total-add v w xs)
