-- ===== src/Outcome.antt =====
-- Commands over a state that may fail: the outcomes of a call of src/arw and of
-- src/collections/atomic_hashmap.rs.

-- `fault` is a use of memory or of a value that is gone, `waits` a wait that nobody ends.
pub data Run {ℓ κ} (S : Type ℓ) (B : Type κ) : Type (ℓ ⊔ κ) where
  ok : B → S → Run S B
  panics : Run S B
  aborts : Run S B
  fault : Run S B
  waits : Run S B

abbrev pub Cmd {ℓ κ} : Type ℓ → Type κ → Type (ℓ ⊔ κ)
Cmd S B = S → Run S B

module _ {ℓ} {S : Type ℓ} where
  abbrev pub pure {κ} : {B : Type κ} → B → Cmd S B
  pure b s = ok b s

  abbrev pub and_then {κ ι} : {B : Type κ} {C : Type ι} → Run S B → (B → Cmd S C) → Run S C
  and_then (ok b s) k = k b s
  and_then panics k = panics
  and_then aborts k = aborts
  and_then fault k = fault
  and_then waits k = waits

  infixl 5 ◌>>=◌ ◌>>◌
  abbrev pub ◌>>=◌ {κ ι} : {B : Type κ} {C : Type ι} → Cmd S B → (B → Cmd S C) → Cmd S C
  ◌>>=◌ m k s = and_then (m s) k

  abbrev pub ◌>>◌ {κ ι} : {B : Type κ} {C : Type ι} → Cmd S B → Cmd S C → Cmd S C
  ◌>>◌ m n s = and_then (m s) (λ _. n)

  -- The run ends, with no panic, abort, fault or endless wait, in a result that satisfies `P`.
  pub data Returns {κ ι} {B : Type κ} (P : B → S → Type ι) : Run S B → Type (ℓ ⊔ κ ⊔ ι) where
    returns : {b : B} {s : S} → P b s → Returns P (ok b s)

  pub mono {κ ι θ} :
      {B : Type κ} {P : B → S → Type ι} {Q : B → S → Type θ} {r : Run S B}
      → Returns P r
      → ((b : B) (s : S) → P b s → Q b s)
      → Returns Q r
  mono (returns p) next = returns (next _ _ p)

  pub bind {κ ι θ χ} :
      {B : Type κ} {C : Type ι} {P : B → S → Type θ} {Q : C → S → Type χ} {r : Run S B}
      {k : B → Cmd S C}
      → Returns P r
      → ((b : B) (s : S) → P b s → Returns Q (k b s))
      → Returns Q (and_then r k)
  bind (returns p) next = next _ _ p
