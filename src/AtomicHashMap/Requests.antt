-- ===== src/AtomicHashMap/Requests.antt =====
-- Calls on a map of src/collections/atomic_hashmap.rs one after the other, and what they give to it.
use acar.Prelude.{ℕ, ◌+◌, ◌-◌, Option, none, some, List, [], ◌∷◌, if◌then◌else◌, leb}
use acar.Locking.{Locking}
use acar.Outcome.{pure, ◌>>=◌, ◌>>◌}
use acar.AtomicHashMap.Chain.{Key}
use acar.AtomicHashMap.{Call, insert, get, drop_ref, remove, clone, drop}

-- Calls on the map; `gets` drops its guard, and `drops` a handle that is not the last.
pub data Request (C V : Type 0) : Type 0 where
  inserts : C → V → Request C V
  gets : C → Request C V
  removes : C → Request C V
  clones : Request C V
  drops : Request C V

abbrev pub after : {C V : Type 0} → Request C V → ℕ → Option ℕ
after (inserts key value) c = some c
after (gets key) c = some c
after (removes key) c = some c
after clones c = some (c + 1)
after drops c = if leb c 1 then none else some (c - 1)

abbrev pub follow : Option ℕ → (ℕ → Option ℕ) → Option ℕ
follow none rest = none
follow (some c) rest = rest c

-- The number of handles after the requests; `none` if the last one would be dropped.
unfoldable pub handles : {C V : Type 0} → List (Request C V) → ℕ → Option ℕ
handles [] c = some c
handles (r ∷ rs) c = follow (after r c) (handles rs)

abbrev pub given : {C V : Type 0} → Request C V → List V → List V
given (inserts key value) vs = value ∷ vs
given _ vs = vs

-- The values that the requests give to the map.
unfoldable pub inserted : {C V : Type 0} → List (Request C V) → List V
inserted [] = []
inserted (r ∷ rs) = given r (inserted rs)

abbrev pub with_option : {V : Type 0} → Option V → List V → List V
with_option none vs = vs
with_option (some v) vs = v ∷ vs

module _ (K : Key) (L : Locking) {V : Type 0} where
  open L use {Lock}
  open K use {Carrier}

  -- The result is the value that a `remove` returns.
  unfoldable pub perform : Request Carrier V → Call K L V (Option V)
  perform (inserts key value) = do insert K L key value; pure none
  perform (gets key) = do (do o ← get K L key; drop_ref K L key o; pure o); pure none
  perform (removes key) = remove K L key
  perform clones = do clone K L; pure none
  perform drops = do drop K L; pure none

  unfoldable pub run : List (Request Carrier V) → Call K L V (List V)
  run [] = pure []
  run (r ∷ rs) = do o ← perform r; vs ← run rs; pure (with_option o vs)
