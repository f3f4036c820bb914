-- ===== src/AtomicHashMap/Locks.antt =====
-- The locks of src/collections/atomic_hashmap.rs, `ref_locked` of a bucket and `lock` of the map, as the
-- calls of src/mutex/mutex.rs leave them: the state, and how many members have been let in and not been
-- counted out. `unlock_group` makes two accesses, the fetch_sub and, for the last member, the store of
-- DIRTY; the other calls are one access, which takes the lock if its state allows it.
use acar.Prelude.{ℕ, zero, suc, ◌+◌, ◌<◌, ◌≡◌, refl, Bool, true, false, if◌then◌else◌, arith}

pub data Lock : Type 0 where
  unlocked : Lock  -- UNLOCKED, or DIRTY with no member
  locked : Lock  -- LOCKED
  group : ℕ → Lock  -- LOCKED_GROUP with one member more
  emptied : Lock  -- LOCKED_GROUP with no member: DIRTY is still to be stored
  dirty : ℕ → Lock  -- DIRTY with one member more

-- `lock_exclusive` takes it.
abbrev pub is_free : Lock → Bool
is_free unlocked = true
is_free _ = false

-- `lock_group` waits, and `unlock_exclusive` does not panic.
abbrev pub is_exclusive : Lock → Bool
is_exclusive locked = true
is_exclusive _ = false

-- What `lock_group` makes of a lock for which it does not wait.
abbrev pub joined : Lock → Lock
joined unlocked = group 0
joined locked = locked
joined (group n) = group (suc n)
joined emptied = group 0
joined (dirty n) = group (suc n)

-- What the fetch_sub of `unlock_group` leaves; without a member it panics or wraps.
abbrev pub left : Lock → Lock
left unlocked = unlocked
left locked = locked
left (group zero) = emptied
left (group (suc n)) = group n
left emptied = emptied
left (dirty zero) = unlocked
left (dirty (suc n)) = dirty n

abbrev pub members : Lock → ℕ
members (group n) = suc n
members (dirty n) = suc n
members _ = 0

abbrev pub has_member : Lock → Bool
has_member (group n) = true
has_member (dirty n) = true
has_member _ = false

abbrev pub is_last : Lock → Bool
is_last (group zero) = true
is_last (dirty zero) = true
is_last _ = false

-- The store of DIRTY, whatever the state is.
abbrev pub stored : Lock → Lock
stored (group n) = dirty n
stored (dirty n) = dirty n
stored _ = unlocked

-- 1 for LOCKED; for a store of DIRTY that is still to come; for DIRTY with members.
abbrev pub owners : Lock → ℕ
owners locked = 1
owners _ = 0

abbrev pub emptying : Lock → ℕ
emptying emptied = 1
emptying _ = 0

abbrev pub dirt : Lock → ℕ
dirt (dirty n) = 1
dirt _ = 0

-- How a lock stands with `g` members, `e` owners and `c` threads that are to store DIRTY.
pub record Stands (h : Lock) (g e c : ℕ) : Type 0 where
  pub readers : g ≡ members h
  pub owner : e ≡ owners h
  pub closing : c ≡ emptying h
  pub clean : dirt h ≡ 0

module _ {g e c : ℕ} where
  pub free_lem : (h : Lock) → is_free h ≡ true → Stands h g e c → (g ≡ 0) × (e ≡ 0) × (c ≡ 0)
  free_lem unlocked f s = (s.readers, s.owner, s.closing)
  free_lem locked f s = absurd (ground arith)
  free_lem (group n) f s = absurd (ground arith)
  free_lem emptied f s = absurd (ground arith)
  free_lem (dirty n) f s = absurd (ground arith)

  pub taken_lem : (h : Lock) → is_free h ≡ true → Stands h g e c → Stands locked g (e + 1) c
  taken_lem h f s =
      let (m, o, z) = free_lem h f s in
      record { readers = m; owner = omega (arith, o); closing = z; clean = refl }

  pub joined_lem :
      (h : Lock)
      → is_exclusive h ≡ false
      → emptying h ≡ 0
      → Stands h g e c
      → Stands (joined h) (g + 1) e c
  joined_lem unlocked f q s = ground arith
  joined_lem locked f q s = absurd (ground arith)
  joined_lem (group n) f q s = ground arith
  joined_lem emptied f q s = absurd (ground arith)
  joined_lem (dirty n) f q s = absurd (ground arith)

  -- A member leaves, and stores DIRTY next if it was the last.
  pub left_lem :
      (h : Lock)
      → Stands h (g + 1) e c
      → (has_member h ≡ true) × Stands (left h) g e (c + (if is_last h then 1 else 0))
  left_lem unlocked s = absurd (let r = s.readers in omega (arith, r))
  left_lem locked s = absurd (let r = s.readers in omega (arith, r))
  left_lem (group zero) s = (refl, ground arith)
  left_lem (group (suc n)) s = (refl, ground arith)
  left_lem emptied s = absurd (let r = s.readers in omega (arith, r))
  left_lem (dirty n) s = absurd (let r = s.clean in omega (arith, r))

  pub stored_lem : (h : Lock) → Stands h g e (c + 1) → Stands (stored h) g e c
  stored_lem unlocked s = absurd (let r = s.closing in omega (arith, r))
  stored_lem locked s = absurd (let r = s.closing in omega (arith, r))
  stored_lem (group n) s = absurd (let r = s.closing in omega (arith, r))
  stored_lem emptied s = ground arith
  stored_lem (dirty n) s = absurd (let r = s.closing in omega (arith, r))

  pub owned_lem :
      (h : Lock) → Stands h g e c → 0 < e → (is_exclusive h ≡ true) × (g ≡ 0) × (e ≡ 1) × (c ≡ 0)
  owned_lem unlocked s p = absurd (let r = s.owner in omega (arith, r, p))
  owned_lem locked s p = (refl, s.readers, s.owner, s.closing)
  owned_lem (group n) s p = absurd (let r = s.owner in omega (arith, r, p))
  owned_lem emptied s p = absurd (let r = s.owner in omega (arith, r, p))
  owned_lem (dirty n) s p = absurd (let r = s.owner in omega (arith, r, p))

  -- An owner gives the lock back.
  pub given_lem :
      (h : Lock)
      → Stands h g (e + 1) c
      → (is_exclusive h ≡ true) × (g ≡ 0) × (e ≡ 0) × Stands unlocked g e c
  given_lem unlocked s = absurd (let r = s.owner in omega (arith, r))
  given_lem locked s =
      let r = s.owner in
      let none : e ≡ 0 = omega (arith, r) in
      (
        refl,
        s.readers,
        none,
        record { readers = s.readers; owner = none; closing = s.closing; clean = refl },
      )
  given_lem (group n) s = absurd (let r = s.owner in omega (arith, r))
  given_lem emptied s = absurd (let r = s.owner in omega (arith, r))
  given_lem (dirty n) s = absurd (let r = s.owner in omega (arith, r))

  pub none_lem : (h : Lock) → Stands h g e c → g + e + c ≡ 0 → is_free h ≡ true
  none_lem unlocked s z = refl
  none_lem locked s z = absurd (let r = s.owner in omega (arith, r, z))
  none_lem (group n) s z = absurd (let r = s.readers in omega (arith, r, z))
  none_lem emptied s z = absurd (let r = s.closing in omega (arith, r, z))
  none_lem (dirty n) s z = absurd (let r = s.clean in omega (arith, r))

pub Stands-eq :
    {h : Lock} {g e c g' e' c' : ℕ} → Stands h g e c → g ≡ g' → e ≡ e' → c ≡ c' → Stands h g' e' c'
Stands-eq s x y z = rw (← x, ← y, ← z) s
