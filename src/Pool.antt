-- ===== src/Pool.antt =====
-- pool/pool.go: a pool of a fixed number of slots, as the arrays of the source and as the stack
-- of free slots that the book and the stop book see.
pub mod Refinement
use clob.Base.{
  ℕ, zero, suc, ◌+◌, ◌-◌, List, [], ◌∷◌, Option, none, some, Bool, leb, ltb, ◌==◌, if◌then◌else◌,
  set, get_or, replicate, length,
}

-- `store` and `free` are arrays of `capacity` entries; the free slots are `free[0]` up to `top`.
pub record Pool (A : Type 0) : Type 0 where
  pub store : List A
  pub free : List ℕ
  pub top : ℕ
  pub capacity : ℕ

-- capacity - 1 down to 0
unfoldable pub descending : ℕ → List ℕ
descending zero = []
descending (suc n) = n ∷ descending n

module _ {A : Type 0} where
  unfoldable pub new : A → ℕ → Pool A
  unfolding descending
  new blank capacity = record {
    store = replicate capacity blank;
    free = descending capacity;
    top = capacity;
    capacity = capacity;
  }

  -- The slot's index and the pool after the call, or `none` for ErrPoolExhausted. An entry of `free`
  -- that is no index of the arrays, which only a wrong call of Release leaves, panics in the source;
  -- here it is given out, and no slot is zeroed.
  unfoldable pub acquire : A → Pool A → Option (ℕ × Pool A)
  acquire blank p =
      let idx = get_or p.free (p.top - 1) 0 in
      if p.top == 0
      then none
      else some (idx, record p { top = p.top - 1; store = set p.store idx blank })

  -- `none` is the panic of a write past the end of `free`.
  unfoldable pub release : ℕ → Pool A → Option (Pool A)
  release idx p =
      if ltb p.top (length p.free)
      then some (record p { free = set p.free p.top idx; top = p.top + 1 })
      else none

-- The `n` numbers from `i` on.
abbrev pub ascending : ℕ → ℕ → List ℕ
ascending i zero = []
ascending i (suc n) = i ∷ ascending (suc i) n

-- What is left of a pool without the contents of its slots: the stack of the free ones, top first.
pub record Slots : Type 0 where
  pub free_slots : List ℕ
  pub capacity : ℕ

unfoldable pub acquire_slot : Slots → Option (ℕ × Slots)
acquire_slot s = elim s.free_slots [
  | [] ↦ none
  | idx ∷ rest ↦ some (idx, record s { free_slots = rest })
]

unfoldable pub release_slot : ℕ → Slots → Slots
release_slot idx s = record s { free_slots = idx ∷ s.free_slots }

-- The slots of a new pool: 0 comes first.
unfoldable pub new_slots : ℕ → Slots
new_slots n = record { free_slots = ascending 0 n; capacity = n }

-- `Len`
unfoldable pub used_slots : Slots → ℕ
used_slots s = s.capacity - length s.free_slots

-- `Len() >= Capacity()`
unfoldable pub is_full : Slots → Bool
is_full s = leb s.capacity (s.capacity - length s.free_slots)
