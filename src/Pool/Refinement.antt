-- ===== src/Pool/Refinement.antt =====
-- The arrays of pool/pool.go and the stack of free slots.
use clob.Base.{
  ℕ, zero, suc, ◌+◌, ◌≤◌, ◌<◌, ◌≡◌, refl, ap, ◌∙◌, ◌-◌, List, [], ◌∷◌, Option, none, some, arith,
  set, get_or, length,
}
use native.Mathlib.Numerals.{towards_suc}
use mathlib.Core.Path.{ap₂}
use clob.Pool.{
  Pool, new, descending, ascending, new_slots, acquire, release, Slots, acquire_slot, release_slot,
}

-- The first `n` entries of an array, last first.
pub stack : ℕ → List ℕ → List ℕ
stack zero xs = []
stack (suc n) xs = get_or xs n 0 ∷ stack n xs

get_or-set_self : (xs : List ℕ) (i v : ℕ) → i < length xs → get_or (set xs i v) i 0 ≡ v
get_or-set_self [] i v h = elim h [ ]
get_or-set_self (x ∷ xs) zero v h = refl
get_or-set_self (x ∷ xs) (suc i) v h = get_or-set_self xs i v (omega arith)

get_or-set_above : (xs : List ℕ) (i j v : ℕ) → i < j → get_or (set xs j v) i 0 ≡ get_or xs i 0
get_or-set_above [] i j v h = refl
get_or-set_above (x ∷ xs) i zero v h = elim h [ ]
get_or-set_above (x ∷ xs) zero (suc j) v h = refl
get_or-set_above (x ∷ xs) (suc i) (suc j) v h = get_or-set_above xs i j v (omega arith)

stack-set_above : (n : ℕ) (xs : List ℕ) (j v : ℕ) → n ≤ j → stack n (set xs j v) ≡ stack n xs
unfolding stack
stack-set_above zero xs j v h = refl
stack-set_above (suc n) xs j v h =
    rw (get_or-set_above xs n j v h, stack-set_above n xs j v (omega arith))

stack-push :
    (n : ℕ) (xs : List ℕ) (v : ℕ) → n < length xs → stack (n + 1) (set xs n v) ≡ v ∷ stack n xs
stack-push n xs v h =
    simp towards_suc
      (unfold stack in rw (get_or-set_self xs n v h, stack-set_above n xs n v (omega arith)))

get_or-descending : (n i : ℕ) → i < n → get_or (descending n) i 0 ≡ n - suc i
unfolding descending
get_or-descending zero i h = omega arith
get_or-descending (suc n) zero h = omega arith
get_or-descending (suc n) (suc i) h = get_or-descending n i (omega arith) ∙ omega arith

stack-descending : (n k : ℕ) → k ≤ n → stack k (descending n) ≡ ascending (n - k) k
unfolding stack
stack-descending n zero h = refl
stack-descending n (suc k) h =
    ap₂ ◌∷◌ (get_or-descending n k (omega arith))
      (stack-descending n k (omega arith) ∙ ap (λ i. ascending i k) (omega arith))

module _ {A : Type 0} where
  pub slots : Pool A → Slots
  slots p = record { free_slots = stack p.top p.free; capacity = p.capacity }

  -- The free slots of a new pool are all its slots, 0 first.
  pub new-slots : (blank : A) (n : ℕ) → slots (new blank n) ≡ new_slots n
  unfolding slots new new_slots
  new-slots blank n =
      ap (λ l. record { free_slots = l; capacity = n })
        (stack-descending n n (omega arith) ∙ ap (λ i. ascending i n) (omega arith))

  -- The outcome of `acquire`, with the contents of the slots left out.
  abbrev pub seen : Option (ℕ × Pool A) → Option (ℕ × Slots)
  seen none = none
  seen (some (idx, p)) = some (idx, slots p)

  acquire_at :
      (blank : A) (n : ℕ) (p : Pool A) → p.top ≡ n → seen (acquire blank p) ≡ acquire_slot (slots p)
  unfolding acquire acquire_slot slots stack
  acquire_at blank zero p e = ground arith
  acquire_at blank (suc n) p e = ground arith

  -- `Acquire` on the arrays does what popping the stack of free slots does, the failure included.
  pub acquire-slots : (blank : A) (p : Pool A) → seen (acquire blank p) ≡ acquire_slot (slots p)
  acquire-slots blank p = acquire_at blank p.top p refl

  -- `Release` on the arrays does not panic and pushes the slot onto the stack of free slots, if the free
  -- slots are fewer than the entries of the array.
  pub release-slots :
      (idx : ℕ) (p : Pool A)
      → p.top < length p.free
      → (q : Pool A) × (release idx p ≡ some q) × (slots q ≡ release_slot idx (slots p))
  unfolding release release_slot slots
  release-slots idx p h = (
    record p { free = set p.free p.top idx; top = p.top + 1 },
    ground arith,
    rw (stack-push p.top p.free idx h),
  )
