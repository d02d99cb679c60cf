-- ===== src/Base/Maps.antt =====
-- A Go map whose keys are numbers, as a list of its entries.
use Prim.Native.Nat.{ℕ}
use mathlib.Core.Path.{◌≡◌, refl, subst}
use mathlib.Core.Logic.{inl, inr}
use mathlib.Core.Bool.{true}
use mathlib.Core.List.{List, [], ◌∷◌}
use mathlib.Core.Option.{Option, none, some}
use native.Mathlib.Omega.{arith}
use clob.Base.Tests.{◌==◌, if◌then◌else◌, Bool-cases}

same_key : (j k : ℕ) → j == k ≡ true → j ≡ k
same_key j k h = ground arith

module _ {A : Type 0} where
  abbrev pub find_at : List (ℕ × A) → ℕ → Option A
  find_at [] k = none
  find_at ((j, a) ∷ xs) k = if j == k then some a else find_at xs k

  abbrev pub put_at : List (ℕ × A) → ℕ → A → List (ℕ × A)
  put_at [] k b = (k, b) ∷ []
  put_at ((j, a) ∷ xs) k b = if j == k then (k, b) ∷ xs else (j, a) ∷ put_at xs k b

  abbrev pub remove_at : List (ℕ × A) → ℕ → List (ℕ × A)
  remove_at [] k = []
  remove_at ((j, a) ∷ xs) k = if j == k then remove_at xs k else (j, a) ∷ remove_at xs k

  abbrev pub keys : List (ℕ × A) → List ℕ
  keys [] = []
  keys ((k, a) ∷ xs) = k ∷ keys xs

  pub find_at-put_at :
      (xs : List (ℕ × A)) (i j : ℕ) (b : A)
      → find_at (put_at xs i b) j ≡ (if i == j then some b else find_at xs j)
  find_at-put_at [] i j b = refl
  find_at-put_at ((k, a) ∷ xs) i j b = ground (arith, find_at-put_at xs i j b)

  pub find_at-remove_at :
      (xs : List (ℕ × A)) (i j : ℕ)
      → find_at (remove_at xs i) j ≡ (if i == j then none else find_at xs j)
  find_at-remove_at [] i j = ground arith
  find_at-remove_at ((k, a) ∷ xs) i j = ground (arith, find_at-remove_at xs i j)

  pub remove_at_missing : (xs : List (ℕ × A)) (i : ℕ) → find_at xs i ≡ none → remove_at xs i ≡ xs
  remove_at_missing [] i h = refl
  remove_at_missing ((k, a) ∷ xs) i h = ground (arith, remove_at_missing xs i)

  -- No key has two entries, and `P` holds of every entry.
  abbrev pub AllEntries : (ℕ → A → Type 0) → List (ℕ × A) → Type 0
  AllEntries P [] = Unit
  AllEntries P ((k, a) ∷ xs) = (find_at xs k ≡ none) × P k a × AllEntries P xs

  pub AllEntries-find_at :
      (P : ℕ → A → Type 0) (xs : List (ℕ × A)) (k : ℕ) (a : A)
      → AllEntries P xs
      → find_at xs k ≡ some a
      → P k a
  AllEntries-find_at P [] k a v h = ground arith
  AllEntries-find_at P ((j, b) ∷ xs) k a (u, p, v) h = elim (Bool-cases (j == k)) [
    | inl e ↦ subst (λ x. P x a) (same_key j k e) (subst (P j) (entry e) p)
    | inr e ↦ AllEntries-find_at P xs k a v (ground arith)
  ]
    where
      entry : j == k ≡ true → b ≡ a
      entry e = ground arith

  pub AllEntries-put_at :
      (P : ℕ → A → Type 0) (xs : List (ℕ × A)) (k : ℕ) (a : A)
      → AllEntries P xs
      → P k a
      → AllEntries P (put_at xs k a)
  AllEntries-put_at P [] k a v h = (refl, h, tt)
  AllEntries-put_at P ((j, b) ∷ xs) k a (u, p, v) h = elim (Bool-cases (j == k)) [
    | inl e ↦ rw e (subst (λ x. find_at xs x ≡ none) (same_key j k e) u, h, v)
    | inr e ↦ rw e (ground (arith, find_at-put_at xs k j a), p, AllEntries-put_at P xs k a v h)
  ]

  pub AllEntries-remove_at :
      (P : ℕ → A → Type 0) (xs : List (ℕ × A)) (k : ℕ)
      → AllEntries P xs
      → AllEntries P (remove_at xs k)
  AllEntries-remove_at P [] k v = tt
  AllEntries-remove_at P ((j, b) ∷ xs) k (u, p, v) = elim (Bool-cases (j == k)) [
    | inl e ↦ rw e (AllEntries-remove_at P xs k v)
    | inr e ↦ rw e (ground (arith, find_at-remove_at xs k j), p, AllEntries-remove_at P xs k v)
  ]
