-- ===== src/Sequence.antt =====
-- sequence/counter.go: a counter of type uint64.
use clob.Base.{ℕ, zero, suc, ◌+◌, ◌-◌, ◌%◌, ◌^◌, ◌<◌, ◌≡◌, ◌∙◌, arith}

pub record Counter : Type 0 where
  pub n : ℕ

-- `start - 1` wraps around at 0.
unfoldable pub new_counter : ℕ → Counter
new_counter start = record { n = (start + 2 ^ 64 - 1) % 2 ^ 64 }

-- `Next`: the counter after the call; the value it returns is the new `n`.
unfoldable pub next : Counter → Counter
next c = record { n = (c.n + 1) % 2 ^ 64 }

-- `Peek`
unfoldable pub peek : Counter → ℕ
peek c = c.n

-- `Reset`
unfoldable pub reset_counter : ℕ → Counter → Counter
reset_counter v c = record c { n = v }

-- `k` calls of `Next`.
unfoldable pub advance : ℕ → Counter → Counter
advance zero c = c
advance (suc k) c = advance k (next c)

advance_value : (k : ℕ) (c : Counter) → c.n + k < 2 ^ 64 → (advance k c).n ≡ c.n + k
unfolding advance next
advance_value zero c h = omega arith
advance_value (suc k) c h = advance_value k (next c) (omega arith) ∙ omega arith

-- A counter made with `start` gives `start + k` as the value of its call number k + 1, if `start` is
-- positive and `start + k` is below 2 ^ 64.
pub new_counter-advance :
    (start k : ℕ)
    → 0 < start
    → start + k < 2 ^ 64
    → (advance (suc k) (new_counter start)).n ≡ start + k
unfolding new_counter
new_counter-advance start k h fits =
    advance_value (suc k) (new_counter start) (omega arith) ∙ omega arith
