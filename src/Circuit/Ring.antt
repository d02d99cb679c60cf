-- ===== src/Circuit/Ring.antt =====
-- circuit/window.go: the buffer of the rolling window, written round and round, and the list of samples
-- that it stands for.
use clob.Base.{
  ℕ, zero, suc, ◌+◌, ◌-◌, ◌%◌, ◌≤◌, ◌<◌, ◌≡◌, List, [], ◌∷◌, Option, none, some, ltb, ◌==◌,
  if◌then◌else◌, set, get_or, replicate, length,
}
use clob.Base.Int.{ℤ, pos, leb_ℤ, sub64}
use clob.Types.Decimal.{Decimal}
use clob.Circuit.{PriceSample, RollingWindow, max_samples}

pub record RingWindow : Type 0 where
  pub buffer : List PriceSample
  pub head : ℕ
  pub size : ℕ
  pub duration : ℤ

-- The zero value of a sample.
abbrev pub no_sample : PriceSample
no_sample = record { price = record { value = pos 0; precision = 0 }; timestamp = pos 0 }

unfoldable pub new_ring : ℤ → RingWindow
new_ring duration = record {
  buffer = replicate max_samples no_sample;
  head = 0;
  size = 0;
  duration = duration;
}

-- `(w.head - n + maxSamples) % maxSamples`, for an `n` up to the number of samples.
abbrev pub slot_back : ℕ → ℕ → ℕ
slot_back head n = (head + max_samples - n) % max_samples

-- The loop of `Add` on the size.
unfoldable pub evict_ring : List PriceSample → ℕ → ℤ → ℕ → ℕ
evict_ring buffer head cutoff zero = zero
evict_ring buffer head cutoff (suc n) =
    let rest = evict_ring buffer head cutoff n in
    if leb_ℤ cutoff (get_or buffer (slot_back head (suc n)) no_sample).timestamp
    then suc n
    else rest

unfoldable pub ring_add : RingWindow → Decimal → ℤ → RingWindow
unfolding evict_ring
ring_add w price now =
    let buffer = set w.buffer w.head (record { price = price; timestamp = now }) in
    let head = (w.head + 1) % max_samples in
    let size = if ltb w.size max_samples then w.size + 1 else w.size in
    record w {
      buffer = buffer;
      head = head;
      size = evict_ring buffer head (sub64 now w.duration) size;
    }

unfoldable pub ring_oldest : RingWindow → Option Decimal
ring_oldest w =
    if w.size == 0 then none else some (get_or w.buffer (slot_back w.head w.size) no_sample).price

unfoldable pub ring_newest : RingWindow → Option Decimal
ring_newest w =
    if w.size == 0 then none else some (get_or w.buffer (slot_back w.head 1) no_sample).price

unfoldable pub ring_reset : RingWindow → RingWindow
ring_reset w = record w { head = 0; size = 0 }

-- The `n` samples before `head`, oldest first.
abbrev pub held : List PriceSample → ℕ → ℕ → List PriceSample
held buffer head zero = []
held buffer head (suc n) = get_or buffer (slot_back head (suc n)) no_sample ∷ held buffer head n

pub record IsRing (w : RingWindow) : Type 0 where
  pub full_buffer : length w.buffer ≡ max_samples
  pub head_inside : w.head < max_samples
  pub size_inside : w.size ≤ max_samples

unfoldable pub contents : RingWindow → RollingWindow
contents w = record { samples = held w.buffer w.head w.size; duration = w.duration }
