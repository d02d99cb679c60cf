-- ===== src/Circuit/Refinement.antt =====
-- circuit/window.go: the buffer shows what the list of samples shows.
use clob.Base.{
  ℕ, zero, suc, ◌+◌, ◌%◌, ◌≤◌, ◌<◌, ◌≡◌, ◌≢◌, refl, sym, ap, subst, ◌∙◌, List, [], ◌∷◌, ◌++◌, none,
  some, ltb, ◌==◌, if◌then◌else◌, arith, set, get_or, replicate, length, Bool-cases, ltb→lt, inl,
  inr,
}
use mathlib.Core.Path.{ap₂}
use clob.Base.Int.{ℤ, sub64}
use clob.Types.Decimal.{Decimal}
use clob.Circuit.{
  PriceSample, RollingWindow, max_samples, new_rolling_window, evict, without_oldest, add_sample,
  oldest_price, last_price, newest_price, window_len, reset,
}
use clob.Circuit.Ring.{
  RingWindow, no_sample, new_ring, slot_back, evict_ring, ring_add, ring_oldest, ring_newest,
  ring_reset, held, IsRing, contents,
}

length-held : (b : List PriceSample) (h n : ℕ) → length (held b h n) ≡ n
length-held b h zero = refl
length-held b h (suc n) = ap suc (length-held b h n)

module _ {A : Type 0} where
  length-set : (xs : List A) (i : ℕ) (v : A) → length (set xs i v) ≡ length xs
  length-set [] i v = refl
  length-set (x ∷ xs) zero v = refl
  length-set (x ∷ xs) (suc i) v = ap suc (length-set xs i v)

  length-replicate : (n : ℕ) (a : A) → length (replicate n a) ≡ n
  length-replicate zero a = refl
  length-replicate (suc n) a = ap suc (length-replicate n a)

  get_or-set_same : (xs : List A) (i : ℕ) (v d : A) → i < length xs → get_or (set xs i v) i d ≡ v
  get_or-set_same [] i v d h = ground arith
  get_or-set_same (x ∷ xs) zero v d h = refl
  get_or-set_same (x ∷ xs) (suc i) v d h = get_or-set_same xs i v d (omega arith)

  get_or-set_other :
      (xs : List A) (i j : ℕ) (v d : A) → i ≢ j → get_or (set xs i v) j d ≡ get_or xs j d
  get_or-set_other [] i j v d h = refl
  get_or-set_other (x ∷ xs) zero zero v d h = absurd (h refl)
  get_or-set_other (x ∷ xs) zero (suc j) v d h = refl
  get_or-set_other (x ∷ xs) (suc i) zero v d h = refl
  get_or-set_other (x ∷ xs) (suc i) (suc j) v d h = get_or-set_other xs i j v d (λ e. h (ap suc e))

newest_slot : (h : ℕ) → h < max_samples → slot_back ((h + 1) % max_samples) 1 ≡ h
newest_slot h k = omega arith

slot_moves :
    (h n : ℕ)
    → h < max_samples
    → suc n < max_samples
    → slot_back ((h + 1) % max_samples) (suc (suc n)) ≡ slot_back h (suc n)
slot_moves h n k m = omega arith

not_head : (h n : ℕ) → h < max_samples → suc n < max_samples → h ≢ slot_back h (suc n)
not_head h n k m e = omega (arith, e)

-- A write at the head, which then goes one on, puts the sample behind those that are held.
held-set :
    (b : List PriceSample) (h n : ℕ) (x : PriceSample)
    → length b ≡ max_samples
    → h < max_samples
    → n < max_samples
    → held (set b h x) ((h + 1) % max_samples) (suc n) ≡ held b h n ++ x ∷ []
held-set b h zero x l k m =
    rw (newest_slot h k) (ap (λ y. y ∷ []) (get_or-set_same b h x no_sample (omega (arith, l))))
held-set b h (suc n) x l k m = rw (slot_moves h n k m) (
    ap₂ ◌∷◌ (get_or-set_other b h (slot_back h (suc n)) x no_sample (not_head h n k m))
      (held-set b h n x l k (omega arith)))

evict-held :
    (b : List PriceSample) (h : ℕ) (cutoff : ℤ) (n : ℕ)
    → evict cutoff (held b h n) ≡ held b h (evict_ring b h cutoff n)
unfolding evict evict_ring
evict-held b h cutoff zero = refl
evict-held b h cutoff (suc n) = ground (arith, evict-held b h cutoff n)

abbrev next_size : ℕ → ℕ
next_size n = if ltb n max_samples then n + 1 else n

next_size_inside : (n : ℕ) → n ≤ max_samples → next_size n ≤ max_samples
next_size_inside n h = ground arith

-- `Add` keeps the buffer, its head and its size within their bounds.
evict_ring_smaller :
    (b : List PriceSample) (h : ℕ) (cutoff : ℤ) (n : ℕ) → evict_ring b h cutoff n ≤ n
unfolding evict_ring
evict_ring_smaller b h cutoff zero = omega arith
evict_ring_smaller b h cutoff (suc n) = ground (arith, evict_ring_smaller b h cutoff n)

pub ring_add-IsRing :
    (w : RingWindow) (price : Decimal) (now : ℤ) → IsRing w → IsRing (ring_add w price now)
unfolding ring_add
ring_add-IsRing w price now v = record {
  full_buffer = length-set w.buffer w.head _ ∙ v.full_buffer;
  head_inside = omega arith;
  size_inside = omega (
    arith,
    next_size_inside w.size v.size_inside,
    evict_ring_smaller (set w.buffer w.head (record { price = price; timestamp = now }))
        ((w.head + 1) % max_samples) (sub64 now w.duration) (next_size w.size),
  );
}

full :
    (b : List PriceSample) (h n j : ℕ) (x : PriceSample)
    → length b ≡ max_samples
    → h < max_samples
    → j < max_samples
    → n ≡ suc j
    → held (set b h x) ((h + 1) % max_samples) n ≡ without_oldest (held b h n) ++ x ∷ []
full b h n j x l k m e = rw e (held-set b h j x l k m)

-- What a call of `Add` holds before it evicts.
added :
    (b : List PriceSample) (h n : ℕ) (x : PriceSample)
    → length b ≡ max_samples
    → h < max_samples
    → n ≤ max_samples
    → held (set b h x) ((h + 1) % max_samples) (next_size n)
      ≡ (if ltb (length (held b h n)) max_samples then held b h n else without_oldest (held b h n))
        ++ x ∷ []
added b h n x l k m = elim (Bool-cases (ltb n max_samples)) [
  | inl e ↦
      rw (length-held b h n, e)
        (ap (held (set b h x) ((h + 1) % max_samples)) {x = n + 1} {y = suc n} (omega arith)
          ∙ held-set b h n x l k (omega (arith, ltb→lt n max_samples e)))
  | inr e ↦ rw (length-held b h n, e) (full b h n 9999 x l k (omega arith) (ground (arith, m, e)))
]

pub ring_add-contents :
    (w : RingWindow) (price : Decimal) (now : ℤ)
    → IsRing w
    → contents (ring_add w price now) ≡ add_sample (contents w) price now
unfolding ring_add contents add_sample
ring_add-contents w price now v =
    let x : PriceSample = record { price = price; timestamp = now } in
    let cutoff = sub64 now w.duration in
    ap (λ s. record { samples = s; duration = w.duration })
      (sym (
          evict-held (set w.buffer w.head x) ((w.head + 1) % max_samples) cutoff (next_size w.size))
        ∙ ap (evict cutoff)
            (added w.buffer w.head w.size x v.full_buffer v.head_inside v.size_inside))

reset-IsRing : (w : RingWindow) → IsRing w → IsRing (ring_reset w)
unfolding ring_reset
reset-IsRing w v = record {
  full_buffer = v.full_buffer;
  head_inside = omega arith;
  size_inside = omega arith;
}

pub ring_reset-contents : (w : RingWindow) → contents (ring_reset w) ≡ reset (contents w)
unfolding ring_reset contents reset
ring_reset-contents w = refl

oldest_at :
    (b : List PriceSample) (h n : ℕ) (d : ℤ)
    → (if n == 0 then none else some (get_or b (slot_back h n) no_sample).price)
      ≡ oldest_price (record { samples = held b h n; duration = d })
unfolding oldest_price
oldest_at b h zero d = refl
oldest_at b h (suc n) d = ground arith

last-held :
    (b : List PriceSample) (h n : ℕ)
    → last_price (held b h (suc n)) ≡ some (get_or b (slot_back h 1) no_sample).price
last-held b h zero = refl
last-held b h (suc n) = last-held b h n

newest_at :
    (b : List PriceSample) (h n : ℕ)
    → (if n == 0 then none else some (get_or b (slot_back h 1) no_sample).price)
      ≡ last_price (held b h n)
newest_at b h zero = refl
newest_at b h (suc n) = ground (arith, last-held b h n)

-- The calls of a window that change it.
pub data WindowCall : Type 0 where
  add_call : Decimal → ℤ → WindowCall
  reset_call : WindowCall

unfoldable pub ring_after : List WindowCall → RingWindow → RingWindow
unfolding ring_add ring_reset
ring_after [] w = w
ring_after (add_call price now ∷ cs) w = ring_after cs (ring_add w price now)
ring_after (reset_call ∷ cs) w = ring_after cs (ring_reset w)

unfoldable pub window_after : List WindowCall → RollingWindow → RollingWindow
unfolding add_sample reset
window_after [] w = w
window_after (add_call price now ∷ cs) w = window_after cs (add_sample w price now)
window_after (reset_call ∷ cs) w = window_after cs (reset w)

after_calls :
    (cs : List WindowCall) (w : RingWindow)
    → IsRing w
    → contents (ring_after cs w) ≡ window_after cs (contents w)
unfolding ring_after window_after
after_calls [] w v = refl
after_calls (add_call price now ∷ cs) w v =
    after_calls cs (ring_add w price now) (ring_add-IsRing w price now v)
    ∙ ap (window_after cs) (ring_add-contents w price now v)
after_calls (reset_call ∷ cs) w v =
    after_calls cs (ring_reset w) (reset-IsRing w v) ∙ ap (window_after cs) (ring_reset-contents w)

-- What can be read of the buffer is what can be read of the list that it stands for.
pub record IsSeenAs (r : RingWindow) (w : RollingWindow) : Type 0 where
  pub oldest : ring_oldest r ≡ oldest_price w
  pub newest : ring_newest r ≡ newest_price w
  pub len : r.size ≡ window_len w

contents-IsSeenAs : (r : RingWindow) → IsSeenAs r (contents r)
unfolding contents ring_oldest ring_newest newest_price window_len
contents-IsSeenAs r = record {
  oldest = oldest_at r.buffer r.head r.size r.duration;
  newest = newest_at r.buffer r.head r.size;
  len = sym (length-held r.buffer r.head r.size);
}

new_ring-IsRing : (d : ℤ) → IsRing (new_ring d)
unfolding new_ring
new_ring-IsRing d = record {
  full_buffer = length-replicate max_samples no_sample;
  head_inside = omega arith;
  size_inside = omega arith;
}

new_ring-contents : (d : ℤ) → contents (new_ring d) ≡ new_rolling_window d
unfolding contents new_ring new_rolling_window
new_ring-contents d = refl

-- After any calls of Add and Reset, at any times, the buffer with its head and its size shows the same
-- oldest price, the same newest price and the same number of samples as the list of samples on which
-- the same calls were made: a new sample behind the others, the oldest dropped if there are
-- maxSamples, and those before the cutoff dropped from the front.
pub ring_is_window :
    (d : ℤ) (cs : List WindowCall)
    → IsSeenAs (ring_after cs (new_ring d)) (window_after cs (new_rolling_window d))
ring_is_window d cs =
    subst (IsSeenAs (ring_after cs (new_ring d)))
      (after_calls cs (new_ring d) (new_ring-IsRing d) ∙ ap (window_after cs) (new_ring-contents d))
      (contents-IsSeenAs (ring_after cs (new_ring d)))
