-- ===== src/Processor/Log/Numbering.antt =====
-- engine/processor.go, `nextEventSeq`: the numbers of the events that a processor has sent.
use clob.Base.{
  ℕ, zero, suc, ◌+◌, ◌<◌, ◌^◌, ◌≡◌, arith, sym, ap, subst, ◌∙◌, List, [], ◌∷◌, Option, none, some,
  get_elem?,
}
use clob.Sequence.{Counter, next, advance, new_counter-advance}
use clob.Machine.{Machine}
use clob.BTree.{BTree}
use clob.Book.Level.{PriceLevel}
use clob.Book.Orders.{OrderBook}
use clob.StopBook.{StopLevel, StopBook}
use clob.Auction.{AuctionBook}
use clob.Circuit.{CircuitBreaker}
use clob.Events.{Event}
use clob.Processor.{Environment, Processor, new_processor}
use clob.Processor.Session.{Runs}
use clob.Processor.Log.{Numbered, Extends}
use clob.Processor.Log.Handlers.{Runs-Extends}

pub Numbered-get_elem? :
    (c d : Counter) (es : List Event) (k : ℕ) (e : Event)
    → Numbered c es d
    → get_elem? es k ≡ some e
    → e.seq_num ≡ (advance (suc k) c).n
unfolding advance
Numbered-get_elem? c d [] k e h i = ground arith
Numbered-get_elem? c d (x ∷ xs) zero e h i =
    sym (ap (λ o. elim o [ none ↦ x.seq_num | some y ↦ y.seq_num ]) i) ∙ h.0
Numbered-get_elem? c d (x ∷ xs) (suc k) e h i = Numbered-get_elem? (next c) d xs k e h.1 i

module _ {T S : Type 0} ⦃bt : BTree T PriceLevel⦄ ⦃st : BTree S StopLevel⦄ where
  -- Take a new processor and any sequence of turns of its loop, each a command, an expiry tick, the
  -- opening or the clearing of an auction. The event at position `k` of what has been sent has the
  -- number `initial_event_seq + k`, if the initial number is positive and the sum is below 2 ^ 64: no
  -- number is skipped, repeated or out of order.
  pub log_is_gapless :
      (env : Environment) (b : OrderBook T) (sb : StopBook S) (ab : Option AuctionBook)
      (breaker : Option CircuitBreaker) (machine : Machine) (q : Processor T S) (k : ℕ) (e : Event)
      → Runs env (new_processor b sb ab breaker machine) q
      → get_elem? q.events k ≡ some e
      → 0 < b.config.initial_event_seq
      → b.config.initial_event_seq + k < 2 ^ 64
      → e.seq_num ≡ b.config.initial_event_seq + k
  unfolding new_processor
  log_is_gapless env b sb ab breaker machine q k e rs at start fits =
      let p : Processor T S = new_processor b sb ab breaker machine in
      let v : Extends (λ _. Unit) p q = Runs-Extends (λ _. Unit) (λ _. tt) rs in
      Numbered-get_elem? p.event_seq q.event_seq v.added k e v.numbered
        (subst (λ es. get_elem? es k ≡ some e) v.appended at)
      ∙ new_counter-advance b.config.initial_event_seq k start fits
