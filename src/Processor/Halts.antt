-- ===== src/Processor/Halts.antt =====
-- engine/processor.go, `processAdminHalt` and `processAdminResume`: what a halt leaves and what a resumption brings back.
use clob.Base.{◌≡◌, refl, ◌⊎◌, inl, inr, some}
use clob.Base.Int.{ℤ}
use clob.Auction.{AuctionBook}
use clob.Machine.{auction, halted, open_state, transition, can_transition}
use clob.Config.{halt_admin}
use clob.Events.{market_halted, market_resumed}
use clob.Processor.{Processor, emit, note_state, halt_market}
use clob.Processor.Session.{process_admin_halt, process_admin_resume}

module _ {T S : Type 0} where
  -- A halt and then a resumption by the administrator, in an open market or in one that holds an
  -- auction: the market is in the state it was in, the order book, the stop book, the auction book, the
  -- circuit breaker and the positions are the same, and two events were sent, the halt and the
  -- resumption.
  pub resume_undoes_halt :
      (t1 t2 : ℤ) (p : Processor T S)
      → (p.machine.state ≡ open_state) ⊎ (p.machine.state ≡ auction)
      → process_admin_resume t2 (process_admin_halt t1 p)
        ≡ emit t2
            (record (emit t1
              (record p { pre_halt_state = some p.machine.state })
              (market_halted halt_admin)) { machine = p.machine })
            market_resumed
  unfolding process_admin_resume process_admin_halt halt_market note_state transition can_transition
      emit
  resume_undoes_halt t1 t2 p (inl e) = rw e refl
  resume_undoes_halt t1 t2 p (inr e) = rw e refl

  -- A second halt forgets the auction that the first one interrupted. In an auction with an auction
  -- book, a halt and a resumption bring the auction back. Two halts and a resumption open the market:
  -- only two events were sent, a halt and the resumption, so that no clearing was announced; the orders
  -- of the auction still wait in its book; and nothing else has changed but that the market was noted
  -- as halted before its last halt.
  pub second_halt_forgets_auction :
      (t1 t2 t3 : ℤ) (p : Processor T S) (a : AuctionBook)
      → p.machine.state ≡ auction
      → p.auction_book ≡ some a
      → let twice = process_admin_resume t3 (process_admin_halt t2 (process_admin_halt t1 p)) in
        ((process_admin_resume t2 (process_admin_halt t1 p)).machine.state ≡ auction)
        × (twice
            ≡ emit t3
                (record (emit t1
                  (record p { pre_halt_state = some halted })
                  (market_halted halt_admin)) { machine = record { state = open_state } })
                market_resumed)
        × (twice.auction_book ≡ some a)
  unfolding process_admin_resume process_admin_halt halt_market note_state transition can_transition
      emit
  second_halt_forgets_auction t1 t2 t3 p a e h = (rw e refl, rw e refl, rw e h)
