-- ===== src/Machine/Lifecycle.antt =====
-- What a market may go through, by sequences of transitions.
use clob.Base.{◌≡◌, ◌⊎◌, List, [], ◌∷◌, true, some, arith}
use clob.Machine.{
  MarketState, pre_open, auction, open_state, halted, closed, can_transition, Machine, transition,
  can_match,
}

-- Runs of a machine: each step is a call of `Transition` that succeeds.
pub data Run : Machine → Machine → Type 0 where
  stay : (m : Machine) → Run m m
  move :
      (m n : Machine) (to : MarketState) (o : Machine)
      → transition m to ≡ some n
      → Run n o
      → Run m o

-- The states that the moves go to, in order.
unfoldable pub visited : (m n : Machine) → Run m n → List MarketState
visited _ _ (stay m) = []
visited _ _ (move m n to o e r) = to ∷ visited n o r

succeeds :
    (m n : Machine) (to : MarketState)
    → transition m to ≡ some n
    → (can_transition m.state to ≡ true) × (n.state ≡ to)
unfolding transition
succeeds m n to e = ground arith

-- A closed market that comes to match orders again, by whatever sequence of transitions, has moved
-- to PreOpen first.
pub reopening :
    (m o : Machine) (r : Run m o)
    → m.state ≡ closed
    → can_match o ≡ true
    → (rest : List MarketState) × (visited m o r ≡ pre_open ∷ rest)
unfolding visited can_match can_transition
reopening _ _ (stay m) e h = absurd (ground arith)
reopening _ _ (move m n to o step r) e h =
    let s = succeeds m n to step in (visited n o r, ground arith)

-- An open market that comes to hold an auction, by whatever sequence of transitions, has been
-- halted or closed first.
pub auction_after_open :
    (m o : Machine) (r : Run m o)
    → m.state ≡ open_state
    → o.state ≡ auction
    → (rest : List MarketState) × ((visited m o r ≡ halted ∷ rest)
        ⊎ (visited m o r ≡ closed ∷ rest))
unfolding visited can_transition
auction_after_open _ _ (stay m) e h = absurd (ground arith)
auction_after_open _ _ (move m n to o step r) e h =
    let s = succeeds m n to step in (visited n o r, ground arith)
