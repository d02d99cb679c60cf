-- ===== src/Tests/Orders.antt =====
-- Runs of the properties of book/ at concrete inputs.
use clob.Base.{
  ℕ, ◌+◌, ◌++◌, suc, ◌*◌, ◌/◌, ◌^◌, ◌≤◌, ◌<◌, ◌≡◌, refl, ◌↔◌, ◌⊎◌, inl, inr, List, [], ◌∷◌, Bool,
  true, false, arith, All, Option, none, some, if◌then◌else◌, ◌>>=◌, head?, ◌==◌,
}
use clob.Base.Int.{min_ℤ, ℤ, pos, ◌≤ℤ◌, signed}
use clob.Types.{ask}
use clob.Pool.{release_slot}
use clob.Book.Node.{rejected}
use clob.Book.Level.{PriceLevel, append, unlink, decrement_qty, replenish_iceberg}
use clob.Book.Level.Laws.{
  IsLevel, append-IsLevel, unlink-IsLevel, decrement_qty-IsLevel, replenish_iceberg-IsLevel,
}
use clob.Book.Tree.{PriceLevelTree, side_less}
use clob.Book.Match.Invariant.{IsResting, IsFair, accepts, qty_sum}
use clob.Book.Orders.{OrderBook, Outcome, match}
use clob.Book.Orders.Priority.{fills_by_priority}
use clob.Book.Match.Turns.{makers}
use clob.Book.Orders.Placement.{IsReady, match_returns, match_uncrossed}
use clob.Tests.{
  ListTree, list_btree, list_laws, order, iceberg_order, first_level, second_level, book, taker,
}

book-IsReady : IsReady book taker
unfolding side_less
book-IsReady = record {
  tree = record { order = refl; ascending = (refl, tt); counted = refl };
  stocked = (
    (
      record {
        remains = omega arith;
        bounded = omega arith;
        hidden = omega arith;
        hidden_bounded = omega arith;
        slice = inr (omega arith);
      },
      tt,
    ),
    (
      (
        record {
          remains = omega arith;
          bounded = omega arith;
          hidden = omega arith;
          hidden_bounded = omega arith;
          slice = inl (omega arith);
        },
        tt,
      ),
      tt,
    ),
  );
  named = ((tt, tt), ((tt, tt), tt));
  market_named = tt;
  taker_named = tt;
  open_qty = omega arith;
  open_bounded = omega arith;
}

match_returns_example :
    (o : Outcome ListTree) × (match book taker ≡ some o)
    × All (IsFair taker) o.fills
    × (qty_sum o.fills ≤ℤ pos 8)
match_returns_example = match_returns list_laws book taker book-IsReady

unfoldable outcome : Outcome ListTree
unfolding match
outcome = elim (match book taker) [
  | some o ↦ o
  | none ↦ record { fills = []; cancels = []; disposition = rejected; book = book }
]

match_uncrossed_example : accepts taker (pos 101) ≡ false
unfolding outcome match side_less clob.Book.Tree.best clob.Book.Match.sweep_level
    clob.Book.Match.visit clob.Book.Level.decremented clob.Base.Int.sub64 clob.Base.Int.int64
    clob.Base.Int.◌-ℤ◌ unlink decrement_qty clob.Book.Match.leave release_slot
match_uncrossed_example =
    match_uncrossed list_laws book taker book-IsReady outcome refl refl second_level refl

first_level-IsLevel : IsLevel first_level
unfolding clob.Base.Int.int64 clob.Base.Int.◌+ℤ◌
first_level-IsLevel = record { total = refl; display = refl; count = refl }

second_level-IsLevel : IsLevel second_level
unfolding clob.Base.Int.int64 clob.Base.Int.◌+ℤ◌
second_level-IsLevel = record { total = refl; display = refl; count = refl }

append-IsLevel_example : IsLevel (append first_level (order 4 9 (pos 100) (pos 3)))
append-IsLevel_example = append-IsLevel (order 4 9 (pos 100) (pos 3)) first_level-IsLevel

unlink-IsLevel_example : IsLevel (unlink first_level (order 1 7 (pos 100) (pos 5)))
unlink-IsLevel_example = unlink-IsLevel (order 1 7 (pos 100) (pos 5)) refl first_level-IsLevel

decrement_qty-IsLevel_example : IsLevel (decrement_qty second_level iceberg_order (pos 5))
decrement_qty-IsLevel_example =
    decrement_qty-IsLevel iceberg_order (pos 5) refl second_level-IsLevel

replenish_iceberg-IsLevel_example : IsLevel (replenish_iceberg second_level iceberg_order 3)
replenish_iceberg-IsLevel_example =
    replenish_iceberg-IsLevel iceberg_order 3 refl second_level-IsLevel

-- Two orders at 100, and one at 101.
abbrev crowded_level : PriceLevel
crowded_level = record first_level {
  total_qty = pos 8;
  display_qty = pos 8;
  order_count = 2;
  queue = order 1 7 (pos 100) (pos 5) ∷ order 4 8 (pos 100) (pos 3) ∷ [];
}

abbrev last_level : PriceLevel
last_level = record second_level { queue = order 2 7 (pos 101) (pos 5) ∷ [] }

abbrev crowded_book : OrderBook ListTree
crowded_book = record book {
  asks = record { tree = (side_less ask, crowded_level ∷ last_level ∷ []); side = ask; count = 2 };
}

crowded_book-IsReady : IsReady crowded_book taker
unfolding side_less
crowded_book-IsReady =
    let rests : (i u p q : ℕ) → 1 ≤ q → q ≤ 9 → IsResting (order i u (pos p) (pos q)) =
      λ i u p q l h. record {
        remains = ground arith;
        bounded = omega arith;
        hidden = omega arith;
        hidden_bounded = omega arith;
        slice = inr (omega arith);
      } in
    record {
      tree = record { order = refl; ascending = (refl, tt); counted = refl };
      stocked = (
        (
          rests 1 7 100 5 (omega arith) (omega arith),
          (rests 4 8 100 3 (omega arith) (omega arith), tt),
        ),
        ((rests 2 7 101 5 (omega arith) (omega arith), tt), tt),
      );
      named = ((tt, (tt, tt)), ((tt, tt), tt));
      market_named = tt;
      taker_named = tt;
      open_qty = omega arith;
      open_bounded = omega arith;
    }

fills_by_priority_example :
    (o : Outcome ListTree) × (match crowded_book taker ≡ some o)
    × ((later : List ℕ) × (1 ∷ 4 ∷ 2 ∷ [] ≡ makers o.fills ++ later))
fills_by_priority_example =
    fills_by_priority list_laws crowded_book taker crowded_book-IsReady
      (((refl, refl), ((refl, refl), tt)), (((refl, refl), tt), tt))

crowded_makers :
    elim (match crowded_book taker) [ some o ↦ makers o.fills | none ↦ [] ] ≡ 1 ∷ 4 ∷ []
unfolding match clob.Book.Tree.best clob.Book.Match.sweep_level clob.Book.Match.visit
    clob.Book.Level.decremented clob.Base.Int.sub64 clob.Base.Int.int64 clob.Base.Int.◌-ℤ◌ unlink
    decrement_qty clob.Book.Match.leave
crowded_makers = refl
