-- ===== src/Lib.antt =====
-- The matching core of the order book engine, with the processor that drives it and the engines that
-- run it.
--
-- The engine runs one goroutine per market. A command reaches the processor (engine/processor.go),
-- which validates an order against the configuration and the market's state, lets the order book
-- match it, and turns fills into events, fees, positions and circuit breaker samples. A trade may fire
-- stop orders, which are matched at once and may trade again, up to a limit on the depth.
--
--   Base/Tests, Base/Lists, Base/Int  Boolean tests, lists, and int64 with its wrap-around
--   Base/Maps, Base/Strconv  Go maps as lists of entries; digits as strconv reads and prints them
--   Types, Types/Decimal   types/: the enumerations, flags, fills and fixed-point numbers
--   Types/Decimal/Text     types/decimal.go: ParseDecimal, String and UnmarshalJSON
--   Config                 config/: the records and the features; Config/Validate: Validate
--   Sequence               sequence/counter.go: Counter with NewCounter, Next, Peek and Reset
--   Pool, Pool/Refinement  pool/pool.go: Pool with New, Acquire and Release
--   Machine                statemachine/: Machine, Transition and the permissions
--   Positions              engine/positions.go: the position tracker
--   Auction                auction/: AuctionBook, ComputeClearingPrice, Sweep
--   Fees                   fees/: the three calculators
--   Circuit                circuit/: RollingWindow, as a list, and CircuitBreaker
--   Circuit/Ring           circuit/window.go: RollingWindow with its buffer, head and size
--   BTree                  the interface of github.com/tidwall/btree and its documented laws
--   Book/Node              book/node.go, types/fill.go: OrderNode, Fill, STPCanceled
--   Book/Level             book/level.go: Append, Unlink, DecrementQty, ReplenishIceberg
--   Book/Tree              book/tree.go: PriceLevelTree over the B-tree
--   Book/Index             book/index.go: OrderIndex
--   Book/Match             book/matching.go: the loops of match, applySTP, canFillFull
--   Book/Orders            book/book.go: OrderBook with all of its operations, and match itself
--   StopBook               stopbook/: AddStop, CancelStop, CheckTriggers, ExpireGTD and the pools
--   Events                 events/events.go, types/status.go: what the processor sends, and the reasons
--   Events/Names           the printed names of types/, config/market.go and statemachine/states.go
--   Processor              engine/processor.go: the state, emit, rejectOrder and halts
--   Processor/Commands     engine/commands.go: the commands
--   Processor/Report       emitFillEvents, emitSTPCancels, emitDisposition
--   Processor/Checks       validateLimitOrder and the checks of limit, market and stop orders
--   Processor/Cascade      checkStopsAndBreaker, processTriggeredOrder
--   Processor/Orders       processLimitOrder, processMarketOrder
--   Processor/Stops, Processor/Cancel  processStopOrder, processCancelOrder
--   Processor/Session      halts, resumptions, expiry, auctions, dispatch and the turns of run
--   Processor/Recovery     engine/recovery.go: seedInitialOrders
--   Engine/Options, Engine  engine/engine.go: the options, New, Start, Submit, Close and the readers
--   Engine/Loop            run of engine/processor.go with the calls of other goroutines, as steps
--   Engine/Registry        engine/multiengine.go: MultiEngine
--   Engine/Registry/Steps  what may happen to the registry, as steps
--   Processor/Log          what an action appends to the log: Plain and Books for actions that trade
--                          nothing, Trading and Handlers for the others, Numbering and Unopened for
--                          runs and for markets that are not open
--   (child modules that are not listed hold proofs about the file that they stand under)
--   Tests                  runs at concrete inputs, with a B-tree that is an ordered list
--
-- Identifiers are strings that the engine only compares; they are numbers here. A Decimal is
-- modelled with its panics in Types/Decimal. Inside the book all prices have the price precision of
-- the market and all quantities its quantity precision, where no operation on them panics, so the
-- book works on int64 mantissas: integers, with add64 and sub64 that wrap around; the commands carry
-- such mantissas too. Where one meets a setting of another precision (a bound on the quantity, tick,
-- lot or the reference price of an auction) the comparison panics, as in the source. Enumerations take their declared constants; a self-trade mode, which nothing
-- validates, may also be `other`.
--
-- Pointers: a level holds its nodes in a list, head first, and an index entry is the place of a node,
-- its side, price and id. A level that is changed in place is written back to its tree under its
-- price. The inner loop's cursor is the head of the list that is left; nodes that it has passed over
-- stand in a list of their own and are put in front when the level is left. The book sees a pool as
-- the stack of its free slots; Pool/Refinement relates it to the arrays.
--
-- The processor: a handler takes the state and the time that it reads, and gives the new state, or
-- `none` for a panic or a loop without end. The fee calculator and the hook before an order, which a
-- user supplies, are functions of an Environment; their answer is a parameter. What the event channel
-- has received is a list. A turn of the loop is one command or one timer; any sequence of turns is a run.
--
-- Fuel: the inner loop gets one round for each node of the level and one for each unit of hidden
-- quantity, and one more; a round removes a node, ends the loop or uses up hidden quantity. The outer
-- loop gets one round for each level of the other side and one more; a round that does not end the
-- loop removes a level. A self-trade mode without a name may keep a level for ever, in the source too.
-- The loop of Sweep gets two rounds for each eligible order and one more: a round passes an order or
-- uses one up. The loops of CheckTriggers get one round for each level and one more; a round removes a
-- level. The cascade of stop orders gets a round for each depth that the stop book allows and one at
-- which it refuses.
--
-- The digits of a number are printed on fuel, the number itself: a round divides it by ten. Nothing
-- else of the engine and its registry loops on fuel: what the goroutine of a market does is the step
-- relation of Engine/Loop, and any sequence of steps is a trace.
--
-- The engine: Submit appends to the queue of commands if its channel has room, and the loop takes
-- from the front; a step is a call of Submit or of a part of Close, a command, a timer, or the
-- end of the loop. The registry is a map from markets to engines; what holds its lock is one step.
--
-- Not modelled: the capacity of the channel of events and its reader (a send never blocks here; Close
-- of the registry takes as a parameter whether each loop ends) and the goroutines that AllEvents
-- starts; the times of the timers (a timer may fire at any turn, those of an auction once); accesses of two goroutines at the same time; JSON around the text of a Decimal or a
-- HaltType; the texts of messages and errors; the generated ids of trades and fills; the hook after a
-- fill, which nothing calls; RefMode, which nothing reads; and the test utilities.
pub mod Base
pub mod Types
pub mod Config
pub mod Sequence
pub mod Pool
pub mod Machine
pub mod Positions
pub mod BTree
pub mod Book
pub mod StopBook
pub mod Auction
pub mod Fees
pub mod Circuit
pub mod Events
pub mod Processor
pub mod Engine
pub mod Tests
