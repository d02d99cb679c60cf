-- ===== src/Engine/Loop.antt =====
-- engine/processor.go, `run`, and the calls that other goroutines make of engine/engine.go: what may
-- happen to an engine that was started, one step at a time. A handler that panics has no step.
use clob.Base.{◌≡◌, List, [], ◌∷◌, ◌++◌, Bool, true, false, not, ◌&&◌, some}
use clob.Base.Int.{ℤ}
use clob.BTree.{BTree}
use clob.Book.Level.{PriceLevel}
use clob.StopBook.{StopLevel}
use clob.Processor.{Processor}
use clob.Processor.Commands.{Command}
use clob.Processor.Session.{dispatch, run_expiry_check, open_auction, clear_auction}
use clob.Engine.{Engine, ok, submit, begin_close, end_close}

abbrev pub is_running : {T S : Type 0} → Engine T S → Bool
is_running e = e.started && not e.done_closed

module _ {T S : Type 0} ⦃bt : BTree T PriceLevel⦄ ⦃st : BTree S StopLevel⦄ where
  -- The lists are the commands that the step accepts and those that it handles. The loop may take
  -- commands until it sees that `quit` is closed.
  pub data Step (e : Engine T S) : List Command → List Command → Engine T S → Type 0 where
    submits : (c : Command) (f : Engine T S) → submit c e ≡ ok f → Step e (c ∷ []) [] f
    takes :
        (now : ℤ) (c : Command) (rest : List Command) (p : Processor T S)
        → is_running e ≡ true
        → e.commands ≡ c ∷ rest
        → dispatch e.env now c e.processor ≡ some p
        → Step e [] (c ∷ []) (record e { commands = rest; processor = p })
    ticks :
        (now : ℤ)
        → is_running e ≡ true
        → Step e [] [] (record e { processor = run_expiry_check now e.processor })
    opens :
        (now : ℤ)
        → is_running e ≡ true
        → e.open_timer ≡ true
        → Step e [] [] (record e { processor = open_auction now e.processor; open_timer = false })
    clears :
        (now : ℤ) (p : Processor T S)
        → is_running e ≡ true
        → e.clear_timer ≡ true
        → clear_auction e.env now e.processor ≡ some p
        → Step e [] [] (record e { processor = p; clear_timer = false })
    closes : (f : Engine T S) → begin_close e ≡ some (ok f) → Step e [] [] f
    ends :
        is_running e ≡ true → e.quit_closed ≡ true → Step e [] [] (record e { done_closed = true })
    closes_events : (f : Engine T S) → end_close e ≡ some f → Step e [] [] f

  -- Any number of steps, with all that was accepted and all that was handled, in order.
  pub data Trace (e : Engine T S) : List Command → List Command → Engine T S → Type 0 where
    rest : Trace e [] [] e
    then_step :
        {xs ys us vs : List Command} {f g : Engine T S}
        → Trace e xs ys f
        → Step f us vs g
        → Trace e (xs ++ us) (ys ++ vs) g
