-- ===== src/Engine/Queue.antt =====
-- engine/engine.go: commands are handled in the order in which they were accepted.
use clob.Base.{
  ◌≤◌, ◌<◌, ◌≡◌, refl, sym, ap, subst, ◌∙◌, List, [], ◌∷◌, ◌++◌, append-nil, append_assoc, some,
  arith, length, length-append,
}
use clob.BTree.{BTree}
use clob.Book.Level.{PriceLevel}
use clob.StopBook.{StopLevel}
use clob.Processor.Commands.{Command}
use clob.Engine.{Engine, ok, submit, begin_close, end_close}
use clob.Engine.Loop.{
  Step, submits, takes, ticks, opens, clears, closes, ends, closes_events, Trace, rest, then_step,
}

module _ {T S : Type 0} where
  -- The queue, its capacity and the environment are the same.
  pub record Keeps (e f : Engine T S) : Type 0 where
    pub commands : f.commands ≡ e.commands
    pub capacity : f.command_capacity ≡ e.command_capacity
    pub env : f.env ≡ e.env
    pub processor : f.processor ≡ e.processor

  Keeps-same : (e : Engine T S) → Keeps e e
  Keeps-same e = record { commands = refl; capacity = refl; env = refl; processor = refl }

  pub begin_close-Keeps : (e f : Engine T S) → begin_close e ≡ some (ok f) → Keeps e f
  unfolding begin_close
  begin_close-Keeps e f h = ground arith

  pub end_close-Keeps : (e f : Engine T S) → end_close e ≡ some f → Keeps e f
  unfolding end_close
  end_close-Keeps e f h = ground arith

  -- What `Submit` does if it accepts.
  pub submit_accepts :
      (c : Command) (e f : Engine T S)
      → submit c e ≡ ok f
      → (length e.commands < e.command_capacity)
        × (f ≡ record e { commands = e.commands ++ c ∷ [] })
  unfolding submit
  submit_accepts c e f h = ground arith

module _ {T S : Type 0} ⦃bt : BTree T PriceLevel⦄ ⦃st : BTree S StopLevel⦄ where
  -- What was queued and what has been accepted since is what has been handled since and what is queued
  -- now, in this order; and a queue within its capacity stays within it.
  pub record IsFifo (e : Engine T S) (xs ys : List Command) (f : Engine T S) : Type 0 where
    pub order : e.commands ++ xs ≡ ys ++ f.commands
    pub capacity : f.command_capacity ≡ e.command_capacity
    pub bounded : length e.commands ≤ e.command_capacity → length f.commands ≤ f.command_capacity

  Keeps-IsFifo : (e f : Engine T S) → Keeps e f → IsFifo e [] [] f
  Keeps-IsFifo e f k = record {
    order = append-nil e.commands ∙ sym k.commands;
    capacity = k.capacity;
    bounded = λ h. rw (k.commands, k.capacity) h;
  }

  pub Step-IsFifo : {e f : Engine T S} {xs ys : List Command} → Step e xs ys f → IsFifo e xs ys f
  Step-IsFifo {e} (submits c f h) =
      let (room, same) = submit_accepts c e f h in
      subst (IsFifo e (c ∷ []) []) (sym same) (record {
        order = refl;
        capacity = refl;
        bounded = λ _. omega (arith, length-append e.commands (c ∷ []), room);
      })
  Step-IsFifo {e} (takes now c cs p r h d) = record {
    order = append-nil e.commands ∙ h;
    capacity = refl;
    bounded = λ b. omega (arith, b, ap length h);
  }
  Step-IsFifo {e} (ticks now r) = record {
    order = append-nil e.commands;
    capacity = refl;
    bounded = λ b. b;
  }
  Step-IsFifo {e} (opens now r t) = record {
    order = append-nil e.commands;
    capacity = refl;
    bounded = λ b. b;
  }
  Step-IsFifo {e} (clears now p r t h) = record {
    order = append-nil e.commands;
    capacity = refl;
    bounded = λ b. b;
  }
  Step-IsFifo {e} (closes f h) = Keeps-IsFifo e f (begin_close-Keeps e f h)
  Step-IsFifo {e} (ends r q) = record {
    order = append-nil e.commands;
    capacity = refl;
    bounded = λ b. b;
  }
  Step-IsFifo {e} (closes_events f h) = Keeps-IsFifo e f (end_close-Keeps e f h)

  -- In every run of an engine, the commands that were queued at first and those that Submit has
  -- accepted since are, in this order, those that the loop has handled and those that are still queued: none
  -- is lost, repeated or overtaken. The capacity of the queue stays as it is, and a queue that
  -- does not exceed it at first never does.
  pub queue_keeps_order :
      {e f : Engine T S} {xs ys : List Command} → Trace e xs ys f → IsFifo e xs ys f
  queue_keeps_order {e} rest = Keeps-IsFifo e e (Keeps-same e)
  queue_keeps_order {e} (then_step {xs} {ys} {us} {vs} {f} {g} t s) =
      let v = queue_keeps_order t in
      let w = Step-IsFifo s in
      record {
        order =
            sym (append_assoc e.commands xs us)
            ∙ ap (λ l. l ++ us) v.order
            ∙ append_assoc ys f.commands us
            ∙ ap (λ l. ys ++ l) w.order
            ∙ sym (append_assoc ys vs g.commands);
        capacity = w.capacity ∙ v.capacity;
        bounded = λ b. w.bounded (v.bounded b);
      }
