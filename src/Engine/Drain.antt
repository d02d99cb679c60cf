-- ===== src/Engine/Drain.antt =====
-- engine/engine.go: what becomes of the commands that are queued after the loop has ended.
use clob.Base.{◌≡◌, refl, sym, ap, ◌∙◌, List, [], ◌∷◌, ◌++◌, true, arith}
use clob.BTree.{BTree}
use clob.Book.Level.{PriceLevel}
use clob.StopBook.{StopLevel}
use clob.Processor.Commands.{Command}
use clob.Engine.{Engine, ok, submit, begin_close, end_close}
use clob.Engine.Loop.{
  Step, submits, takes, ticks, opens, clears, closes, ends, closes_events, Trace, rest, then_step,
}
use clob.Engine.Queue.{queue_keeps_order, submit_accepts}

module _ {T S : Type 0} ⦃bt : BTree T PriceLevel⦄ ⦃st : BTree S StopLevel⦄ where
  nothing_taken_once :
      {e f : Engine T S} {xs ys : List Command}
      → Step e xs ys f
      → e.done_closed ≡ true
      → (ys ≡ []) × (f.done_closed ≡ true)
  unfolding submit begin_close end_close
  nothing_taken_once {e} (submits c f h) d = ground arith
  nothing_taken_once {e} (takes now c cs p r q h) d = ground arith
  nothing_taken_once {e} (ticks now r) d = (refl, d)
  nothing_taken_once {e} (opens now r t) d = (refl, d)
  nothing_taken_once {e} (clears now p r t h) d = (refl, d)
  nothing_taken_once {e} (closes f h) d = ground arith
  nothing_taken_once {e} (ends r q) d = (refl, refl)
  nothing_taken_once {e} (closes_events f h) d = ground arith

  nothing_taken :
      {e f : Engine T S} {xs ys : List Command}
      → Trace e xs ys f
      → e.done_closed ≡ true
      → (ys ≡ []) × (f.done_closed ≡ true)
  nothing_taken rest d = (refl, d)
  nothing_taken (then_step {ys = ys} {vs = vs} t s) d =
      let (none_before, still) = nothing_taken t d in
      let (none_now, after) = nothing_taken_once s still in
      (ap (λ l. l ++ vs) none_before ∙ none_now, after)

  -- Take an engine whose loop has ended. A command that Submit accepts after that stays in the
  -- queue in every run: what is queued at its end is what was queued before, the command, and what
  -- was accepted since, and nothing has been handled.
  pub late_commands_are_lost :
      (c : Command) (e f g : Engine T S) (xs ys : List Command)
      → e.done_closed ≡ true
      → submit c e ≡ ok f
      → Trace f xs ys g
      → (ys ≡ []) × (g.commands ≡ (e.commands ++ c ∷ []) ++ xs)
  late_commands_are_lost c e f g xs ys d s t =
      let (room, same) = submit_accepts c e f s in
      let nothing = (nothing_taken t (ap (λ x. x.done_closed) same ∙ d)).0 in
      (
        nothing,
        sym (
            ap (λ l. l ++ xs) (sym (ap (λ x. x.commands) same))
            ∙ (queue_keeps_order t).order
            ∙ ap (λ l. l ++ g.commands) nothing),
      )
