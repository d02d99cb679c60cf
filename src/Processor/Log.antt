-- ===== src/Processor/Log.antt =====
-- The event log of engine/processor.go: what an action appends to it, and how the events are numbered.
pub mod Plain
pub mod Books
pub mod Trading
pub mod Handlers
pub mod Numbering
pub mod Unopened
use clob.Base.{
  ℕ, ◌≡◌, refl, sym, ap, subst, ◌∙◌, List, [], ◌∷◌, ◌++◌, Bool, true, false, Option, none, some,
  ◌>>=◌, All, All-append, append-nil, append_assoc, Option-cases, if◌then◌else◌,
}
use clob.Base.Int.{ℤ}
use clob.Sequence.{Counter, next}
use clob.Events.{Event, EventBody}
use clob.Processor.{Processor, emit}

-- The events carry the numbers that the counter gives, and leave it at `d`.
abbrev pub Numbered : Counter → List Event → Counter → Type 0
Numbered c [] d = c ≡ d
Numbered c (e ∷ es) d = (e.seq_num ≡ (next c).n) × Numbered (next c) es d

Numbered-append :
    (c d e : Counter) (xs ys : List Event)
    → Numbered c xs d
    → Numbered d ys e
    → Numbered c (xs ++ ys) e
Numbered-append c d e [] ys h k = subst (λ x. Numbered x ys e) (sym h) k
Numbered-append c d e (x ∷ xs) ys h k = (h.0, Numbered-append (next c) d e xs ys h.1 k)

module _ {T S : Type 0} (P : EventBody → Type 0) where
  -- `q` is `p` with some events appended: numbered without a gap, and each as `P` says. The limit on
  -- the depth of a cascade is the same.
  pub record Extends (p q : Processor T S) : Type 0 where
    pub added : List Event
    pub appended : q.events ≡ p.events ++ added
    pub numbered : Numbered p.event_seq added q.event_seq
    pub allowed : All (λ e. P e.body) added
    pub same_depth : q.stop_book.max_depth ≡ p.stop_book.max_depth

  -- An action that touches neither the log nor the counter.
  pub Extends-quiet :
      (p q : Processor T S)
      → q.events ≡ p.events
      → q.event_seq ≡ p.event_seq
      → q.stop_book.max_depth ≡ p.stop_book.max_depth
      → Extends p q
  Extends-quiet p q e n d = record {
    added = [];
    appended = e ∙ sym (append-nil p.events);
    numbered = sym n;
    allowed = tt;
    same_depth = d;
  }

  pub Extends-same : (p : Processor T S) → Extends p p
  Extends-same p = Extends-quiet p p refl refl refl

  pub Extends-trans : (p q r : Processor T S) → Extends p q → Extends q r → Extends p r
  Extends-trans p q r v w = record {
    added = v.added ++ w.added;
    appended =
        w.appended ∙ ap (λ x. x ++ w.added) v.appended ∙ append_assoc p.events v.added w.added;
    numbered =
        Numbered-append p.event_seq q.event_seq r.event_seq v.added w.added v.numbered w.numbered;
    allowed = All-append (λ e. P e.body) v.added w.added v.allowed w.allowed;
    same_depth = w.same_depth ∙ v.same_depth;
  }

  pub emit-Extends :
      (now : ℤ) (p : Processor T S) (body : EventBody) → P body → Extends p (emit now p body)
  unfolding emit
  emit-Extends now p body h = record {
    added =
        record {
          seq_num = (next p.event_seq).n;
          timestamp = now;
          market_id = p.book.config.market_id;
          body = body;
        }
        ∷ [];
    appended = refl;
    numbered = (refl, refl);
    allowed = (h, tt);
    same_depth = refl;
  }

  -- A quiet action, and then an event.
  pub emit_after-Extends :
      (now : ℤ) (p q : Processor T S) (body : EventBody)
      → Extends p q
      → P body
      → Extends p (emit now q body)
  emit_after-Extends now p q body v h =
      Extends-trans p q (emit now q body) v (emit-Extends now q body h)

  -- The same of an action that may panic.
  abbrev pub ExtendsIf : Processor T S → Option (Processor T S) → Type 0
  ExtendsIf p none = Unit
  ExtendsIf p (some q) = Extends p q

  pub ExtendsIf-after :
      (p q : Processor T S) (m : Option (Processor T S))
      → Extends p q
      → ExtendsIf q m
      → ExtendsIf p m
  ExtendsIf-after p q none v w = tt
  ExtendsIf-after p q (some r) v w = Extends-trans p q r v w

  pub ExtendsIf-bind :
      (p : Processor T S) (m : Option (Processor T S)) (f : Processor T S → Option (Processor T S))
      → ExtendsIf p m
      → ((q : Processor T S) → ExtendsIf q (f q))
      → ExtendsIf p (m >>= f)
  ExtendsIf-bind p none f v w = tt
  ExtendsIf-bind p (some q) f v w = ExtendsIf-after p q (f q) v (w q)

  -- An action that also gives a value.
  abbrev pub ExtendsBoth : {A : Type 0} → Processor T S → Option (A × Processor T S) → Type 0
  ExtendsBoth p none = Unit
  ExtendsBoth p (some (a, q)) = Extends p q

  pub ExtendsBoth-after :
      {A : Type 0} (p q : Processor T S) (m : Option (A × Processor T S))
      → Extends p q
      → ExtendsBoth q m
      → ExtendsBoth p m
  ExtendsBoth-after p q none v w = tt
  ExtendsBoth-after p q (some (a, r)) v w = Extends-trans p q r v w

  pub ExtendsBoth-bind :
      {A : Type 0} (p : Processor T S) (m : Option (A × Processor T S))
      (f : A × Processor T S → Option (Processor T S))
      → ExtendsBoth p m
      → ((a : A) (q : Processor T S) → ExtendsIf q (f (a, q)))
      → ExtendsIf p (m >>= f)
  ExtendsBoth-bind p none f v w = tt
  ExtendsBoth-bind p (some (a, q)) f v w = ExtendsIf-after p q (f (a, q)) v (w a q)

  pub ExtendsBoth-after_if :
      {A : Type 0} (p : Processor T S) (m : Option (Processor T S))
      (f : Processor T S → Option (A × Processor T S))
      → ExtendsIf p m
      → ((q : Processor T S) → ExtendsBoth q (f q))
      → ExtendsBoth p (m >>= f)
  ExtendsBoth-after_if p none f v w = tt
  ExtendsBoth-after_if p (some q) f v w = ExtendsBoth-after p q (f q) v (w q)

  pub ExtendsBoth-then :
      {A B : Type 0} (p : Processor T S) (m : Option (A × Processor T S))
      (f : A × Processor T S → Option (B × Processor T S))
      → ExtendsBoth p m
      → ((a : A) (q : Processor T S) → ExtendsBoth q (f (a, q)))
      → ExtendsBoth p (m >>= f)
  ExtendsBoth-then p none f v w = tt
  ExtendsBoth-then p (some (a, q)) f v w = ExtendsBoth-after p q (f (a, q)) v (w a q)

  -- A question first that changes nothing.
  pub ExtendsIf-ask :
      {A : Type 0} (p : Processor T S) (m : Option A) (f : A → Option (Processor T S))
      → ((a : A) → ExtendsIf p (f a))
      → ExtendsIf p (m >>= f)
  ExtendsIf-ask p none f w = tt
  ExtendsIf-ask p (some a) f w = w a

  pub ExtendsBoth-ask :
      {A B : Type 0} (p : Processor T S) (m : Option A) (f : A → Option (B × Processor T S))
      → ((a : A) → ExtendsBoth p (f a))
      → ExtendsBoth p (m >>= f)
  ExtendsBoth-ask p none f w = tt
  ExtendsBoth-ask p (some a) f w = w a

  -- A result that is there.
  pub ExtendsIf-some :
      (p q : Processor T S) (m : Option (Processor T S)) → ExtendsIf p m → m ≡ some q → Extends p q
  ExtendsIf-some p q m v e = subst (ExtendsIf p) e v
