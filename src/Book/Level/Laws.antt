-- ===== src/Book/Level/Laws.antt =====
-- The totals of a level of book/level.go, as the sums over its queue.
use clob.Base.{
  ℕ, ◌+◌, ◌≡◌, refl, sym, ap, ◌∙◌, List, [], ◌∷◌, ◌++◌, some, arith, length, length-append,
}
use clob.Base.Int.{
  ℤ, pos, ◌+ℤ◌, ◌-ℤ◌, int64, add64, sub64, add64-int64, sub64-int64, int_laws, min_ℤ,
}
use clob.Book.Node.{OrderNode}
use clob.Book.Level.{
  PriceLevel, find_node, remove_node, set_node, append, unlink, decremented, decrement_qty,
  replenished, replenish_iceberg,
}

-- The sum of a quantity over a queue, as an integer that does not wrap around.
abbrev pub sum_of : (OrderNode → ℤ) → List OrderNode → ℤ
sum_of f [] = pos 0
sum_of f (n ∷ ns) = f n +ℤ sum_of f ns

pub sum_of-append :
    (f : OrderNode → ℤ) (xs ys : List OrderNode) → sum_of f (xs ++ ys) ≡ sum_of f xs +ℤ sum_of f ys
sum_of-append f [] ys = omega int_laws
sum_of-append f (x ∷ xs) ys = rw (sum_of-append f xs ys) (omega int_laws)

pub sum_of-remove_node :
    (f : OrderNode → ℤ) (ns : List OrderNode) (id : ℕ) (n : OrderNode)
    → find_node id ns ≡ some n
    → sum_of f (remove_node id ns) ≡ sum_of f ns -ℤ f n
sum_of-remove_node f [] id n e = cc
sum_of-remove_node f (m ∷ ns) id n e = grind (int_laws, sum_of-remove_node f ns id n)

length-remove_node :
    (ns : List OrderNode) (id : ℕ) (n : OrderNode)
    → find_node id ns ≡ some n
    → length (remove_node id ns) + 1 ≡ length ns
length-remove_node [] id n e = cc
length-remove_node (m ∷ ns) id n e = ground (arith, length-remove_node ns id n)

sum_of-set_node :
    (f : OrderNode → ℤ) (ns : List OrderNode) (n m : OrderNode)
    → find_node m.order_id ns ≡ some n
    → sum_of f (set_node m ns) ≡ sum_of f ns -ℤ f n +ℤ f m
sum_of-set_node f [] n m e = cc
sum_of-set_node f (x ∷ ns) n m e = grind (int_laws, sum_of-set_node f ns n m)

length-set_node : (ns : List OrderNode) (m : OrderNode) → length (set_node m ns) ≡ length ns
length-set_node [] m = refl
length-set_node (x ∷ ns) m = ground (arith, length-set_node ns m)

-- The totals are the sums, as far as an int64 holds them, and the count is the queue's length.
pub record IsLevel (l : PriceLevel) : Type 0 where
  pub total : l.total_qty ≡ int64 (sum_of (λ n. n.remain_qty) l.queue)
  pub display : l.display_qty ≡ int64 (sum_of (λ n. n.display_qty) l.queue)
  pub count : l.order_count ≡ length l.queue

add64-total : (t s s' r : ℤ) → t ≡ int64 s → s' ≡ s +ℤ r → add64 t r ≡ int64 s'
unfolding add64
add64-total t s s' r e e' = rw e (add64-int64 s r ∙ ap int64 (sym e'))

sub64-total : (t s s' r : ℤ) → t ≡ int64 s → s' ≡ s -ℤ r → sub64 t r ≡ int64 s'
unfolding sub64
sub64-total t s s' r e e' = rw e (sub64-int64 s r ∙ ap int64 (sym e'))

-- Taking `f` from one term of a sum takes it from the sum, also if both wrap around.
sum-sub64 : (s r f : ℤ) → int64 (s -ℤ r +ℤ sub64 r f) ≡ int64 (s -ℤ f)
unfolding sub64
sum-sub64 s r f =
    ap int64 (swap (s -ℤ r) (int64 (r -ℤ f)))
    ∙ unfold add64 in add64-int64 (r -ℤ f) (s -ℤ r) ∙ ap int64 (cancel s r f)
  where
    swap : (a b : ℤ) → a +ℤ b ≡ b +ℤ a
    swap a b = omega int_laws

    cancel : (s r f : ℤ) → r -ℤ f +ℤ (s -ℤ r) ≡ s -ℤ f
    cancel s r f = omega int_laws

sub64-set_total :
    (t s r f : ℤ) {s' : ℤ} → t ≡ int64 s → s' ≡ s -ℤ r +ℤ sub64 r f → sub64 t f ≡ int64 s'
sub64-set_total t s r f {s'} e e' =
    sub64-total t s (s -ℤ f) f e refl ∙ sym (sum-sub64 s r f) ∙ ap int64 (sym e')

one_more :
    (f : OrderNode → ℤ) (ns : List OrderNode) (n : OrderNode)
    → sum_of f (ns ++ n ∷ []) ≡ sum_of f ns +ℤ f n
one_more f ns n = rw (sum_of-append f ns (n ∷ [])) (omega int_laws)

-- `Append` keeps the totals of a level right: the sums of the open and of the displayed quantities
-- (as int64), and the number of orders.
pub append-IsLevel : {l : PriceLevel} (n : OrderNode) → IsLevel l → IsLevel (append l n)
unfolding append
append-IsLevel {l} n v = record {
  total = add64-total _ _ _ n.remain_qty v.total (one_more _ l.queue n);
  display = add64-total _ _ _ n.display_qty v.display (one_more _ l.queue n);
  count = omega (arith, v.count, length-append l.queue (n ∷ []));
}

-- `Unlink` of a node that the level holds under its id keeps the totals and the count right.
pub unlink-IsLevel :
    {l : PriceLevel} (n : OrderNode)
    → find_node n.order_id l.queue ≡ some n
    → IsLevel l
    → IsLevel (unlink l n)
unfolding unlink
unlink-IsLevel {l} n found v = record {
  total = sub64-total _ _ _ n.remain_qty v.total (sum_of-remove_node _ l.queue n.order_id n found);
  display =
      sub64-total _ _ _ n.display_qty v.display (sum_of-remove_node _ l.queue n.order_id n found);
  count = omega (arith, v.count, length-remove_node l.queue n.order_id n found);
}

-- `DecrementQty` of a node that the level holds under its id keeps the totals and the count right,
-- for every filled quantity.
pub decrement_qty-IsLevel :
    {l : PriceLevel} (n : OrderNode) (q : ℤ)
    → find_node n.order_id l.queue ≡ some n
    → IsLevel l
    → IsLevel (decrement_qty l n q)
unfolding decrement_qty
decrement_qty-IsLevel {l} n q found v = record {
  total =
      sub64-set_total _ _ n.remain_qty q v.total
        (sum_of-set_node _ l.queue n (decremented n q) found);
  display =
      sub64-set_total _ _ n.display_qty (min_ℤ q n.display_qty) v.display
        (sum_of-set_node _ l.queue n (decremented n q) found);
  count = omega (arith, v.count, length-set_node l.queue (decremented n q));
}

-- `ReplenishIceberg` of a node that the level holds under its id keeps the totals and the count
-- right.
pub replenish_iceberg-IsLevel :
    {l : PriceLevel} (n : OrderNode) (seq : ℕ)
    → find_node n.order_id l.queue ≡ some n
    → IsLevel l
    → IsLevel (replenish_iceberg l n seq)
unfolding replenish_iceberg
replenish_iceberg-IsLevel n seq found v =
    append-IsLevel (replenished n seq) (unlink-IsLevel n found v)
