-- ===== src/Book/Matching/Exhaustion.antt =====
-- When plan_match (engine/src/book.cpp) leaves quantity unfilled.
use order_book_engine.Prelude.{
  ℕ, ℤ, pos, ◌-ℤ◌, ◌≤ℤ◌, ◌<ℤ◌, min_ℤ, false, List, [], ◌∷◌, ◌++◌, ◌≡◌, refl, if◌then◌else◌, arith,
  int_laws,
}
use order_book_engine.Types.{Order, Node, Level}
use order_book_engine.Levels.{deref}
use order_book_engine.Book.State.{Book}
use order_book_engine.Book.Matching.{
  ProposedFill, crosses, walk_queue, walk_side, opposing_levels, plan_match,
}
use order_book_engine.Book.Matching.Fairness.{fill_total, fill_total-append, walk_queue_remaining}

-- The whole quantity of each order of a queue.
abbrev pub whole_queue : List Node → ℤ → List ℕ → List ProposedFill
whole_queue nodes price [] = []
whole_queue nodes price (n ∷ ns) =
    record { passive_node = n; fill_price = price; fill_quantity = (deref nodes n).order.quantity }
    ∷ whole_queue nodes price ns

-- The whole quantity of each order of the levels before the first one that does not cross.
abbrev pub whole_side : List Node → Order → List Level → List ProposedFill
whole_side nodes incoming [] = []
whole_side nodes incoming (l ∷ ls) =
    if crosses incoming l.price
    then whole_queue nodes l.price l.queue ++ whole_side nodes incoming ls
    else []

module _ (nodes : List Node) (owner : ℕ) (price : ℤ) where
  -- Nothing left before the walk, nothing left after it.
  walk_queue_spent :
      (queue : List ℕ) (remaining : ℤ)
      → remaining ≤ℤ pos 0
      → (walk_queue nodes owner price queue remaining).remaining ≡ remaining
  unfolding walk_queue
  walk_queue_spent [] remaining h = refl
  walk_queue_spent (n ∷ ns) remaining h = ground arith

  walk_queue-whole_queue :
      (queue : List ℕ) (remaining : ℤ)
      → let walk = walk_queue nodes owner price queue remaining in
        walk.self_trade ≡ false
        → pos 0 <ℤ walk.remaining
        → walk.taken ≡ whole_queue nodes price queue
  unfolding walk_queue
  walk_queue-whole_queue [] remaining h k = refl
  walk_queue-whole_queue (n ∷ ns) remaining h k = grind (
    int_laws,
    walk_queue-whole_queue ns (remaining -ℤ min_ℤ remaining (deref nodes n).order.quantity),
    walk_queue_spent ns (remaining -ℤ min_ℤ remaining (deref nodes n).order.quantity),
  )

walk_side-whole_side :
    (b : Book) (incoming : Order) (ls : List Level) (remaining : ℤ)
    → let plan = walk_side b incoming ls remaining in
      plan.halted_by_self_trade ≡ false
      → plan.stopped_by_collar ≡ false
      → fill_total plan.fills <ℤ remaining
      → plan.fills ≡ whole_side b.pool.nodes incoming ls
unfolding walk_side
walk_side-whole_side b incoming [] remaining h k m = refl
walk_side-whole_side b incoming (l ∷ ls) remaining h k m =
    let walk = walk_queue b.pool.nodes incoming.owner_id l.price l.queue remaining in
    let rest = walk_side b incoming ls walk.remaining in
    grind (
      int_laws,
      walk_queue-whole_queue b.pool.nodes incoming.owner_id l.price l.queue remaining,
      walk_queue_remaining b.pool.nodes incoming.owner_id l.price l.queue remaining,
      walk_side-whole_side b incoming ls walk.remaining,
      fill_total-append walk.taken rest.fills,
    )

-- A plan that fills less than the order's quantity, and was stopped neither by an order of the same
-- owner nor by the collar, takes the whole quantity of every order at a crossing price: all levels
-- from the best one to the first that does not cross.
pub plan_match-whole_side :
    (b : Book) (incoming : Order)
    → let plan = plan_match b incoming in
      plan.halted_by_self_trade ≡ false
      → plan.stopped_by_collar ≡ false
      → fill_total plan.fills <ℤ incoming.quantity
      → plan.fills ≡ whole_side b.pool.nodes incoming (opposing_levels incoming.side b)
unfolding plan_match
plan_match-whole_side b incoming h k m =
    walk_side-whole_side b incoming (opposing_levels incoming.side b) incoming.quantity h k m
