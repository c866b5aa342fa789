-- ===== src/Book/Queries/Depth.antt =====
-- depth, which reads the running totals of the levels, against snapshot, which reads the orders
-- (engine/src/book_levels.cpp).
use order_book_engine.Prelude.{
  ℕ, zero, suc, ◌+◌, ◌%◌, ℤ, pos, ◌+ℤ◌, List, [], ◌∷◌, ◌≡◌, refl, ◌∙◌, zero_+ℤ, true, &&_parts,
  length, arith, int_laws,
}
use order_book_engine.Types.{Side, Node, Level}
use order_book_engine.Levels.{deref, count_mod}
use order_book_engine.Book.State.{Book}
use order_book_engine.Book.Queries.{
  DepthLevel, RestingOrder, depth_level, level_ok, collect_levels, collect_queue, depth, queue_sum,
  queue_count, side_ok, check_invariants,
}

abbrev pub quantity_of : List RestingOrder → ℤ
quantity_of [] = pos 0
quantity_of (o ∷ os) = o.quantity +ℤ quantity_of os

-- A level as the snapshot's orders at its price add up.
abbrev pub added_up : List Node → Level → DepthLevel
added_up nodes l =
    let orders = collect_queue nodes l.price l.queue in
    record {
      price = l.price;
      quantity = quantity_of orders;
      order_count = length orders % count_mod;
    }

-- The first `n` levels, each added up from its orders.
abbrev pub added_up_levels : List Node → ℕ → List Level → List DepthLevel
added_up_levels nodes zero ls = []
added_up_levels nodes (suc n) [] = []
added_up_levels nodes (suc n) (l ∷ ls) = added_up nodes l ∷ added_up_levels nodes n ls

queue_sum-quantity_of :
    (nodes : List Node) (price : ℤ) (q : List ℕ) (sum : ℤ)
    → queue_sum nodes q sum ≡ sum +ℤ quantity_of (collect_queue nodes price q)
unfolding queue_sum collect_queue
queue_sum-quantity_of nodes price [] sum = omega int_laws
queue_sum-quantity_of nodes price (n ∷ ns) sum =
    let quantity = (deref nodes n).order.quantity in
    grind (int_laws, queue_sum-quantity_of nodes price ns (sum +ℤ quantity))

queue_count-length :
    (nodes : List Node) (price : ℤ) (q : List ℕ) (count : ℕ)
    → queue_count q (count % count_mod) ≡ (count + length (collect_queue nodes price q)) % count_mod
unfolding queue_count collect_queue
queue_count-length nodes price [] count = omega arith
queue_count-length nodes price (n ∷ ns) count =
    let wraps : (count % count_mod + 1) % count_mod ≡ suc count % count_mod = omega arith in
    rw wraps (rw (queue_count-length nodes price ns (suc count)) (omega arith))

-- The running totals of a level that passes the tests.
level_ok-totals :
    (b : Book) (side : Side) (l : Level)
    → level_ok b side l ≡ true
    → (l.total_quantity ≡ queue_sum b.pool.nodes l.queue (pos 0))
      × (l.order_count ≡ queue_count l.queue 0)
level_ok-totals b side l e = (ground arith, ground arith)

level_ok-added_up :
    (b : Book) (side : Side) (l : Level)
    → level_ok b side l ≡ true
    → depth_level l ≡ added_up b.pool.nodes l
level_ok-added_up b side l e =
    let (total, count) = level_ok-totals b side l e in
    let nodes = b.pool.nodes in
    let sum : l.total_quantity ≡ quantity_of (collect_queue nodes l.price l.queue) =
      total ∙ queue_sum-quantity_of nodes l.price l.queue (pos 0) ∙ zero_+ℤ _ in
    let counted : l.order_count ≡ length (collect_queue nodes l.price l.queue) % count_mod =
      omega (arith, count, queue_count-length nodes l.price l.queue 0) in
    rw sum (rw counted refl)

-- The levels of a side that passes the tests.
collect_levels-added_up :
    (b : Book) (side : Side) (n : ℕ) (ls : List Level)
    → side_ok b side ls ≡ true
    → collect_levels n ls ≡ added_up_levels b.pool.nodes n ls
unfolding collect_levels side_ok
collect_levels-added_up b side zero ls e = refl
collect_levels-added_up b side (suc n) [] e = refl
collect_levels-added_up b side (suc n) (l ∷ ls) e =
    let (here, rest) = &&_parts (level_ok b side l) (side_ok b side ls) e in
    cc (level_ok-added_up b side l here, collect_levels-added_up b side n ls rest)

-- In a book that passes check_invariants, the depth of each side is what the snapshot's orders add up
-- to: level by level, the sum of their quantities and, modulo 2 ^ 32, their number.
pub depth-added_up :
    (n : ℕ) (b : Book)
    → check_invariants b ≡ true
    → ((depth n b).bids ≡ added_up_levels b.pool.nodes n b.bids)
      × ((depth n b).asks ≡ added_up_levels b.pool.nodes n b.asks)
unfolding depth check_invariants
depth-added_up n b e =
    let bids : side_ok b Side.buy b.bids ≡ true = ground arith in
    let asks : side_ok b Side.sell b.asks ≡ true = ground arith in
    (
      collect_levels-added_up b Side.buy n b.bids bids,
      collect_levels-added_up b Side.sell n b.asks asks,
    )
