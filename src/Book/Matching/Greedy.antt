-- ===== src/Book/Matching/Greedy.antt =====
-- plan_match (engine/src/book.cpp) as one greedy pass over the opposing orders in book order:
-- price first, then time.
use order_book_engine.Prelude.{
  ℕ, ℤ, pos, ◌-ℤ◌, ltb_ℤ, min_ℤ, false, ◌&&◌, List, [], ◌∷◌, ◌++◌, ◌≡◌, refl, if◌then◌else◌, ◌==◌,
  arith, append-nil,
}
use order_book_engine.Types.{Order, Node, Level}
use order_book_engine.Levels.{deref}
use order_book_engine.Book.State.{Book}
use order_book_engine.Book.Matching.{
  ProposedFill, QueueWalk, crosses, inside_collar, walk_queue, walk_side, opposing_levels,
  plan_match,
}

-- A price and the node of an order that rests at it.
abbrev pub Offer : Type 0
Offer = ℤ × ℕ

pub queue_offers : ℤ → List ℕ → List Offer
queue_offers price [] = []
queue_offers price (n ∷ ns) = (price, n) ∷ queue_offers price ns

-- The offers, best level first, up to the first level that does not cross or is past the collar.
pub reachable : Book → Order → List Level → List Offer
unfolding queue_offers
reachable b incoming [] = []
reachable b incoming (l ∷ ls) =
    if crosses incoming l.price && inside_collar b incoming l.price
    then queue_offers l.price l.queue ++ reachable b incoming ls
    else []

-- The offers before the first one of the incoming order's owner.
pub until_own : List Node → ℕ → List Offer → List Offer
until_own nodes owner [] = []
until_own nodes owner ((price, n) ∷ os) =
    if (deref nodes n).order.owner_id == owner then [] else (price, n) ∷ until_own nodes owner os

abbrev pub fill_of : ℤ → ℕ → ℤ → ProposedFill
fill_of price n quantity = record { passive_node = n; fill_price = price; fill_quantity = quantity }

-- Each offer in turn gives what it has, or what is still wanted if that is less.
pub allocate : List Node → ℤ → List Offer → List ProposedFill
allocate nodes remaining [] = []
allocate nodes remaining ((price, n) ∷ os) =
    let quantity = min_ℤ remaining (deref nodes n).order.quantity in
    let rest = allocate nodes (remaining -ℤ quantity) os in
    if ltb_ℤ (pos 0) remaining then fill_of price n quantity ∷ rest else []

allocate_nothing :
    (nodes : List Node) (remaining : ℤ) (os : List Offer)
    → ltb_ℤ (pos 0) remaining ≡ false
    → allocate nodes remaining os ≡ []
unfolding allocate
allocate_nothing nodes remaining [] h = refl
allocate_nothing nodes remaining ((price, n) ∷ os) h = rw h

module _ (nodes : List Node) (owner : ℕ) where
  -- What the offers of the levels behind still give after the walk of one queue.
  abbrev after_walk : QueueWalk → List Offer → List ProposedFill
  after_walk w os =
      w.taken
      ++ (if w.self_trade then [] else allocate nodes w.remaining (until_own nodes owner os))

  walk_queue-allocate :
      (price : ℤ) (queue : List ℕ) (remaining : ℤ) (os : List Offer)
      → allocate nodes remaining (until_own nodes owner (queue_offers price queue ++ os))
        ≡ after_walk (walk_queue nodes owner price queue remaining) os
  unfolding walk_queue allocate until_own queue_offers
  walk_queue-allocate price [] remaining os = refl
  walk_queue-allocate price (n ∷ ns) remaining os = ground (
    arith,
    walk_queue-allocate price ns (remaining -ℤ min_ℤ remaining (deref nodes n).order.quantity) os,
    allocate_nothing nodes remaining (until_own nodes owner os),
  )

-- The planned fills are those of the greedy pass over the reachable offers, in price-time order,
-- that stops at the first offer of the incoming order's own owner.
pub walk_side-allocate :
    (b : Book) (incoming : Order) (ls : List Level) (remaining : ℤ)
    → (walk_side b incoming ls remaining).fills
      ≡ allocate b.pool.nodes remaining
          (until_own b.pool.nodes incoming.owner_id (reachable b incoming ls))
unfolding walk_side reachable allocate until_own
walk_side-allocate b incoming [] remaining = refl
walk_side-allocate b incoming (l ∷ ls) remaining =
    let walk = walk_queue b.pool.nodes incoming.owner_id l.price l.queue remaining in
    ground (
      arith,
      append-nil walk.taken,
      walk_queue-allocate b.pool.nodes incoming.owner_id l.price l.queue remaining
          (reachable b incoming ls),
      walk_side-allocate b incoming ls walk.remaining,
      allocate_nothing b.pool.nodes remaining (
          until_own b.pool.nodes incoming.owner_id
            (queue_offers l.price l.queue ++ reachable b incoming ls)),
    )

-- The plan of an order is the greedy pass over the opposing side of the book: levels from the best
-- price on while they cross and stay inside the collar, the orders of a level in the order of their
-- arrival, until the quantity is used up or an order of the same owner stands next.
pub plan_match-allocate :
    (b : Book) (incoming : Order)
    → (plan_match b incoming).fills
      ≡ allocate b.pool.nodes incoming.quantity (
          until_own b.pool.nodes incoming.owner_id
            (reachable b incoming (opposing_levels incoming.side b)))
unfolding plan_match
plan_match-allocate b incoming =
    walk_side-allocate b incoming (opposing_levels incoming.side b) incoming.quantity
