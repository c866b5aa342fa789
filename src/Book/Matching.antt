-- ===== src/Book/Matching.antt =====
-- Book::plan_match (engine/src/book.cpp): the fills that an incoming order would make.
pub mod Greedy
pub mod Fairness
pub mod Exhaustion
use order_book_engine.Prelude.{
  ℕ, ℤ, pos, ◌-ℤ◌, ltb_ℤ, leb_ℤ, min_ℤ, Bool, true, false, ◌&&◌, not, Option, none, some, List, [],
  ◌∷◌, ◌++◌, if◌then◌else◌, ◌==◌,
}
use order_book_engine.Types.{Side, buy, sell, OrderType, limit, market, Order, Node, Level}
use order_book_engine.Levels.{deref}
use order_book_engine.Book.State.{Book}
use order_book_engine.Book.Bands.{lower_limit, upper_limit}

pub record ProposedFill : Type 0 where
  pub passive_node : ℕ
  pub fill_price : ℤ
  pub fill_quantity : ℤ

pub record MatchPlan : Type 0 where
  pub fills : List ProposedFill
  pub halted_by_self_trade : Bool
  pub stopped_by_collar : Bool

abbrev pub is_market : OrderType → Bool
is_market market = true
is_market limit = false

-- `price <= *incoming.price` for a buy; a limit order without a price is never planned.
abbrev pub price_reaches : Side → Option ℤ → ℤ → Bool
price_reaches side none price = false
price_reaches buy (some bound) price = leb_ℤ price bound
price_reaches sell (some bound) price = leb_ℤ bound price

abbrev pub crosses_at : OrderType → Side → Option ℤ → ℤ → Bool
crosses_at market side bound price = true
crosses_at limit side bound price = price_reaches side bound price

abbrev pub crosses : Order → ℤ → Bool
crosses incoming price = crosses_at incoming.type incoming.side incoming.price price

abbrev pub within_collar : Side → ℤ → ℤ → ℤ → Bool
within_collar buy reference bps price = leb_ℤ price (upper_limit reference bps)
within_collar sell reference bps price = leb_ℤ (lower_limit reference bps) price

abbrev pub collared : Book → Order → Bool
collared b incoming =
    is_market incoming.type && ltb_ℤ (pos 0) b.market_collar_bps && b.has_reference_price

unfoldable pub inside_collar : Book → Order → ℤ → Bool
inside_collar b incoming price =
    if collared b incoming
    then within_collar incoming.side b.reference_price b.market_collar_bps price
    else true

-- What the walk along one level's queue leaves: its fills, the remaining quantity, and whether it
-- met an order of the incoming order's owner.
pub record QueueWalk : Type 0 where
  pub taken : List ProposedFill
  pub remaining : ℤ
  pub self_trade : Bool

abbrev pub add_fill : ProposedFill → QueueWalk → QueueWalk
add_fill f w = record w { taken = f ∷ w.taken }

unfoldable pub walk_queue : List Node → ℕ → ℤ → List ℕ → ℤ → QueueWalk
walk_queue nodes owner price [] remaining = record {
  taken = [];
  remaining = remaining;
  self_trade = false;
}
walk_queue nodes owner price (n ∷ ns) remaining =
    let passive = (deref nodes n).order in
    let quantity = min_ℤ remaining passive.quantity in
    let rest = walk_queue nodes owner price ns (remaining -ℤ quantity) in
    if not (ltb_ℤ (pos 0) remaining)
    then record { taken = []; remaining = remaining; self_trade = false }
    else if passive.owner_id == owner
    then record { taken = []; remaining = remaining; self_trade = true }
    else add_fill (record { passive_node = n; fill_price = price; fill_quantity = quantity }) rest

abbrev pub add_fills : List ProposedFill → MatchPlan → MatchPlan
add_fills fs p = record p { fills = fs ++ p.fills }

abbrev pub no_fills : MatchPlan
no_fills = record { fills = []; halted_by_self_trade = false; stopped_by_collar = false }

-- walk_side: level after level from the best price, while quantity remains.
unfoldable pub walk_side : Book → Order → List Level → ℤ → MatchPlan
unfolding walk_queue
walk_side b incoming [] remaining = no_fills
walk_side b incoming (l ∷ ls) remaining =
    let walk = walk_queue b.pool.nodes incoming.owner_id l.price l.queue remaining in
    let rest = walk_side b incoming ls walk.remaining in
    if not (ltb_ℤ (pos 0) remaining)
    then no_fills
    else if not (crosses incoming l.price)
    then no_fills
    else if not (inside_collar b incoming l.price)
    then record no_fills { stopped_by_collar = true }
    else if walk.self_trade
    then record { fills = walk.taken; halted_by_self_trade = true; stopped_by_collar = false }
    else add_fills walk.taken rest

-- The levels that an order trades against.
abbrev pub opposing_levels : Side → Book → List Level
opposing_levels buy b = b.asks
opposing_levels sell b = b.bids

unfoldable pub plan_match : Book → Order → MatchPlan
unfolding walk_side
plan_match b incoming = walk_side b incoming (opposing_levels incoming.side b) incoming.quantity
