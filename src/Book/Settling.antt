-- ===== src/Book/Settling.antt =====
-- The end of Book::add_order_core (engine/src/book.cpp): what happens to the quantity that the
-- fills leave.
pub mod Crossing
use order_book_engine.Prelude.{
  ℕ, ℤ, pos, ltb_ℤ, min_ℤ, max_ℤ, Bool, true, false, ◌&&◌, ◌||◌, not, Option, none, some,
  if◌then◌else◌,
}
use order_book_engine.Types.{Side, Order, RejectReason, EventKind, EngineEvent, is_ok}
use order_book_engine.Levels.{NodePool, acquire}
use order_book_engine.Book.State.{Book, emit, order_event}
use order_book_engine.Book.Bands.{lower_band_price, upper_band_price}
use order_book_engine.Book.Matching.{MatchPlan, is_market}
use order_book_engine.Book.Resting.{place_node}
use order_book_engine.Book.Filling.{FillLoop, validate_order_fields}

-- What the end of add_order_core leaves of the incoming order.
pub record Outcome : Type 0 where
  pub book : Book
  pub unaccepted_quantity : ℤ
  pub reject_reason : RejectReason
  pub rested_price : Option ℤ

abbrev pub incoming_event : EventKind → ℤ → Order → EngineEvent
incoming_event kind now o = order_event kind now o.id o.owner_id o.side o.price o.quantity

-- The remainder is discarded with an Expired event.
unfoldable pub expire : Order → RejectReason → ℤ → Book → Outcome
expire incoming why now b = record {
  book = emit (incoming_event EventKind.expired now incoming) b;
  unaccepted_quantity = incoming.quantity;
  reject_reason = why;
  rested_price = none;
}

-- The remainder rests in the node that `acquire` gave.
unfoldable pub rest_in : ℕ → Order → ℤ → Option ℤ → ℤ → Book → Outcome
rest_in n incoming price reported now b = record {
  book = emit (incoming_event EventKind.rested now incoming) (place_node n incoming price b);
  unaccepted_quantity = pos 0;
  reject_reason = RejectReason.none;
  rested_price = reported;
}

abbrev pub rest_or_expire_in :
    Option (ℕ × NodePool) → Order → ℤ → Option ℤ → RejectReason → ℤ → Book → Outcome
rest_or_expire_in none incoming price reported why now b = expire incoming why now b
rest_or_expire_in (some (n, pool)) incoming price reported why now b =
    rest_in n incoming price reported now (record b { pool = pool })

-- Rests the remainder, or expires it for `why` where the pool is exhausted.
unfoldable pub rest_or_expire : Order → ℤ → Option ℤ → RejectReason → ℤ → Book → Outcome
unfolding rest_in expire
rest_or_expire incoming price reported why now b =
    rest_or_expire_in (acquire b.pool) incoming price reported why now b

abbrev pub clamp_to_edge : Side → ℤ → Book → ℤ
clamp_to_edge Side.buy price b = min_ℤ price (upper_band_price b)
clamp_to_edge Side.sell price b = max_ℤ price (lower_band_price b)

abbrev pub rest_clamped : Order → ℤ → RejectReason → ℤ → Book → Outcome
rest_clamped incoming edge why now b =
    let clamped = record incoming { price = some edge } in
    if is_ok (validate_order_fields clamped)
    then rest_or_expire clamped edge (some edge) why now b
    else expire clamped why now b

-- `*incoming.price` of a limit order; a limit order without a price is refused before this.
abbrev pub rest_at_band_edge : Option ℤ → Order → RejectReason → ℤ → Book → Outcome
rest_at_band_edge none incoming why now b = expire incoming why now b
rest_at_band_edge (some price) incoming why now b =
    rest_clamped incoming (clamp_to_edge incoming.side price b) why now b

abbrev pub drop_remainder : Order → RejectReason → ℤ → Book → Outcome
drop_remainder incoming why now b =
    if ltb_ℤ (pos 0) incoming.quantity then expire incoming why now b else record {
      book = b;
      unaccepted_quantity = incoming.quantity;
      reject_reason = why;
      rested_price = none;
    }

-- The walk stopped at the band: a limit remainder rests at the band's edge.
unfoldable pub settle_at_band : Order → RejectReason → ℤ → Book → Outcome
unfolding validate_order_fields rest_or_expire expire
settle_at_band incoming why now b =
    if is_market incoming.type
    then drop_remainder incoming why now b
    else rest_at_band_edge incoming.price incoming why now b

abbrev pub rest_at_price : Option ℤ → Order → ℤ → Book → Outcome
rest_at_price none incoming now b = expire incoming RejectReason.pool_exhausted now b
rest_at_price (some price) incoming now b =
    rest_or_expire incoming price none RejectReason.pool_exhausted now b

abbrev pub done : Order → RejectReason → Book → Outcome
done incoming why b = record {
  book = b;
  unaccepted_quantity = incoming.quantity;
  reject_reason = why;
  rested_price = none;
}

-- The last branch: a limit order with nothing left, or a market order.
unfoldable pub settle_market : MatchPlan → Order → ℤ → Book → Outcome
unfolding expire
settle_market plan incoming now b =
    let why =
      if plan.stopped_by_collar && ltb_ℤ (pos 0) incoming.quantity
      then RejectReason.price_collar
      else RejectReason.none in
    if is_market incoming.type && ltb_ℤ (pos 0) incoming.quantity
    then expire incoming why now b
    else done incoming why b

unfoldable pub settle : MatchPlan → FillLoop → ℤ → Outcome
unfolding settle_at_band rest_or_expire expire settle_market
settle plan s now =
    if s.halted_by_band || s.band_limited
    then settle_at_band s.incoming
        (if s.halted_by_band then RejectReason.symbol_halted else RejectReason.price_band) now
        s.book
    else if plan.halted_by_self_trade
    then expire s.incoming RejectReason.self_trade now s.book
    else if ltb_ℤ (pos 0) s.incoming.quantity && not (is_market s.incoming.type)
    then rest_at_price s.incoming.price s.incoming now s.book
    else settle_market plan s.incoming now s.book
