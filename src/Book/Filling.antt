-- ===== src/Book/Filling.antt =====
-- The loop of Book::add_order_core (engine/src/book.cpp) over the planned fills, and the
-- validation of engine/src/book_levels.cpp.
pub mod Trades
pub mod Grace
use order_book_engine.Prelude.{
  ℕ, ◌+◌, ◌%◌, ℤ, pos, ◌+ℤ◌, ◌-ℤ◌, ◌==ℤ◌, leb_ℤ, ltb_ℤ, min_ℤ, max_ℤ, Bool, true, false, ◌&&◌, ◌||◌,
  not, Option, none, some, is_some, List, [], ◌∷◌, ◌++◌, if◌then◌else◌, insert,
}
use order_book_engine.Types.{
  Side, OrderType, Order, Trade, RejectReason, OrderResult, EventKind, EngineEvent, FinalState,
  is_fully_filled, is_ok,
}
use order_book_engine.Levels.{NodePool, acquire}
use order_book_engine.Book.State.{Book, word, emit, emit_rejected, order_event, id_in_use}
use order_book_engine.Book.Bands.{within_band, lower_band_price, upper_band_price}
use order_book_engine.Book.Matching.{ProposedFill, MatchPlan, is_market, plan_match}
use order_book_engine.Book.Resting.{node_at, write_node, reduce_resting, remove_resting, place_node}

abbrev pub is_positive : Option ℤ → Bool
is_positive none = false
is_positive (some price) = ltb_ℤ (pos 0) price

unfoldable pub validate_order_fields : Order → RejectReason
validate_order_fields order =
    if not (is_market order.type) && not (is_positive order.price)
    then RejectReason.invalid_price
    else if is_market order.type && is_some order.price
    then RejectReason.invalid_price
    else if leb_ℤ order.quantity (pos 0)
    then RejectReason.invalid_quantity
    else RejectReason.none

abbrev pub resumed_event : ℤ → EngineEvent
resumed_event now = order_event EventKind.resumed now 0 0 Side.buy none (pos 0)

-- The end of a halt that has run out.
unfoldable pub resume : ℤ → Book → Book
unfolding emit
resume now b = emit (resumed_event now) (record b { halted = false; outside_band_since = none })

-- Also resumes trading once the halt is over.
unfoldable pub validate_new_order : Order → ℤ → Book → RejectReason × Book
unfolding validate_order_fields resume
validate_new_order order now b =
    if b.halted
    then if ltb_ℤ now b.halt_until
      then (RejectReason.symbol_halted, b)
      else (validate_order_fields order, resume now b)
    else (validate_order_fields order, b)

-- The variables of the loop over the planned fills.
pub record FillLoop : Type 0 where
  pub book : Book
  pub incoming : Order
  pub trades : List Trade
  pub breach_level : Option ℤ
  pub halted_by_band : Bool
  pub band_limited : Bool

abbrev pub start_loop : Order → Book → FillLoop
start_loop incoming b = record {
  book = b;
  incoming = incoming;
  trades = [];
  breach_level = none;
  halted_by_band = false;
  band_limited = false;
}

-- The band check goes on to the fill, or leaves the loop.
pub data Verdict : Type 0 where
  proceed : FillLoop → Verdict
  leave : FillLoop → Verdict

abbrev pub halt_by_band : ℤ → ℤ → FillLoop → FillLoop
halt_by_band fill_price now s = record s {
  halted_by_band = true;
  book =
      emit
        (order_event EventKind.halted now s.incoming.id s.incoming.owner_id s.incoming.side
          (some fill_price) s.incoming.quantity)
        (record (s.book) { halted = true; halt_until = now +ℤ s.book.halt_duration_ms });
}

-- Out of the band during the grace period: one level may be traded.
abbrev pub use_grace : ℤ → Option ℤ → FillLoop → Verdict
use_grace fill_price none s = proceed (record s { breach_level = some fill_price })
use_grace fill_price (some breach) s =
    if fill_price ==ℤ breach then proceed s else leave (record s { band_limited = true })

abbrev pub out_of_band : ℤ → ℤ → Option ℤ → FillLoop → Verdict
out_of_band fill_price now none s = proceed (record s {
  book = record (s.book) { outside_band_since = some now };
  breach_level = some fill_price;
})
out_of_band fill_price now (some since) s =
    if leb_ℤ s.book.grace_period_ms (now -ℤ since)
    then leave (halt_by_band fill_price now s)
    else use_grace fill_price s.breach_level s

unfoldable pub check_band : ℤ → ℤ → FillLoop → Verdict
unfolding emit
check_band fill_price now s =
    if within_band fill_price s.book
    then proceed (record s { book = record (s.book) { outside_band_since = none } })
    else out_of_band fill_price now s.book.outside_band_since s

abbrev pub buyer : Side → ℕ → ℕ → ℕ
buyer Side.buy incoming passive = incoming
buyer Side.sell incoming passive = passive

abbrev pub seller : Side → ℕ → ℕ → ℕ
seller Side.buy incoming passive = passive
seller Side.sell incoming passive = incoming

abbrev pub make_trade : ProposedFill → ℤ → Order → Book → Trade
make_trade fill now incoming b =
    let passive = (node_at b fill.passive_node).order in
    record {
      trade_id = b.next_trade_id;
      price = fill.fill_price;
      quantity = fill.fill_quantity;
      aggressor_id = incoming.id;
      passive_id = passive.id;
      buy_owner = buyer incoming.side incoming.owner_id passive.owner_id;
      sell_owner = seller incoming.side incoming.owner_id passive.owner_id;
      aggressor_side = incoming.side;
      ts = now;
    }

abbrev pub trade_event : Trade → EngineEvent
trade_event t = record {
  sequence_number = 0;
  kind = EventKind.trade;
  ts = t.ts;
  order_id = t.aggressor_id;
  passive_id = t.passive_id;
  owner_id = t.buy_owner;
  other_owner = t.sell_owner;
  side = t.aggressor_side;
  price = some t.price;
  quantity = t.quantity;
  limit_price = none;
  reject_reason = RejectReason.none;
}

-- `fill.passive_node->order.filled += by`
unfoldable pub add_filled : ℕ → ℤ → Book → Book
add_filled n by b =
    let node = node_at b n in
    let order = node.order in
    write_node n (record node { order = record order { filled = order.filled +ℤ by } }) b

-- A passive order with nothing left is recorded as filled and leaves the book.
unfoldable pub retire_if_filled : ℕ → Book → Book
retire_if_filled n b =
    let passive = (node_at b n).order in
    if is_fully_filled passive
    then remove_resting n
        (record b { finished_orders = insert passive.id FinalState.filled b.finished_orders })
    else b

-- The passive side of a fill.
unfoldable pub fill_passive : ProposedFill → Book → Book
unfolding add_filled retire_if_filled
fill_passive fill b = retire_if_filled fill.passive_node (
    reduce_resting fill.passive_node fill.fill_quantity
      (add_filled fill.passive_node fill.fill_quantity b))

-- One round of the loop past the band check.
unfoldable pub execute_fill : ProposedFill → ℤ → FillLoop → FillLoop
execute_fill fill now s =
    let trade = make_trade fill now s.incoming s.book in
    let counted = record (s.book) { next_trade_id = (s.book.next_trade_id + 1) % word } in
    record s {
      book = fill_passive fill (emit (trade_event trade) counted);
      incoming = record (s.incoming) {
        quantity = s.incoming.quantity -ℤ fill.fill_quantity;
        filled = s.incoming.filled +ℤ fill.fill_quantity;
      };
      trades = s.trades ++ trade ∷ [];
    }

unfoldable pub execute_fills : List ProposedFill → ℤ → FillLoop → FillLoop
execute_fills [] now s = s
execute_fills (f ∷ fs) now s = elim (check_band f.fill_price now s) [
  | proceed s' ↦ execute_fills fs now (execute_fill f now s')
  | leave s' ↦ s'
]
