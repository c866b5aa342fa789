-- ===== src/Book/Adding.antt =====
-- Book::add_order_core (engine/src/book.cpp), over the function that it calls after its trades.
use order_book_engine.Prelude.{
  ℕ, ℤ, min_ℤ, max_ℤ, Bool, true, ◌&&◌, not, none, some, List, [], ◌∷◌, if◌then◌else◌, insert,
}
use order_book_engine.Types.{
  Order, Trade, RejectReason, OrderResult, EventKind, FinalState, is_fully_filled, is_ok,
}
use order_book_engine.Book.State.{Book, emit, emit_rejected, id_in_use}
use order_book_engine.Book.Matching.{plan_match}
use order_book_engine.Book.Filling.{FillLoop, start_loop, execute_fills, validate_new_order}
use order_book_engine.Book.Settling.{Outcome, incoming_event, settle}

abbrev pub last_price : ℤ → List Trade → ℤ
last_price p [] = p
last_price p (t ∷ ts) = last_price t.price ts

abbrev pub low_price : ℤ → List Trade → ℤ
low_price p [] = p
low_price p (t ∷ ts) = low_price (min_ℤ p t.price) ts

abbrev pub high_price : ℤ → List Trade → ℤ
high_price p [] = p
high_price p (t ∷ ts) = high_price (max_ℤ p t.price) ts

-- `if (incoming.quantity == 0) finished_orders_[incoming.id] = FinalState::Filled`
abbrev pub mark_filled : Order → Book → Book
mark_filled incoming b =
    if is_fully_filled incoming
    then record b { finished_orders = insert incoming.id FinalState.filled b.finished_orders }
    else b

unfoldable pub run_fills : Order → ℤ → Book → FillLoop
run_fills incoming now b =
    let s = execute_fills (plan_match b incoming).fills now (start_loop incoming b) in
    record s { book = mark_filled s.incoming s.book }

-- The reference price and the last trade price follow the last trade.
abbrev pub record_prices : ℤ → Book → Book
record_prices price b = record b {
  reference_price = price;
  has_reference_price = true;
  last_trade_price = some price;
}

-- `check_and_trigger_stops(low, high, now)`.
abbrev pub AfterTrades : Type 0
AfterTrades = ℤ → ℤ → ℤ → Book → Book

abbrev pub after_trades : AfterTrades → List Trade → ℤ → Book → Book
after_trades check [] now b = b
after_trades check (t ∷ ts) now b =
    check (low_price t.price ts) (high_price t.price ts) now
      (record_prices (last_price t.price ts) b)

abbrev pub reject_order : Order → RejectReason → ℤ → Bool → Book → Book
reject_order incoming why now report_reject b =
    if report_reject
    then emit_rejected incoming.id incoming.owner_id incoming.side incoming.price incoming.quantity
        none why now b
    else b

abbrev pub result_of : FillLoop → Outcome → OrderResult
result_of loop outcome = record {
  trades = loop.trades;
  unaccepted_quantity = outcome.unaccepted_quantity;
  reject_reason = outcome.reject_reason;
  rested_price = outcome.rested_price;
}

-- The part of add_order_core behind its checks.
unfoldable pub accept_order : AfterTrades → Order → ℤ → Book → Book × OrderResult
accept_order check incoming now b =
    let accepted = emit (incoming_event EventKind.accepted now incoming) b in
    let loop = run_fills incoming now accepted in
    let outcome = settle (plan_match accepted incoming) loop now in
    (after_trades check loop.trades now outcome.book, result_of loop outcome)

abbrev pub check_duplicate : ℕ → RejectReason → Book → RejectReason
check_duplicate id why b =
    if is_ok why && id_in_use id b then RejectReason.duplicate_order_id else why

unfoldable pub add_order_core_with : AfterTrades → Order → ℤ → Bool → Book → Book × OrderResult
unfolding accept_order
add_order_core_with check incoming now report_reject b =
    let (why, checked) = validate_new_order incoming now b in
    let invalid = check_duplicate incoming.id why checked in
    if not (is_ok invalid)
    then (
      reject_order incoming invalid now report_reject checked,
      record {
        trades = [];
        unaccepted_quantity = incoming.quantity;
        reject_reason = invalid;
        rested_price = none;
      },
    )
    else accept_order check incoming now checked
