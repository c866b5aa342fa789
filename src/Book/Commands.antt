-- ===== src/Book/Commands.antt =====
-- The commands of class Book on resting orders: modify_order and cancel_order
-- (engine/src/book.cpp).
use order_book_engine.Prelude.{
  ℕ, ℤ, pos, ◌-ℤ◌, leb_ℤ, eq_option_ℤ, false, ◌&&◌, not, Option, none, some, [], if◌then◌else◌,
  lookup, contains,
}
use order_book_engine.Types.{Order, OrderResult, EventKind, RejectReason, is_ok}
use order_book_engine.Book.State.{Book, emit, owned_by}
use order_book_engine.Book.Resting.{node_at, reduce_resting, remove_resting}
use order_book_engine.Book.Filling.{validate_order_fields, validate_new_order}
use order_book_engine.Book.Settling.{incoming_event}
use order_book_engine.Book.Cascade.{add_order_core}

-- `finished_orders_.contains(id) ? TooLate : UnknownOrder`
abbrev pub gone_reason : ℕ → Book → RejectReason
gone_reason id b =
    if contains id b.finished_orders then RejectReason.too_late else RejectReason.unknown_order

abbrev pub cancel_node : ℕ → ℤ → Book → Book
cancel_node n now b =
    remove_resting n (emit (incoming_event EventKind.cancelled now (node_at b n).order) b)

abbrev pub cancel_found : Option ℕ → ℕ → ℤ → Book → Book × RejectReason
cancel_found none id now b = (b, gone_reason id b)
cancel_found (some n) id now b = (cancel_node n now b, RejectReason.none)

unfoldable pub cancel_order : ℕ → ℕ → ℤ → Book → Book × RejectReason
cancel_order id requester now b =
    if not (owned_by id requester b)
    then (b, RejectReason.unknown_order)
    else cancel_found (lookup id b.id_index) id now b

-- An OrderResult with no trade.
abbrev pub no_trades : ℤ → RejectReason → OrderResult
no_trades unaccepted why = record {
  trades = [];
  unaccepted_quantity = unaccepted;
  reject_reason = why;
  rested_price = none;
}

-- A smaller order at the same price keeps its place.
unfoldable pub modify_in_place : ℕ → ℤ → ℤ → Book → Book
modify_in_place n new_remaining now b =
    let reduced = reduce_resting n ((node_at b n).order.quantity -ℤ new_remaining) b in
    emit (incoming_event EventKind.modified now (node_at reduced n).order) reduced

-- Any other change takes the order off the book and adds it again.
unfoldable pub replace_order : ℕ → Order → ℤ → ℤ → Book → Book × OrderResult
replace_order n replacement new_total now b =
    let (invalid, checked) = validate_new_order replacement now b in
    if not (is_ok invalid)
    then (checked, no_trades new_total invalid)
    else add_order_core replacement now false (
        remove_resting n
          (emit (incoming_event EventKind.replaced now (node_at checked n).order) checked))

unfoldable pub modify_node : ℕ → ℤ → ℤ → ℤ → Book → Book × OrderResult
unfolding modify_in_place replace_order
modify_node n new_price new_total now b =
    let order = (node_at b n).order in
    let requested = record order { price = some new_price; quantity = new_total } in
    let bad = validate_order_fields requested in
    let new_remaining = new_total -ℤ order.filled in
    let replacement = record order { price = some new_price; quantity = new_remaining } in
    if not (is_ok bad)
    then (b, no_trades new_total bad)
    else if leb_ℤ new_remaining (pos 0)
    then (cancel_node n now b, no_trades (pos 0) RejectReason.none)
    else if eq_option_ℤ (some new_price) order.price && leb_ℤ new_remaining order.quantity
    then (modify_in_place n new_remaining now b, no_trades (pos 0) RejectReason.none)
    else replace_order n replacement new_total now b

abbrev pub modify_found : Option ℕ → ℕ → ℤ → ℤ → ℤ → Book → Book × OrderResult
modify_found none id new_price new_total now b = (b, no_trades new_total (gone_reason id b))
modify_found (some n) id new_price new_total now b = modify_node n new_price new_total now b

unfoldable pub modify_order : ℕ → ℕ → ℤ → ℤ → ℤ → Book → Book × OrderResult
unfolding modify_node
modify_order id requester new_price new_total now b =
    if not (owned_by id requester b)
    then (b, no_trades new_total RejectReason.unknown_order)
    else modify_found (lookup id b.id_index) id new_price new_total now b
