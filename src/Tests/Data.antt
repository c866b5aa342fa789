-- ===== src/Tests/Data.antt =====
-- Orders, books and histories for the tests.
use order_book_engine.Prelude.{
  Option, true, arith, refl, ℕ, ℤ, pos, none, some, List, [], ◌∷◌, lookup, insert, emplace, erase,
  remove, ◌+ℤ◌, ◌-ℤ◌, ◌*ℤ◌, ◌/ℤ◌,
}
use order_book_engine.Types.{Side, buy, sell, limit, market, Order, StopOrder}
use order_book_engine.Levels.{
  new_pool, acquire, release, get_or_create_level, unlink_and_maybe_erase_from_level, reduce_level,
}
use order_book_engine.Levels.Sides.{IsSide}
use order_book_engine.Book.State.{
  Book, Config, new_book, drain_events, emit, emit_rejected, owned_by, id_in_use, best_bid,
  best_ask,
}
use order_book_engine.Book.Bands.{lower_limit, upper_limit, within_band}
use order_book_engine.Book.Matching.{inside_collar, walk_queue, walk_side, plan_match}
use order_book_engine.Book.Resting.{
  reduce_resting, unlink_and_maybe_erase_level, remove_resting, place_node,
}
use order_book_engine.Book.Filling.{
  validate_order_fields, resume, validate_new_order, check_band, add_filled, retire_if_filled,
  fill_passive, execute_fill, execute_fills,
}
use order_book_engine.Book.Settling.{
  expire, rest_in, rest_or_expire, settle_at_band, settle_market, settle,
}
use order_book_engine.Book.Adding.{run_fills, accept_order, add_order_core_with}
use order_book_engine.Book.Stops.{
  emplace_stop, insert_dormant_stop, insert_by_priority, sort_by_priority, erase_stops, wake_stops,
}
use order_book_engine.Book.Cascade.{
  check_while_draining, fire_stop, return_stops, drain_stops, check_and_trigger_stops,
  add_order_core, add_order,
}
use order_book_engine.Book.Commands.{
  cancel_order, modify_in_place, replace_order, modify_node, modify_order,
}
use order_book_engine.Book.StopCommands.{
  validate_stop_fields, would_trigger_now, stop_gone_reason, check_stop, accept_stop,
  place_stop_order, find_stop, erase_stop, cancel_stop_order, update_stop, modify_stop_order,
}
use order_book_engine.Book.Calls.{Call, call, run}
use order_book_engine.Book.Queries.{snapshot, collect_orders, collect_queue}
use order_book_engine.Server.Router.{Router, submit_all, submit_command}
use order_book_engine.Server.Commands.{Command, Stamped, Output}
use order_book_engine.Server.Worker.{
  Worker, new_worker, submit, serve, serve_all, visit_command, answer, publish,
}

-- Unfolds the whole model.
unfoldable pub engine : Unit {0}
unfolding submit_all submit_command submit drain_events snapshot collect_orders collect_queue serve
    serve_all visit_command answer publish lookup insert emplace erase remove ◌+ℤ◌ ◌-ℤ◌ ◌*ℤ◌ ◌/ℤ◌
    new_pool acquire release get_or_create_level unlink_and_maybe_erase_from_level reduce_level
    new_book emit emit_rejected owned_by id_in_use best_bid best_ask lower_limit upper_limit
    within_band inside_collar walk_queue walk_side plan_match reduce_resting
    unlink_and_maybe_erase_level remove_resting place_node validate_order_fields resume
    validate_new_order check_band add_filled retire_if_filled fill_passive execute_fill
    execute_fills expire rest_in rest_or_expire settle_at_band settle_market settle run_fills
    accept_order add_order_core_with emplace_stop insert_dormant_stop insert_by_priority
    sort_by_priority erase_stops wake_stops check_while_draining fire_stop return_stops drain_stops
    check_and_trigger_stops add_order_core add_order cancel_order modify_in_place replace_order
    modify_node modify_order validate_stop_fields would_trigger_now stop_gone_reason check_stop
    accept_stop place_stop_order find_stop erase_stop cancel_stop_order update_stop
    modify_stop_order call run
engine = tt

abbrev pub config : Config
config = record {
  band_bps = pos 1000;
  grace_period_ms = pos 2000;
  halt_duration_ms = pos 30000;
  market_collar_bps = pos 0;
}

abbrev pub limit_order : ℕ → ℕ → Side → ℕ → ℕ → Order
limit_order id owner side price quantity = record {
  id = id;
  owner_id = owner;
  side = side;
  type = limit;
  price = some (pos price);
  quantity = pos quantity;
  filled = pos 0;
}

abbrev pub market_order : ℕ → ℕ → Side → ℕ → Order
market_order id owner side quantity = record {
  id = id;
  owner_id = owner;
  side = side;
  type = market;
  price = none;
  quantity = pos quantity;
  filled = pos 0;
}

abbrev pub sell_stop : ℕ → ℕ → ℕ → ℕ → StopOrder
sell_stop id owner price quantity = record {
  id = id;
  owner_id = owner;
  side = sell;
  stop_price = pos price;
  quantity = pos quantity;
  limit_price = none;
}

abbrev pub empty_book : Book
empty_book = new_book 6 config

-- Account 7 offers 5 at 100 and 4 at 101; account 8 offers 3 at 101.
abbrev pub offers : Book
offers =
    (add_order (limit_order 3 8 sell 101 3) (pos 2)
      (add_order (limit_order 2 7 sell 101 4) (pos 1)
        (add_order (limit_order 1 7 sell 100 5) (pos 0) empty_book).0).0).0

-- Account 9 takes the first offer whole.
abbrev pub traded : Book
traded = (add_order (limit_order 4 9 buy 100 5) (pos 3) offers).0

-- The reference is 100; then 5 are offered at 50 and 5 at 55, below the band of 90 to 110.
abbrev pub far_below : Book
far_below =
    (add_order (limit_order 6 7 sell 55 5) (pos 5)
      (add_order (limit_order 5 7 sell 50 5) (pos 4) traded).0).0

-- Account 9 places a sell stop at 60 and a second one at 52.
abbrev pub with_stops : Book
with_stops =
    (place_stop_order (sell_stop 21 9 52 2) (pos 8)
      (place_stop_order (sell_stop 20 9 60 2) (pos 7) traded).0).0

abbrev pub history : List (ℤ × Call)
history =
    (pos 9, Call.add (limit_order 30 8 buy 95 2))
    ∷ (pos 10, Call.cancel 2 7)
    ∷ (pos 11, Call.place_stop (sell_stop 31 9 70 1))
    ∷ (pos 12, Call.modify 3 8 (pos 101) (pos 2))
    ∷ []

abbrev pub after_history : Book
after_history =
    (modify_order 3 8 (pos 101) (pos 2) (pos 12)
      (place_stop_order (sell_stop 31 9 70 1) (pos 11)
        (cancel_order 2 7 (pos 10) (add_order (limit_order 30 8 buy 95 2) (pos 9) traded).0).0).0).0

-- The grace period begins with a trade at 50, and a market order after its end meets 101.
abbrev pub halted_book : Book
halted_book =
    (add_order (market_order 41 9 buy 5) (pos 3000)
      (cancel_order 6 7 (pos 7) (add_order (limit_order 40 9 buy 50 5) (pos 6) far_below).0).0).0

abbrev pub halt_session : List (ℤ × Call)
halt_session =
    (pos 4000, Call.add (limit_order 42 9 buy 101 5))
    ∷ (pos 4001, Call.cancel 2 7)
    ∷ (pos 4002, Call.modify 3 8 (pos 90) (pos 2))
    ∷ []

abbrev pub after_halt_session : Book
after_halt_session =
    (modify_order 3 8 (pos 90) (pos 2) (pos 4002)
      (cancel_order 2 7 (pos 4001)
        (add_order (limit_order 42 9 buy 101 5) (pos 4000) halted_book).0).0).0

pub offers_asks-IsSide : IsSide sell offers.pool.nodes offers.asks
unfolding engine
offers_asks-IsSide = record {
  sorted = ((refl, tt), (tt, tt));
  levels = (
    record { filled = omega arith; total = refl; count = refl },
    (record { filled = omega arith; total = refl; count = refl }, tt),
  );
}

abbrev pub value_or {ℓ} : {A : Type ℓ} → A → Option A → A
value_or d none = d
value_or d (some a) = a

abbrev pub stamped : ℕ → ℕ → Command → Stamped
stamped seq ts command = record {
  seq = seq;
  ts = pos ts;
  command = command;
  gateway_id = "gateway";
  account_id = 9;
}

-- A new order, its cancel, a snapshot and a shutdown.
abbrev pub items : List Stamped
items =
    stamped 1 5 (
      Command.new_order
        (record { client_order_id = "first"; symbol = 1; order = limit_order 0 9 buy 100 5 }))
    ∷ stamped 2 6 (
        Command.cancel_order
          (record { client_order_id = "second"; symbol = 1; requester = 9; order_id = 1 }))
    ∷ stamped 3 7 (Command.take_snapshot (record { symbol = 1; subscriber = 4 }))
    ∷ stamped 0 0 Command.shutdown
    ∷ []

abbrev pub worker : Worker
worker = record new_worker { books = (1, empty_book) ∷ []; started = true }

abbrev pub worked : Worker × List Output
worked = value_or (worker, []) (serve_all items worker)

-- Symbol 1 is served by worker 0 and symbol 2 by worker 1.
abbrev pub router : Router
router = record {
  workers = worker ∷ record new_worker { started = true } ∷ [];
  routes = (1, 0) ∷ (2, 1) ∷ [];
  next_seq = 1;
  started = true;
  running = true;
}

abbrev pub cancel_in : ℕ → Command
cancel_in symbol =
    Command.cancel_order
      (record { client_order_id = "cancel"; symbol = symbol; requester = 9; order_id = 1 })

abbrev pub submissions : List (ℤ × Command)
submissions =
    (pos 5, cancel_in 1) ∷ (pos 6, cancel_in 3) ∷ (pos 7, cancel_in 2) ∷ (pos 8, cancel_in 1) ∷ []

abbrev pub submitted : Router
submitted = value_or router (submit_all submissions router)
