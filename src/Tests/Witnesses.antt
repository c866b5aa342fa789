-- ===== src/Tests/Witnesses.antt =====
-- Each theorem at a concrete input.
use order_book_engine.Levels.{deref, get_or_create_level, unlink_and_maybe_erase_from_level}
use order_book_engine.Levels.Sides.{IsSide, queue_at}
use order_book_engine.Levels.Placing.{get_or_create_level-IsSide}
use order_book_engine.Levels.Unlinking.{unlink-IsSide}
use order_book_engine.Prelude.{
  ℤ, inl, remove, ◌==ℤ◌, if◌then◌else◌, ◌+◌, ◌*◌, ◌-◌, ◌≤◌, pos, ◌≤ℤ◌, some, none, true, false, ◌≡◌,
  ◌↔◌, refl, List, [], ◌∷◌, ◌++◌, arith, All, leb_ℤ, ltb_ℤ, min_ℤ,
}
use order_book_engine.Types.{buy, sell, Trade, RejectReason, EngineEvent, EventKind}
use order_book_engine.Book.State.{emit, stop_event}
use order_book_engine.Book.Bands.{within_band, upper_band_price}
use order_book_engine.Book.Bands.Rounding.{within_band-exact}
use order_book_engine.Book.Matching.{plan_match, opposing_levels}
use order_book_engine.Book.Matching.Greedy.{allocate, until_own, reachable, plan_match-allocate}
use order_book_engine.Book.Matching.Fairness.{FairFill, fill_total, plan_match-FairFill}
use order_book_engine.Book.Matching.Exhaustion.{whole_side, plan_match-whole_side}
use order_book_engine.Book.Filling.{start_loop, execute_fills}
use order_book_engine.Book.Filling.Grace.{OneLevel, execute_fills-OneLevel}
use order_book_engine.Book.Filling.Trades.{Follows, execute_fills-Follows}
use order_book_engine.Book.Settling.{settle_at_band}
use order_book_engine.Book.Queries.{depth, check_invariants, is_crossed}
use order_book_engine.Book.Queries.Depth.{added_up_levels, depth-added_up}
use order_book_engine.Book.Settling.Crossing.{limit_buy, settle_at_band_crossed}
use order_book_engine.Book.Cascade.{add_order, add_order_core, fire_stop, fired_order, drain_stops}
use order_book_engine.Book.Commands.{cancel_order, modify_order, no_trades}
use order_book_engine.Book.StopCommands.{cancel_stop_order, modify_stop_order}
use order_book_engine.History.{Consecutive}
use order_book_engine.History.Sessions.{
  Refused, run-Consecutive, stranger_refused, finished_id-Refused,
}
use order_book_engine.Draining.Count.{drain_stops_ends}
use order_book_engine.Draining.Calm.{IsCalm, run-IsCalm}
use order_book_engine.Draining.Nested.{fire_stop-add_order_core}
use order_book_engine.Conservation.{Conserves, add_order-Conserves}
use order_book_engine.Halting.{Held, IsQuiet}
use order_book_engine.Halting.Sessions.{run_halted}
use order_book_engine.Server.Worker.Replies.{tickets, owed, serve_all-tickets}
use order_book_engine.Server.Router.{worker_at}
use order_book_engine.Server.Router.Delivery.{items_for, delivered, submit_all-delivered}
use mathlib.Core.List.{Perm}
use order_book_engine.Book.Stops.{Woken, with_priority, stops_of, wake_stops}
use order_book_engine.Book.Stops.Waking.{priced, IsAscending, wake_stops-priced}
use order_book_engine.Server.Worker.Streams.{GoesOn}
use order_book_engine.Server.Worker.Streams.Serving.{serve_all-GoesOn}
use order_book_engine.Tests.Data.{
  engine, empty_book, router, submissions, submitted, items, worker, worked, offers_asks-IsSide,
  limit_order, sell_stop, offers, traded, far_below, with_stops, history, after_history,
  halted_book, halt_session, after_halt_session,
}

add_order-Conserves_example :
    Conserves (limit_order 4 9 buy 101 20) (add_order (limit_order 4 9 buy 101 20) (pos 3) offers)
add_order-Conserves_example = add_order-Conserves (limit_order 4 9 buy 101 20) (pos 3) offers

plan_match-allocate_example :
    (plan_match offers (limit_order 4 8 buy 101 20)).fills
    ≡ allocate offers.pool.nodes (pos 20) (
        until_own offers.pool.nodes 8
          (reachable offers (limit_order 4 8 buy 101 20) (opposing_levels buy offers)))
plan_match-allocate_example = plan_match-allocate offers (limit_order 4 8 buy 101 20)

plan_match-FairFill_example :
    let fills = (plan_match offers (limit_order 4 8 buy 101 20)).fills in
    All (FairFill offers (limit_order 4 8 buy 101 20)) fills × (fill_total fills ≤ℤ pos 20)
plan_match-FairFill_example = plan_match-FairFill offers (limit_order 4 8 buy 101 20) (omega arith)

plan_match-whole_side_example :
    (plan_match offers (limit_order 4 9 buy 101 20)).fills
    ≡ whole_side offers.pool.nodes (limit_order 4 9 buy 101 20) (opposing_levels buy offers)
unfolding engine
plan_match-whole_side_example =
    plan_match-whole_side offers (limit_order 4 9 buy 101 20) refl refl (omega arith)

within_band-exact_example :
    (within_band (pos 90) traded ≡ true)
    ↔ ((100 * (10000 - 1000) ≤ 10000 * 90) × (10000 * 90 ≤ 100 * (10000 + 1000)))
unfolding engine
within_band-exact_example = within_band-exact traded 100 1000 90 refl refl refl (omega arith)

settle_at_band_crossed_example :
    is_crossed
      (settle_at_band
        (limit_buy 7 9 (pos 200) (pos 15) (pos 5))
        RejectReason.price_band
        (pos 6)
        far_below).book
    ≡ leb_ℤ (pos 50) (min_ℤ (pos 200) (upper_band_price far_below))
unfolding engine is_crossed
settle_at_band_crossed_example =
    settle_at_band_crossed 7 9 (pos 200) (pos 15) (pos 5) (pos 50) (pos 6) RejectReason.price_band
      far_below refl refl refl (omega arith) (omega arith) (omega arith)

run-Consecutive_example :
    (new : List EngineEvent) × (after_history.events ≡ traded.events ++ new)
    × Consecutive traded.next_seq new after_history.next_seq
unfolding engine
run-Consecutive_example = run-Consecutive history traded after_history refl

stranger_refused_example :
    (cancel_order 3 9 (pos 13) after_history ≡ (after_history, RejectReason.unknown_order))
    × (modify_order 3 9 (pos 99) (pos 1) (pos 13) after_history
        ≡ (after_history, no_trades (pos 1) RejectReason.unknown_order))
    × (cancel_stop_order 3 9 (pos 13) after_history
        ≡ some (after_history, RejectReason.unknown_order))
    × (modify_stop_order 3 9 (pos 99) none (pos 1) (pos 13) after_history
        ≡ some (after_history, RejectReason.unknown_order))
unfolding engine
stranger_refused_example =
    stranger_refused history traded after_history 3 8 9 (pos 13) (pos 99) (pos 1) none refl refl
      (omega arith)

finished_id-Refused_example :
    Refused
      (limit_order 1 7 sell 100 5)
      after_history
      (add_order (limit_order 1 7 sell 100 5) (pos 13) after_history)
unfolding engine
finished_id-Refused_example =
    finished_id-Refused history traded after_history (limit_order 1 7 sell 100 5) (pos 13) refl refl

drain_stops_ends_example :
    (drain_stops 4
      (pos 9)
      (record with_stops { triggered_stops = sell_stop 22 9 80 1 ∷ [] })).triggered_stops
    ≡ []
unfolding engine
drain_stops_ends_example =
    drain_stops_ends 4 (pos 9) (record with_stops { triggered_stops = sell_stop 22 9 80 1 ∷ [] })
      (omega arith)

run-IsCalm_example : IsCalm after_history
unfolding engine
run-IsCalm_example =
    run-IsCalm history traded after_history refl (record { triggered = refl; draining = refl })

fire_stop-add_order_core_example :
    fire_stop (sell_stop 22 9 80 1) (pos 9) (record with_stops { draining_stops = true })
    ≡ (add_order_core (fired_order (sell_stop 22 9 80 1)) (pos 9) false (
        emit
          (stop_event EventKind.stop_triggered (pos 9) (sell_stop 22 9 80 1))
          (record with_stops { draining_stops = true }))).0
fire_stop-add_order_core_example =
    fire_stop-add_order_core (sell_stop 22 9 80 1) (pos 9)
      (record with_stops { draining_stops = true }) refl

execute_fills-Follows_example :
    let order = limit_order 4 9 buy 101 20 in
    let fills = (plan_match offers order).fills in
    let done = execute_fills fills (pos 3) (start_loop order offers) in
    (new : List Trade) × (done.trades ≡ [] ++ new) × Follows fills new
execute_fills-Follows_example =
    let order = limit_order 4 9 buy 101 20 in
    execute_fills-Follows (plan_match offers order).fills (pos 3) (start_loop order offers)

depth-added_up_example :
    ((depth 1 offers).bids ≡ added_up_levels offers.pool.nodes 1 offers.bids)
    × ((depth 1 offers).asks ≡ added_up_levels offers.pool.nodes 1 offers.asks)
unfolding engine check_invariants
depth-added_up_example = depth-added_up 1 offers refl

execute_fills-OneLevel_example :
    let order = limit_order 7 9 buy 200 20 in
    let fills = (plan_match far_below order).fills in
    OneLevel far_below
      (pos 6)
      far_below.outside_band_since
      none
      (execute_fills fills (pos 6) (start_loop order far_below)).trades
execute_fills-OneLevel_example =
    let order = limit_order 7 9 buy 200 20 in
    execute_fills-OneLevel (plan_match far_below order).fills (pos 6) order far_below

run_halted_example :
    (after_halt_session.halted ≡ true)
    × (after_halt_session.halt_until ≡ halted_book.halt_until)
    × (after_halt_session.next_trade_id ≡ halted_book.next_trade_id)
    × (after_halt_session.reference_price ≡ halted_book.reference_price)
    × (after_halt_session.last_trade_price ≡ halted_book.last_trade_price)
    × ((new : List EngineEvent) × (after_halt_session.events ≡ halted_book.events ++ new)
        × All IsQuiet new)
    × Held halted_book after_halt_session
unfolding engine
run_halted_example =
    run_halted halt_session halted_book after_halt_session refl refl
      (omega arith, (omega arith, (omega arith, tt)))

get_or_create_level-IsSide_example :
    let nodes = offers.pool.nodes in
    let placed = get_or_create_level sell (pos 101) 0 (deref nodes 0).order.quantity offers.asks in
    IsSide sell nodes placed
    × ((p : ℤ)
        → queue_at p placed
          ≡ (if p ==ℤ pos 101 then queue_at p offers.asks ++ 0 ∷ [] else queue_at p offers.asks))
get_or_create_level-IsSide_example =
    get_or_create_level-IsSide sell offers.pool.nodes (pos 101) 0 offers.asks offers_asks-IsSide

unlink-IsSide_example :
    let nodes = offers.pool.nodes in
    let left =
      unlink_and_maybe_erase_from_level (pos 100) 0 (deref nodes 0).order.quantity offers.asks in
    IsSide sell nodes left
    × ((p : ℤ)
        → queue_at p left
          ≡ (if p ==ℤ pos 100 then remove 0 (queue_at p offers.asks) else queue_at p offers.asks))
unfolding engine queue_at
unlink-IsSide_example =
    unlink-IsSide sell offers.pool.nodes (pos 100) 0 offers.asks offers_asks-IsSide (inl refl)

serve_all-tickets_example : tickets worked.1 ≡ owed items
unfolding engine
serve_all-tickets_example = serve_all-tickets items worker worked.0 worked.1 refl

submit_all-delivered_example :
    (worker_at submitted 0).inbox
    ≡ (worker_at router 0).inbox
      ++ items_for 0 (delivered router.routes router.next_seq submissions)
unfolding engine
submit_all-delivered_example =
    submit_all-delivered 0 submissions router submitted refl refl (omega arith)

wake_stops-priced_example :
    let c = wake_stops (pos 55) (pos 58) with_stops in
    (c.sell_stops ≡ priced (λ p. ltb_ℤ p (pos 55)) with_stops.sell_stops)
    × (c.buy_stops ≡ priced (λ p. ltb_ℤ (pos 58) p) with_stops.buy_stops)
    × ((woken : Woken) × (c.triggered_stops ≡ with_stops.triggered_stops ++ stops_of woken)
        × IsAscending woken
        × Perm woken (
            with_priority (priced (λ p. leb_ℤ (pos 55) p) with_stops.sell_stops)
            ++ with_priority (priced (λ p. leb_ℤ p (pos 58)) with_stops.buy_stops)))
unfolding engine
wake_stops-priced_example = wake_stops-priced (pos 55) (pos 58) with_stops ((refl, tt), (tt, tt)) tt

serve_all-GoesOn_example : GoesOn 1 empty_book worked.0 worked.1
unfolding engine
serve_all-GoesOn_example =
    serve_all-GoesOn items worker worked.0 worked.1 1 empty_book refl refl refl
