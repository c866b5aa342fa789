-- ===== src/Draining/Nested.antt =====
-- The drain calls `add_order_core_with check_while_draining` in place of add_order_core
-- (engine/src/stops.cpp, engine/src/book.cpp): the two compared while `draining_stops_` is set.
use order_book_engine.Prelude.{
  ℤ, List, [], ◌∷◌, ◌≡◌, refl, ap, sym, ◌∙◌, inl, inr, Bool, true, false, not, Bool-cases,
}
use order_book_engine.Types.{Order, StopOrder, Trade, EventKind, is_ok}
use order_book_engine.Book.State.{Book, emit, stop_event}
use order_book_engine.Book.Matching.{plan_match}
use order_book_engine.Book.Filling.{validate_new_order}
use order_book_engine.Book.Settling.{incoming_event, settle}
use order_book_engine.Book.Adding.{
  after_trades, run_fills, result_of, accept_order, add_order_core_with, check_duplicate, low_price,
  high_price, last_price, record_prices,
}
use order_book_engine.Book.Cascade.{
  check_while_draining, check_and_trigger_stops, fire_stop, fired_order, add_order_core,
}
use order_book_engine.Tracking.{Tracking}
use order_book_engine.Tracking.Adding.{run_fills_tracked}
use order_book_engine.Tracking.Settling.{settle_tracked}
use order_book_engine.Tracking.Filling.{validate_new_order_tracked}
use order_book_engine.Draining.Calm.{wake_stops_flag}

-- The drain flag is not touched.
abbrev SameFlag : Book → Book → Type 0
SameFlag b c = c.draining_stops ≡ b.draining_stops

SameFlag-tracking : Tracking SameFlag
unfolding emit
SameFlag-tracking = record {
  trans = λ b c d h k. k ∙ h;
  same = λ b c e. ap (λ r. r.draining_stops) e;
  finished = λ b c id state e. ap (λ r. r.draining_stops) e;
  emitted = λ e b. refl;
}

check_and_trigger_stops_draining :
    (low high now : ℤ) (b : Book)
    → b.draining_stops ≡ true
    → check_and_trigger_stops low high now b ≡ check_while_draining low high now b
unfolding check_and_trigger_stops check_while_draining
check_and_trigger_stops_draining low high now b d = simp (wake_stops_flag low high b, d)

after_trades_draining :
    (ts : List Trade) (now : ℤ) (b : Book)
    → b.draining_stops ≡ true
    → after_trades check_and_trigger_stops ts now b ≡ after_trades check_while_draining ts now b
after_trades_draining [] now b d = refl
after_trades_draining (t ∷ ts) now b d =
    check_and_trigger_stops_draining (low_price t.price ts) (high_price t.price ts) now
      (record_prices (last_price t.price ts) b) d

accept_order_draining :
    (o : Order) (now : ℤ) (b : Book)
    → b.draining_stops ≡ true
    → accept_order check_and_trigger_stops o now b ≡ accept_order check_while_draining o now b
unfolding accept_order
accept_order_draining o now b d =
    let accepted = emit (incoming_event EventKind.accepted now o) b in
    let loop = run_fills o now accepted in
    ap (λ c. (c, result_of loop (settle (plan_match accepted o) loop now)))
      (after_trades_draining loop.trades now _ (
        settle_tracked SameFlag SameFlag-tracking now (plan_match accepted o) loop
        ∙ run_fills_tracked SameFlag SameFlag-tracking o now accepted
        ∙ SameFlag-tracking.emitted (incoming_event EventKind.accepted now o) b
        ∙ d))

add_order_core_draining :
    (o : Order) (now : ℤ) (report : Bool) (b : Book)
    → b.draining_stops ≡ true
    → add_order_core o now report b ≡ add_order_core_with check_while_draining o now report b
unfolding add_order_core add_order_core_with
add_order_core_draining o now report b d =
    let (why, checked) = validate_new_order o now b in
    let invalid = check_duplicate o.id why checked in
    elim (Bool-cases (not (is_ok invalid))) [
      | inl e ↦ simp e
      | inr e ↦ simp e (
          accept_order_draining o now checked
            (validate_new_order_tracked SameFlag SameFlag-tracking o now b ∙ d))
    ]

-- While `draining_stops_` is set, firing a stop is what the source does: a StopTriggered event, then
-- the whole add_order_core, with its own call of check_and_trigger_stops, on the stop's order.
pub fire_stop-add_order_core :
    (s : StopOrder) (now : ℤ) (b : Book)
    → b.draining_stops ≡ true
    → fire_stop s now b
      ≡ (add_order_core
          (fired_order s)
          now
          false
          (emit (stop_event EventKind.stop_triggered now s) b)).0
unfolding fire_stop
fire_stop-add_order_core s now b d =
    ap (λ r. r.0)
      (sym (
        add_order_core_draining (fired_order s) now false
          (emit (stop_event EventKind.stop_triggered now s) b)
          (SameFlag-tracking.emitted (stop_event EventKind.stop_triggered now s) b ∙ d)))
