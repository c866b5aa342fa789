-- ===== src/History/Cascade.antt =====
-- The history of a book through the waking and firing of stops and add_order
-- (engine/src/stops.cpp, engine/src/book.cpp).
use order_book_engine.Prelude.{
  ℕ, zero, suc, ℤ, List, [], ◌∷◌, ◌≡◌, refl, sym, ap, inl, inr, true, false, Bool-cases,
}
use order_book_engine.Types.{Side, StopOrder, EventKind}
use order_book_engine.Book.State.{Book, stop_event, StopMap}
use order_book_engine.Book.Adding.{record_prices}
use order_book_engine.Book.Stops.{with_stops, insert_dormant_stop, wake_stops}
use order_book_engine.Book.Cascade.{
  check_while_draining, fire_stop, fired_order, return_stops, give_back, drain_round_cases,
  drain_stops, drain, stop_count, check_and_trigger_stops,
}
use order_book_engine.Tracking.{CallTracking}
use order_book_engine.History.{
  Extends, Extends-trans, Extends-same, Extends-refl, Extends-emit, Extends-tracking,
}
use order_book_engine.Tracking.Adding.{add_order_core_with_tracked}

pub with_stops-Extends : (side : Side) (m : StopMap) (b : Book) → Extends b (with_stops side m b)
with_stops-Extends Side.buy m b = Extends-same _ _ refl refl refl refl refl refl
with_stops-Extends Side.sell m b = Extends-same _ _ refl refl refl refl refl refl

pub insert_dormant_stop-Extends :
    (s : StopOrder) (priority : ℕ) (b : Book) → Extends b (insert_dormant_stop s priority b)
unfolding insert_dormant_stop
insert_dormant_stop-Extends s priority b =
    Extends-trans (with_stops-Extends s.side _ b) (Extends-same _ _ refl refl refl refl refl refl)

wake_stops-Extends : (low high : ℤ) (b : Book) → Extends b (wake_stops low high b)
unfolding wake_stops
wake_stops-Extends low high b = Extends-same _ _ refl refl refl refl refl refl

record_prices-Extends : (price : ℤ) (b : Book) → Extends b (record_prices price b)
record_prices-Extends price b = Extends-same _ _ refl refl refl refl refl refl

check_while_draining-Extends :
    (low high now : ℤ) (b : Book) → Extends b (check_while_draining low high now b)
unfolding check_while_draining
check_while_draining-Extends low high now b = elim (Bool-cases b.halted) [
  | inl e ↦ simp e (Extends-refl b)
  | inr e ↦ simp e (wake_stops-Extends low high b)
]

priced_wake-Extends :
    (low high price now : ℤ) (b : Book)
    → Extends b (check_while_draining low high now (record_prices price b))
priced_wake-Extends low high price now b =
    Extends-trans (record_prices-Extends price b)
      (check_while_draining-Extends low high now (record_prices price b))

fire_stop-Extends : (s : StopOrder) (now : ℤ) (b : Book) → Extends b (fire_stop s now b)
unfolding fire_stop
fire_stop-Extends s now b =
    Extends-trans (Extends-emit (stop_event EventKind.stop_triggered now s) b) (
      add_order_core_with_tracked Extends Extends-tracking check_while_draining priced_wake-Extends
        (fired_order s) now false _)

return_stops-Extends : (ss : List StopOrder) (b : Book) → Extends b (return_stops ss b)
unfolding return_stops
return_stops-Extends [] b = Extends-refl b
return_stops-Extends (s ∷ ss) b = Extends-trans (return_stops-Extends ss b) (
    Extends-trans (insert_dormant_stop-Extends s (return_stops ss b).next_front_priority _)
      (Extends-same _ _ refl refl refl refl refl refl))

give_back-Extends : (b : Book) → Extends b (give_back b)
give_back-Extends b =
    Extends-trans (return_stops-Extends b.triggered_stops b)
      (Extends-same _ _ refl refl refl refl refl refl)

drain_stops-Extends : (fuel : ℕ) (now : ℤ) (b : Book) → Extends b (drain_stops fuel now b)
unfolding drain_stops
drain_stops-Extends zero now b = Extends-refl b
drain_stops-Extends (suc fuel) now b =
    drain_round_cases (Extends b) b.triggered_stops _ b (λ _. Extends-refl b) (give_back-Extends b)
      λ s ss _ _.
        Extends-trans
          (Extends-same b (record b { triggered_stops = ss }) refl refl refl refl refl refl)
          (Extends-trans (fire_stop-Extends s now (record b { triggered_stops = ss }))
            (drain_stops-Extends fuel now _))

-- The flag is set for the drain and cleared after it, so outside a drain it is as before.
drain-Extends : (now : ℤ) (b : Book) → b.draining_stops ≡ false → Extends b (drain now b)
drain-Extends now b calm =
    let h = drain_stops-Extends (suc (stop_count b)) now (record b { draining_stops = true }) in
    record {
      config = h.config;
      draining = sym calm;
      events = h.events;
      owners = h.owners;
      finished = h.finished;
    }

pub check_and_trigger_stops-Extends :
    (low high now : ℤ) (b : Book) → Extends b (check_and_trigger_stops low high now b)
unfolding check_and_trigger_stops
check_and_trigger_stops-Extends low high now b = elim (Bool-cases b.halted) [
  | inl h ↦ simp h (Extends-refl b)
  | inr h ↦ elim (Bool-cases (wake_stops low high b).draining_stops) [
    | inl d ↦ simp (h, d) (wake_stops-Extends low high b)
    | inr d ↦
        simp (h, d)
          (Extends-trans (wake_stops-Extends low high b)
            (drain-Extends now (wake_stops low high b) d))
  ]
]

pub priced_check-Extends :
    (low high price now : ℤ) (b : Book)
    → Extends b (check_and_trigger_stops low high now (record_prices price b))
priced_check-Extends low high price now b =
    Extends-trans (record_prices-Extends price b)
      (check_and_trigger_stops-Extends low high now (record_prices price b))

pub Extends-calls : CallTracking Extends
Extends-calls = record {
  tracking = Extends-tracking;
  dormant = λ b c e.
      Extends-same b c (ap (λ r. r.config) e) (ap (λ r. r.draining_stops) e) (ap (λ r. r.events) e)
        (ap (λ r. r.next_seq) e) (ap (λ r. r.owner_of) e) (ap (λ r. r.finished_orders) e);
  checked = check_and_trigger_stops-Extends;
}
