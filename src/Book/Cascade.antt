-- ===== src/Book/Cascade.antt =====
-- check_and_trigger_stops (engine/src/stops.cpp) with the orders that it fires, and add_order
-- (engine/src/book.cpp). The two functions of the source call each other. A call within the drain
-- finds `draining_stops_` set and only wakes stops, so it is a function of its own here,
-- `check_while_draining`, and the drain is the one loop.
use order_book_engine.Prelude.{
  ℕ, suc, zero, ◌+◌, ◌-◌, ◌%◌, ℤ, Bool, true, false, Option, none, some, List, [], ◌∷◌,
  if◌then◌else◌, length, ◌≡◌, refl, inl, inr, Bool-cases,
}
use order_book_engine.Types.{OrderType, Order, OrderResult, StopOrder, EventKind}
use order_book_engine.Book.State.{Book, word, emit, stop_event}
use order_book_engine.Book.Adding.{add_order_core_with}
use order_book_engine.Book.Stops.{insert_dormant_stop, wake_stops}

-- check_and_trigger_stops where `draining_stops_` is set.
unfoldable pub check_while_draining : ℤ → ℤ → ℤ → Book → Book
check_while_draining low high now b = if b.halted then b else wake_stops low high b

abbrev pub fired_type : Option ℤ → OrderType
fired_type none = OrderType.market
fired_type (some price) = OrderType.limit

-- The order that a stop fires, under the stop's own id.
abbrev pub fired_order : StopOrder → Order
fired_order s = record {
  id = s.id;
  owner_id = s.owner_id;
  side = s.side;
  type = fired_type s.limit_price;
  price = s.limit_price;
  quantity = s.quantity;
  filled = ℤ.pos 0;
}

-- One round of the drain: `s` has been taken from the front of the queue.
unfoldable pub fire_stop : StopOrder → ℤ → Book → Book
fire_stop s now b =
    (add_order_core_with check_while_draining (fired_order s) now false
      (emit (stop_event EventKind.stop_triggered now s) b)).0

abbrev pub insert_at_front : StopOrder → Book → Book
insert_at_front s b = record (insert_dormant_stop s b.next_front_priority b) {
  next_front_priority = (b.next_front_priority + word - 1) % word;
}

-- A halt sends the stops that have not fired back, from the last to the first.
unfoldable pub return_stops : List StopOrder → Book → Book
unfolding insert_dormant_stop
return_stops [] b = b
return_stops (s ∷ ss) b = insert_at_front s (return_stops ss b)

abbrev pub give_back : Book → Book
give_back b = record (return_stops b.triggered_stops b) { triggered_stops = [] }

-- One test of `while (!triggered_stops_.empty())` and the round behind it; `fire` goes on with the
-- first stop of the queue and the rest.
abbrev pub drain_round : List StopOrder → (StopOrder → List StopOrder → Book) → Book → Book
drain_round [] fire b = b
drain_round (s ∷ ss) fire b = let rest = fire s ss in if b.halted then give_back b else rest

-- The loop, on fuel.
unfoldable pub drain_stops : ℕ → ℤ → Book → Book
unfolding return_stops
drain_stops zero now b = b
drain_stops (suc fuel) now b =
    drain_round b.triggered_stops
      (λ s ss. drain_stops fuel now (fire_stop s now (record b { triggered_stops = ss }))) b

-- Every round takes one stop off the queue, and a sweep only moves stops to it.
abbrev pub stop_count : Book → ℕ
stop_count b = length b.triggered_stops + (length b.sell_stops + length b.buy_stops)

abbrev pub drain : ℤ → Book → Book
drain now b = record (drain_stops (suc (stop_count b)) now (record b { draining_stops = true })) {
  draining_stops = false;
}

unfoldable pub check_and_trigger_stops : ℤ → ℤ → ℤ → Book → Book
unfolding drain_stops
check_and_trigger_stops low high now b =
    let woken = wake_stops low high b in
    if b.halted then b else if woken.draining_stops then woken else drain now woken

unfoldable pub add_order_core : Order → ℤ → Bool → Book → Book × OrderResult
add_order_core = add_order_core_with check_and_trigger_stops

unfoldable pub add_order : Order → ℤ → Book → Book × OrderResult
add_order incoming now b = add_order_core incoming now true b

-- What holds after each way that a round can end holds after the round.
pub drain_round_cases {ℓ} :
    (P : Book → Type ℓ) (ts : List StopOrder) (fire : StopOrder → List StopOrder → Book) (b : Book)
    → (ts ≡ [] → P b)
    → P (give_back b)
    → ((s : StopOrder) (ss : List StopOrder) → ts ≡ s ∷ ss → b.halted ≡ false → P (fire s ss))
    → P (drain_round ts fire b)
drain_round_cases P [] fire b ended back more = ended refl
drain_round_cases P (s ∷ ss) fire b ended back more = elim (Bool-cases b.halted) [
  | inl h ↦ simp h back
  | inr h ↦ simp h (more s ss refl h)
]
