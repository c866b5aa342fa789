-- ===== src/Draining/Count.antt =====
-- The fuel of the drain (engine/src/stops.cpp): how many stops a book holds in each step.
use order_book_engine.Prelude.{
  ℕ, zero, suc, ◌+◌, ◌<◌, ℤ, [], ◌∷◌, ◌++◌, ◌≡◌, refl, ap, ◌∙◌, inl, inr, Bool, Bool-cases, length,
  length-append, arith,
}
use order_book_engine.Types.{StopOrder, EventKind}
use order_book_engine.Book.State.{Book, StopMap, emit, stop_event}
use order_book_engine.Book.Stops.{
  split_sells, split_buys, with_priority, stops_of, insert_by_priority, sort_by_priority, Woken,
  wake_stops,
}
use order_book_engine.Book.Adding.{record_prices}
use order_book_engine.Book.Cascade.{
  check_while_draining, fire_stop, fired_order, drain_round_cases, drain_stops, stop_count,
}
use order_book_engine.Tracking.{Tracking, Records}
use order_book_engine.Tracking.Adding.{add_order_core_with_tracked}

split_sells-length :
    (low : ℤ) (m : StopMap)
    → let (kept, woken) = split_sells low m in length kept + length woken ≡ length m
split_sells-length low [] = refl
split_sells-length low (e ∷ m) = ground (arith, split_sells-length low m)

split_buys-length :
    (high : ℤ) (m : StopMap)
    → let (kept, woken) = split_buys high m in length kept + length woken ≡ length m
split_buys-length high [] = refl
split_buys-length high (e ∷ m) = ground (arith, split_buys-length high m)

with_priority-length : (m : StopMap) → length (with_priority m) ≡ length m
with_priority-length [] = refl
with_priority-length (((price, priority), s) ∷ m) = ap suc (with_priority-length m)

stops_of-length : (ws : Woken) → length (stops_of ws) ≡ length ws
stops_of-length [] = refl
stops_of-length ((priority, s) ∷ ws) = ap suc (stops_of-length ws)

insert_by_priority-length :
    (e : ℕ × StopOrder) (ws : Woken) → length (insert_by_priority e ws) ≡ suc (length ws)
unfolding insert_by_priority
insert_by_priority-length e [] = refl
insert_by_priority-length e (w ∷ ws) = ground (arith, insert_by_priority-length e ws)

sort_by_priority-length : (ws : Woken) → length (sort_by_priority ws) ≡ length ws
unfolding sort_by_priority
sort_by_priority-length [] = refl
sort_by_priority-length (w ∷ ws) =
    insert_by_priority-length w (sort_by_priority ws) ∙ ap suc (sort_by_priority-length ws)

-- Waking moves stops and loses none.
wake_stops-stop_count :
    (low high : ℤ) (b : Book) → stop_count (wake_stops low high b) ≡ stop_count b
unfolding wake_stops
wake_stops-stop_count low high b =
    let sells = (split_sells low b.sell_stops).1 in
    let buys = (split_buys high b.buy_stops).1 in
    let woke = with_priority sells ++ with_priority buys in
    omega (
      arith,
      split_sells-length low b.sell_stops,
      split_buys-length high b.buy_stops,
      length-append b.triggered_stops (stops_of (sort_by_priority woke)),
      stops_of-length (sort_by_priority woke),
      sort_by_priority-length woke,
      length-append (with_priority sells) (with_priority buys),
      with_priority-length sells,
      with_priority-length buys,
    )

abbrev SameCount : Book → Book → Type 0
SameCount b c = stop_count c ≡ stop_count b

records_count : Records → ℕ
records_count r = length r.triggered_stops + (length r.sell_stops + length r.buy_stops)

SameCount-tracking : Tracking SameCount
unfolding emit records_count
SameCount-tracking = record {
  trans = λ b c d h k. k ∙ h;
  same = λ b c e. ap records_count e;
  finished = λ b c id state e. ap records_count e;
  emitted = λ e b. refl;
}

check_while_draining-stop_count :
    (low high now : ℤ) (b : Book) → SameCount b (check_while_draining low high now b)
unfolding check_while_draining
check_while_draining-stop_count low high now b = elim (Bool-cases b.halted) [
  | inl e ↦ simp e refl
  | inr e ↦ simp e (wake_stops-stop_count low high b)
]

fire_stop-stop_count : (s : StopOrder) (now : ℤ) (b : Book) → SameCount b (fire_stop s now b)
unfolding fire_stop
fire_stop-stop_count s now b =
    add_order_core_with_tracked SameCount SameCount-tracking check_while_draining
      (λ low high price now b. check_while_draining-stop_count low high now (record_prices price b))
      (fired_order s) now Bool.false (emit (stop_event EventKind.stop_triggered now s) b)
    ∙ SameCount-tracking.emitted (stop_event EventKind.stop_triggered now s) b

-- With more fuel than there are stops, dormant and triggered, the drain ends by its own test: no
-- triggered stop is left, whatever the fired orders wake.
pub drain_stops_ends :
    (fuel : ℕ) (now : ℤ) (b : Book)
    → stop_count b < fuel
    → (drain_stops fuel now b).triggered_stops ≡ []
unfolding drain_stops
drain_stops_ends zero now b h = absurd (omega arith)
drain_stops_ends (suc fuel) now b h =
    drain_round_cases (λ c. c.triggered_stops ≡ []) b.triggered_stops _ b (λ e. e) refl
      λ s ss e _.
        let popped = record b { triggered_stops = ss } in
        drain_stops_ends fuel now (fire_stop s now popped)
          (omega (arith, fire_stop-stop_count s now popped, ap length e))
