-- ===== src/Book/Stops.antt =====
-- The maps of dormant stops: insert_dormant_stop, and the waking of stops in
-- check_and_trigger_stops (engine/src/stops.cpp).
pub mod Waking
use order_book_engine.Prelude.{
  ℕ, ℤ, ◌==ℤ◌, ltb_ℤ, leb_ℤ, ltb, ◌==◌, Bool, ◌&&◌, ◌||◌, List, [], ◌∷◌, ◌++◌, if◌then◌else◌,
  insert, erase, Assoc,
}
use order_book_engine.Types.{Side, StopOrder}
use order_book_engine.Book.State.{Book, StopKey, StopMap, StopLocation}

-- `std::pair` compares prices, then priorities.
abbrev pub key_before : StopKey → StopKey → Bool
key_before (p, i) (q, j) = ltb_ℤ p q || p ==ℤ q && ltb i j

abbrev pub same_key : StopKey → StopKey → Bool
same_key (p, i) (q, j) = p ==ℤ q && i == j

-- `std::map::emplace`: nothing happens at a key that is there.
unfoldable pub emplace_stop : StopKey → StopOrder → StopMap → StopMap
emplace_stop key s [] = (key, s) ∷ []
emplace_stop key s ((k, t) ∷ m) =
    if key_before key k
    then (key, s) ∷ (k, t) ∷ m
    else if same_key key k
    then (k, t) ∷ m
    else (k, t) ∷ emplace_stop key s m

abbrev pub stops_for : Side → Book → StopMap
stops_for Side.sell b = b.sell_stops
stops_for Side.buy b = b.buy_stops

abbrev pub with_stops : Side → StopMap → Book → Book
with_stops Side.sell m b = record b { sell_stops = m }
with_stops Side.buy m b = record b { buy_stops = m }

unfoldable pub insert_dormant_stop : StopOrder → ℕ → Book → Book
insert_dormant_stop s priority b =
    let key : StopKey = (s.stop_price, priority) in
    let placed = with_stops s.side (emplace_stop key s (stops_for s.side b)) b in
    record placed { stop_index = insert s.id (record { side = s.side; key = key }) b.stop_index }

-- The sell stops before `lower_bound({low, 0})`, and those from it on.
abbrev pub split_sells : ℤ → StopMap → StopMap × StopMap
split_sells low [] = ([], [])
split_sells low (e ∷ m) =
    let (kept, woken) = split_sells low m in
    if ltb_ℤ (e.0).0 low then (e ∷ kept, woken) else ([], e ∷ m)

-- The buy stops from `upper_bound({high, max})` on, and those before it.
abbrev pub split_buys : ℤ → StopMap → StopMap × StopMap
split_buys high [] = ([], [])
split_buys high (e ∷ m) =
    let (kept, woken) = split_buys high m in
    if leb_ℤ (e.0).0 high then (kept, e ∷ woken) else (e ∷ m, [])

abbrev pub Woken : Type 0
Woken = List (ℕ × StopOrder)

-- What `take` collects: the priority of each key with its stop.
abbrev pub with_priority : StopMap → Woken
with_priority [] = []
with_priority (((price, priority), s) ∷ m) = (priority, s) ∷ with_priority m

unfoldable pub insert_by_priority : ℕ × StopOrder → Woken → Woken
insert_by_priority e [] = e ∷ []
insert_by_priority e (w ∷ ws) = if ltb w.0 e.0 then w ∷ insert_by_priority e ws else e ∷ w ∷ ws

-- `std::sort` by priority. Priorities are distinct, so the sorted order is determined.
unfoldable pub sort_by_priority : Woken → Woken
unfolding insert_by_priority
sort_by_priority [] = []
sort_by_priority (w ∷ ws) = insert_by_priority w (sort_by_priority ws)

abbrev pub stops_of : Woken → List StopOrder
stops_of [] = []
stops_of ((priority, s) ∷ ws) = s ∷ stops_of ws

unfoldable pub erase_stops : Woken → Assoc StopLocation → Assoc StopLocation
erase_stops [] m = m
erase_stops ((priority, s) ∷ ws) m = erase_stops ws (erase s.id m)

-- check_and_trigger_stops up to its test of `draining_stops_`: the stops that a sweep from `low`
-- to `high` wakes join the queue of triggered stops, in the order of their priorities.
unfoldable pub wake_stops : ℤ → ℤ → Book → Book
unfolding sort_by_priority erase_stops
wake_stops low high b =
    let (kept_sells, sells) = split_sells low b.sell_stops in
    let (kept_buys, buys) = split_buys high b.buy_stops in
    let woke = with_priority sells ++ with_priority buys in
    record b {
      sell_stops = kept_sells;
      buy_stops = kept_buys;
      stop_index = erase_stops woke b.stop_index;
      triggered_stops = b.triggered_stops ++ stops_of (sort_by_priority woke);
    }
