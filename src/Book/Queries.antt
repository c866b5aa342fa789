-- ===== src/Book/Queries.antt =====
-- What class Book shows of itself: depth, snapshot and check_invariants
-- (engine/src/book_levels.cpp).
pub mod Depth
use order_book_engine.Prelude.{
  ℕ, zero, suc, ◌+◌, ◌-◌, ◌%◌, ℤ, pos, ◌+ℤ◌, ◌==ℤ◌, ltb_ℤ, leb_ℤ, eq_option_ℤ, Bool, true, false,
  ◌&&◌, not, Option, none, some, List, [], ◌∷◌, ◌++◌, map, length, lookup, ◌==◌,
}
use order_book_engine.Types.{Side, Order, StopOrder, Node, Level}
use order_book_engine.Levels.{deref, count_mod}
use order_book_engine.Book.State.{Book, StopKey, StopLocation, StopMap, word, first_price}
use order_book_engine.Book.Stops.{same_key}

pub record DepthLevel : Type 0 where
  pub price : ℤ
  pub quantity : ℤ
  pub order_count : ℕ

pub record DepthSnapshot : Type 0 where
  pub as_of_sequence : ℕ
  pub bids : List DepthLevel
  pub asks : List DepthLevel

pub record RestingOrder : Type 0 where
  pub order_id : ℕ
  pub owner_id : ℕ
  pub price : ℤ
  pub quantity : ℤ
  pub filled : ℤ

pub record DormantStop : Type 0 where
  pub order_id : ℕ
  pub owner_id : ℕ
  pub side : Side
  pub stop_price : ℤ
  pub limit_price : Option ℤ
  pub quantity : ℤ

pub record BookSnapshot : Type 0 where
  pub as_of_sequence : ℕ
  pub bids : List RestingOrder
  pub asks : List RestingOrder
  pub stops : List DormantStop
  pub last_trade_price : Option ℤ
  pub halted : Bool

-- `next_seq_ - 1`
abbrev pub last_sequence : Book → ℕ
last_sequence b = (b.next_seq + word - 1) % word

abbrev pub depth_level : Level → DepthLevel
depth_level l = record { price = l.price; quantity = l.total_quantity; order_count = l.order_count }

-- The levels of a side, best price first, until `max_levels` have been taken.
unfoldable pub collect_levels : ℕ → List Level → List DepthLevel
collect_levels zero ls = []
collect_levels (suc n) [] = []
collect_levels (suc n) (l ∷ ls) = depth_level l ∷ collect_levels n ls

unfoldable pub depth : ℕ → Book → DepthSnapshot
depth max_levels b = record {
  as_of_sequence = last_sequence b;
  bids = collect_levels max_levels b.bids;
  asks = collect_levels max_levels b.asks;
}

-- The orders of one level, head first.
unfoldable pub collect_queue : List Node → ℤ → List ℕ → List RestingOrder
collect_queue nodes price [] = []
collect_queue nodes price (n ∷ ns) =
    let order = (deref nodes n).order in
    record {
      order_id = order.id;
      owner_id = order.owner_id;
      price = price;
      quantity = order.quantity;
      filled = order.filled;
    }
    ∷ collect_queue nodes price ns

unfoldable pub collect_orders : List Node → List Level → List RestingOrder
unfolding collect_queue
collect_orders nodes [] = []
collect_orders nodes (l ∷ ls) = collect_queue nodes l.price l.queue ++ collect_orders nodes ls

abbrev pub dormant_stop : StopKey × StopOrder → DormantStop
dormant_stop (key, s) = record {
  order_id = s.id;
  owner_id = s.owner_id;
  side = s.side;
  stop_price = s.stop_price;
  limit_price = s.limit_price;
  quantity = s.quantity;
}

unfoldable pub snapshot : Book → BookSnapshot
unfolding collect_orders
snapshot b = record {
  as_of_sequence = last_sequence b;
  bids = collect_orders b.pool.nodes b.bids;
  asks = collect_orders b.pool.nodes b.asks;
  stops = map dormant_stop (b.sell_stops ++ b.buy_stops);
  last_trade_price = b.last_trade_price;
  halted = b.halted;
}

abbrev pub is_empty {ℓ} : {A : Type ℓ} → List A → Bool
is_empty [] = true
is_empty (x ∷ xs) = false

abbrev pub same_side : Side → Side → Bool
same_side Side.buy Side.buy = true
same_side Side.sell Side.sell = true
same_side Side.buy Side.sell = false
same_side Side.sell Side.buy = false

abbrev pub points_to : Option ℕ → ℕ → Bool
points_to none n = false
points_to (some m) n = m == n

-- The tests of one node of a level.
abbrev pub node_ok : Book → Side → ℤ → ℕ → Bool
node_ok b side price n =
    let node = deref b.pool.nodes n in
    let order = node.order in
    eq_option_ℤ order.price (some price)
    && same_side order.side side
    && ltb_ℤ (pos 0) order.quantity
    && eq_option_ℤ node.level (some price)
    && points_to (lookup order.id b.id_index) n

unfoldable pub queue_ok : Book → Side → ℤ → List ℕ → Bool
queue_ok b side price [] = true
queue_ok b side price (n ∷ ns) = node_ok b side price n && queue_ok b side price ns

-- `sum` and `count` of the loop over a level's nodes.
unfoldable pub queue_sum : List Node → List ℕ → ℤ → ℤ
queue_sum nodes [] sum = sum
queue_sum nodes (n ∷ ns) sum = queue_sum nodes ns (sum +ℤ (deref nodes n).order.quantity)

unfoldable pub queue_count : List ℕ → ℕ → ℕ
queue_count [] count = count
queue_count (n ∷ ns) count = queue_count ns ((count + 1) % count_mod)

abbrev pub level_ok : Book → Side → Level → Bool
level_ok b side l =
    not (is_empty l.queue)
    && queue_ok b side l.price l.queue
    && (queue_sum b.pool.nodes l.queue (pos 0) ==ℤ l.total_quantity)
    && (queue_count l.queue 0 == l.order_count)

unfoldable pub side_ok : Book → Side → List Level → Bool
unfolding queue_ok queue_sum queue_count
side_ok b side [] = true
side_ok b side (l ∷ ls) = level_ok b side l && side_ok b side ls

-- What a side adds to `resting`.
abbrev pub resting : List Level → ℕ
resting [] = 0
resting (l ∷ ls) = queue_count l.queue 0 + resting ls

abbrev pub crossed_prices : Option ℤ → Option ℤ → Bool
crossed_prices none ask = false
crossed_prices (some bid) none = false
crossed_prices (some bid) (some ask) = leb_ℤ ask bid

-- `bids_.begin()->first >= asks_.begin()->first`, where neither side is empty.
unfoldable pub is_crossed : Book → Bool
is_crossed b = crossed_prices (first_price b.bids) (first_price b.asks)

abbrev pub located : Option StopLocation → Side → StopKey → Bool
located none side key = false
located (some where_it_is) side key =
    same_side where_it_is.side side && same_key where_it_is.key key

unfoldable pub stops_ok : Book → Side → StopMap → Bool
stops_ok b side [] = true
stops_ok b side ((key, s) ∷ ss) =
    same_side s.side side
    && (key.0 ==ℤ s.stop_price)
    && ltb_ℤ (pos 0) s.quantity
    && located (lookup s.id b.stop_index) side key
    && stops_ok b side ss

unfoldable pub check_invariants : Book → Bool
unfolding side_ok is_crossed stops_ok
check_invariants b =
    side_ok b Side.buy b.bids
    && side_ok b Side.sell b.asks
    && (resting b.bids + resting b.asks == length b.id_index)
    && not (is_crossed b)
    && stops_ok b Side.sell b.sell_stops
    && stops_ok b Side.buy b.buy_stops
    && (length b.stop_index == length b.sell_stops + length b.buy_stops)
    && is_empty b.triggered_stops
