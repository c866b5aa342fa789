-- ===== src/Book/State.antt =====
-- The state of class Book (engine/include/engine/book.hpp), its constructor, and `emit`.
use order_book_engine.Prelude.{
  ℕ, ◌+◌, ◌-◌, ◌%◌, ◌^◌, ℤ, pos, leb_ℤ, ltb_ℤ, Bool, true, false, ◌||◌, Option, none, some, List,
  [], ◌∷◌, ◌++◌, if◌then◌else◌, Assoc, lookup, insert, emplace, contains, ◌==◌,
}
use order_book_engine.Types.{
  Side, StopOrder, FinalState, EngineEvent, EventKind, RejectReason, Level,
}
use order_book_engine.Levels.{NodePool, new_pool}

pub record Config : Type 0 where
  pub band_bps : ℤ
  pub grace_period_ms : ℤ
  pub halt_duration_ms : ℤ
  pub market_collar_bps : ℤ

-- The key of a dormant stop: stop price, then priority.
abbrev pub StopKey : Type 0
StopKey = ℤ × ℕ

pub record StopLocation : Type 0 where
  pub side : Side
  pub key : StopKey

abbrev pub StopMap : Type 0
StopMap = List (StopKey × StopOrder)

pub record Book : Type 0 where
  pub config : Config
  pub open config use *
  pub bids : List Level
  pub asks : List Level
  pub pool : NodePool
  pub id_index : Assoc ℕ
  pub finished_orders : Assoc FinalState
  pub owner_of : Assoc ℕ
  pub sell_stops : StopMap
  pub buy_stops : StopMap
  pub stop_index : Assoc StopLocation
  pub stop_ids_seen : List ℕ
  pub next_back_priority : ℕ
  pub next_front_priority : ℕ
  pub triggered_stops : List StopOrder
  pub draining_stops : Bool
  pub next_trade_id : ℕ
  pub events : List EngineEvent
  pub next_seq : ℕ
  pub reference_price : ℤ
  pub last_trade_price : Option ℤ
  pub has_reference_price : Bool
  pub outside_band_since : Option ℤ
  pub halted : Bool
  pub halt_until : ℤ

abbrev pub word : ℕ
word = 2 ^ 64

abbrev pub priority_mid : ℕ
priority_mid = 2 ^ 62

unfoldable pub new_book : ℕ → Config → Book
new_book pool_capacity config = record {
  config = config;
  bids = [];
  asks = [];
  pool = new_pool pool_capacity;
  id_index = [];
  finished_orders = [];
  owner_of = [];
  sell_stops = [];
  buy_stops = [];
  stop_index = [];
  stop_ids_seen = [];
  next_back_priority = priority_mid;
  next_front_priority = priority_mid - 1;
  triggered_stops = [];
  draining_stops = false;
  next_trade_id = 1;
  events = [];
  next_seq = 1;
  reference_price = pos 0;
  last_trade_price = none;
  has_reference_price = false;
  outside_band_since = none;
  halted = false;
  halt_until = pos 0;
}

-- The constructor; `none` for std::invalid_argument.
unfoldable pub make_book : ℕ → Config → Option Book
unfolding new_book
make_book pool_capacity config =
    if leb_ℤ config.band_bps (pos 0) || leb_ℤ (pos 10000) config.band_bps
    then none
    else if ltb_ℤ config.market_collar_bps (pos 0) || leb_ℤ (pos 10000) config.market_collar_bps
    then none
    else some (new_book pool_capacity config)

-- The kinds by which `emit` ends an order, and those by which it records an owner.
abbrev pub ends_order : EventKind → Bool
ends_order EventKind.cancelled = true
ends_order EventKind.stop_cancelled = true
ends_order EventKind.expired = true
ends_order _ = false

abbrev pub accepts_order : EventKind → Bool
accepts_order EventKind.accepted = true
accepts_order EventKind.stop_accepted = true
accepts_order _ = false

unfoldable pub emit : EngineEvent → Book → Book
emit e b = record b {
  next_seq = (b.next_seq + 1) % word;
  finished_orders =
      if ends_order e.kind
      then insert e.order_id FinalState.cancelled b.finished_orders
      else b.finished_orders;
  owner_of = if accepts_order e.kind then emplace e.order_id e.owner_id b.owner_of else b.owner_of;
  events = b.events ++ record e { sequence_number = b.next_seq } ∷ [];
}

-- An event about one order, `{0, kind, now, id, 0, owner, 0, side, price, quantity}`.
abbrev pub order_event : EventKind → ℤ → ℕ → ℕ → Side → Option ℤ → ℤ → EngineEvent
order_event kind now id owner side price quantity = record {
  sequence_number = 0;
  kind = kind;
  ts = now;
  order_id = id;
  passive_id = 0;
  owner_id = owner;
  other_owner = 0;
  side = side;
  price = price;
  quantity = quantity;
  limit_price = none;
  reject_reason = RejectReason.none;
}

abbrev pub stop_event : EventKind → ℤ → StopOrder → EngineEvent
stop_event kind now s =
    record (order_event kind now s.id s.owner_id s.side (some s.stop_price) s.quantity) {
      limit_price = s.limit_price;
    }

unfoldable pub emit_rejected :
    ℕ → ℕ → Side → Option ℤ → ℤ → Option ℤ → RejectReason → ℤ → Book → Book
unfolding emit
emit_rejected id owner side price quantity limit_price why now =
    emit (record (order_event EventKind.rejected now id owner side price quantity) {
      limit_price = limit_price;
      reject_reason = why;
    })

-- drain_events: the events, and the book without them.
unfoldable pub drain_events : Book → List EngineEvent × Book
drain_events b = (b.events, record b { events = [] })

unfoldable pub final_state : ℕ → Book → Option FinalState
final_state id b = lookup id b.finished_orders

abbrev pub owner_matches : ℕ → Option ℕ → Bool
owner_matches requester none = false
owner_matches requester (some owner) = owner == requester

unfoldable pub owned_by : ℕ → ℕ → Book → Bool
owned_by id requester b = owner_matches requester (lookup id b.owner_of)

unfoldable pub id_in_use : ℕ → Book → Bool
id_in_use id b = contains id b.id_index || contains id b.finished_orders || contains id b.stop_index

-- The map of levels of a side.
abbrev pub levels : Side → Book → List Level
levels Side.buy b = b.bids
levels Side.sell b = b.asks

abbrev pub with_levels : Side → List Level → Book → Book
with_levels Side.buy ls b = record b { bids = ls }
with_levels Side.sell ls b = record b { asks = ls }

abbrev pub first_price : List Level → Option ℤ
first_price [] = none
first_price (l ∷ ls) = some l.price

unfoldable pub best_bid : Book → Option ℤ
best_bid b = first_price b.bids

unfoldable pub best_ask : Book → Option ℤ
best_ask b = first_price b.asks
