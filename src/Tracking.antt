-- ===== src/Tracking.antt =====
-- An interface for relations between an earlier and a later state of class Book: what has to be shown
-- of a relation so that every step of add_order_core keeps to it.
pub mod Filling
pub mod Settling
pub mod Adding
pub mod Commands
pub mod StopCommands
pub mod Calls
use order_book_engine.Prelude.{ℕ, ℤ, Option, Bool, List, Assoc, insert, ◌≡◌}
use order_book_engine.Types.{StopOrder, FinalState, EngineEvent}
use order_book_engine.Book.State.{Book, Config, StopMap, StopLocation, emit}
use order_book_engine.Book.Cascade.{check_and_trigger_stops}

-- What the book records about the past, about stops and about prices: all but its levels,
-- its nodes and the state of the band.
pub record Records : Type 0 where
  pub config : Config
  pub finished_orders : Assoc FinalState
  pub owner_of : Assoc ℕ
  pub sell_stops : StopMap
  pub buy_stops : StopMap
  pub stop_index : Assoc StopLocation
  pub stop_ids_seen : List ℕ
  pub next_back_priority : ℕ
  pub next_front_priority : ℕ
  pub triggered_stops : List StopOrder
  pub draining_stops : Bool
  pub events : List EngineEvent
  pub next_seq : ℕ
  pub reference_price : ℤ
  pub last_trade_price : Option ℤ
  pub has_reference_price : Bool

abbrev pub records : Book → Records
records b = record {
  config = b.config;
  finished_orders = b.finished_orders;
  owner_of = b.owner_of;
  sell_stops = b.sell_stops;
  buy_stops = b.buy_stops;
  stop_index = b.stop_index;
  stop_ids_seen = b.stop_ids_seen;
  next_back_priority = b.next_back_priority;
  next_front_priority = b.next_front_priority;
  triggered_stops = b.triggered_stops;
  draining_stops = b.draining_stops;
  events = b.events;
  next_seq = b.next_seq;
  reference_price = b.reference_price;
  last_trade_price = b.last_trade_price;
  has_reference_price = b.has_reference_price;
}

abbrev pub finish : ℕ → FinalState → Records → Records
finish id state r = record r { finished_orders = insert id state r.finished_orders }

-- A relation that is transitive, allows any change of what is not recorded, the recording of a
-- finished order, and an event.
pub record Tracking (R : Book → Book → Type 0) : Type 0 where
  pub trans : (b c d : Book) → R b c → R c d → R b d
  pub same : (b c : Book) → records c ≡ records b → R b c
  pub finished :
      (b c : Book) (id : ℕ) (state : FinalState) → records c ≡ finish id state (records b) → R b c
  pub emitted : (e : EngineEvent) (b : Book) → R b (emit e b)

-- What is recorded besides the dormant stops.
pub record Active : Type 0 where
  pub config : Config
  pub finished_orders : Assoc FinalState
  pub owner_of : Assoc ℕ
  pub triggered_stops : List StopOrder
  pub draining_stops : Bool
  pub events : List EngineEvent
  pub next_seq : ℕ

abbrev pub active : Book → Active
active b = record {
  config = b.config;
  finished_orders = b.finished_orders;
  owner_of = b.owner_of;
  triggered_stops = b.triggered_stops;
  draining_stops = b.draining_stops;
  events = b.events;
  next_seq = b.next_seq;
}

-- A tracked relation that also allows any change of the dormant stops and the prices, and that
-- check_and_trigger_stops keeps to: every call of the book does.
pub record CallTracking (R : Book → Book → Type 0) : Type 0 where
  pub tracking : Tracking R
  pub open tracking use *
  pub dormant : (b c : Book) → active c ≡ active b → R b c
  pub checked : (low high now : ℤ) (b : Book) → R b (check_and_trigger_stops low high now b)
