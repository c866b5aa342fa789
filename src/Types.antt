-- ===== src/Types.antt =====
-- The data of engine/include/engine/{order,trade,result,event,node,level}.hpp. Ids are unsigned
-- 64-bit numbers (ℕ); prices, quantities and times are signed 64-bit numbers (ℤ).
use order_book_engine.Prelude.{ℕ, ℤ, pos, Option, Bool, List, ◌==ℤ◌}

pub data Side : Type 0 where
  buy sell : Side

pub data OrderType : Type 0 where
  limit market : OrderType

pub record Order : Type 0 where
  pub id : ℕ
  pub owner_id : ℕ
  pub side : Side
  pub type : OrderType
  pub price : Option ℤ
  pub quantity : ℤ
  pub filled : ℤ

abbrev pub is_fully_filled : Order → Bool
is_fully_filled o = o.quantity ==ℤ pos 0

pub data FinalState : Type 0 where
  filled cancelled : FinalState

pub record StopOrder : Type 0 where
  pub id : ℕ
  pub owner_id : ℕ
  pub side : Side
  pub stop_price : ℤ
  pub quantity : ℤ
  pub limit_price : Option ℤ

pub record Trade : Type 0 where
  pub trade_id : ℕ
  pub price : ℤ
  pub quantity : ℤ
  pub aggressor_id : ℕ
  pub passive_id : ℕ
  pub buy_owner : ℕ
  pub sell_owner : ℕ
  pub aggressor_side : Side
  pub ts : ℤ

pub data RejectReason : Type 0 where
  none : RejectReason
  invalid_price invalid_quantity self_trade pool_exhausted symbol_halted : RejectReason
  unknown_order duplicate_order_id too_late price_band price_collar : RejectReason
  stop_would_trigger : RejectReason

pub record OrderResult : Type 0 where
  pub trades : List Trade
  pub unaccepted_quantity : ℤ
  pub reject_reason : RejectReason
  pub rested_price : Option ℤ

pub data EventKind : Type 0 where
  accepted rested trade cancelled modified replaced : EventKind
  stop_accepted stop_triggered stop_cancelled stop_modified : EventKind
  halted resumed rejected expired : EventKind

pub record EngineEvent : Type 0 where
  pub sequence_number : ℕ
  pub kind : EventKind
  pub ts : ℤ
  pub order_id : ℕ
  pub passive_id : ℕ
  pub owner_id : ℕ
  pub other_owner : ℕ
  pub side : Side
  pub price : Option ℤ
  pub quantity : ℤ
  pub limit_price : Option ℤ
  pub reject_reason : RejectReason

-- `== RejectReason::None`
abbrev pub is_ok : RejectReason → Bool
is_ok RejectReason.none = Bool.true
is_ok _ = Bool.false

-- A `Node *` is the index of a slot of the pool, and `Level *level` the price of the level that
-- holds the node, in the map of its order's side. The links `next` and `prev` are the order of
-- the level's queue.
pub record Node : Type 0 where
  pub order : Order
  pub level : Option ℤ

-- `head`, `tail` and the links between them, read as the queue of nodes from head to tail.
pub record Level : Type 0 where
  pub price : ℤ
  pub queue : List ℕ
  pub total_quantity : ℤ
  pub order_count : ℕ

-- Node{}
abbrev pub empty_order : Order
empty_order = record {
  id = 0;
  owner_id = 0;
  side = Side.buy;
  type = OrderType.limit;
  price = Option.none;
  quantity = pos 0;
  filled = pos 0;
}

abbrev pub empty_node : Node
empty_node = record { order = empty_order; level = Option.none }
